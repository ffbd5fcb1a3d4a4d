-- ===== src/Bubblegum/Upserts/Frame.antt =====
-- The creators' upserts change no other table.
use digital_asset_rpc_infras.Base.{ℕ, ◌+◌, ◌≡◌, refl, List, [], ◌∷◌}
use digital_asset_rpc_infras.Base.Int.{ℤ}
use digital_asset_rpc_infras.Db.Schema.{AssetTables}
use digital_asset_rpc_infras.Bubblegum.Event.{Creator}
use digital_asset_rpc_infras.Bubblegum.Upserts.{
  upsert_creator, upsert_creators_from, upsert_creators,
}

-- The tables besides `asset_creators`.
abbrev pub SameOthers : AssetTables → AssetTables → Type 0
SameOthers t u =
    (t.asset ≡ u.asset) × (t.asset_data ≡ u.asset_data) × (t.asset_grouping ≡ u.asset_grouping)

creators_from-SameOthers :
    (i id : ℕ) (cs : List Creator) (slot s : ℤ) (t : AssetTables)
    → SameOthers (upsert_creators_from i id cs slot s t) t
unfolding upsert_creators_from upsert_creator
creators_from-SameOthers i id [] slot s t = (refl, refl, refl)
creators_from-SameOthers i id (c ∷ cs) slot s t = creators_from-SameOthers (i + 1) id cs slot s _

pub creators-SameOthers :
    (id : ℕ) (cs : List Creator) (slot s : ℤ) (t : AssetTables)
    → SameOthers (upsert_creators id cs slot s t) t
unfolding upsert_creators upsert_creator
creators-SameOthers id [] slot s t = (refl, refl, refl)
creators-SameOthers id (c ∷ cs) slot s t = creators_from-SameOthers 0 id (c ∷ cs) slot s t
