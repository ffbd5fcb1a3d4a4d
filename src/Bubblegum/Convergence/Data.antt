-- ===== src/Bubblegum/Convergence/Data.antt =====
-- The rows of the `asset_data` table after a list of table writes.
use mathlib.Core.List.{Permᴰ}
use digital_asset_rpc_infras.Base.{
  ℕ, ◌≡◌, ◌≢◌, refl, ap, sym, ◌∙◌, ◌⊎◌, inl, inr, Option, none, some, List, [], ◌∷◌, arith,
  if◌then◌else◌,
}
use digital_asset_rpc_infras.Base.Int.{ℤ, pos, eq_of_parts}
use digital_asset_rpc_infras.Base.Reorder.{AllPairs, run, run-perm}
use digital_asset_rpc_infras.Db.Versioned.{in_sequence}
use digital_asset_rpc_infras.Db.Table.{
  find, upserted, find-upsert, nat_key, string_key, pair_key, ◌==◌,
}
use digital_asset_rpc_infras.Db.Schema.{AssetData, AssetTables}
use digital_asset_rpc_infras.Bubblegum.Event.{Externals}
use digital_asset_rpc_infras.Bubblegum.Writes.{upsert_asset}
use digital_asset_rpc_infras.Bubblegum.Effects.{
  TableOp, asset, data_row, creators, authority, grouping, apply_op,
}
use digital_asset_rpc_infras.Bubblegum.Upserts.{upsert_data, upsert_grouping, insert_authority}
use digital_asset_rpc_infras.Bubblegum.Upserts.Frame.{creators-SameOthers}

-- `r` and `s` are a row and its sequence number, which is not 0.
abbrev pub IsSequenced : AssetData → ℤ → Type 0
IsSequenced r s = (r.base_info_seq ≡ some s) × (s ≢ pos 0)

-- Two table writes that may be made to the `asset_data` table in either order.
abbrev pub DataCompatible : TableOp → TableOp → Type 0
DataCompatible (data_row i q s) (data_row j r t) =
    (i ≢ j) ⊎ ((s ≢ t) × IsSequenced q s × IsSequenced r t × (q.metadata ≡ r.metadata))
DataCompatible _ _ = Unit

DataCompatible-symm : (u v : TableOp) → DataCompatible u v → DataCompatible v u
DataCompatible-symm (data_row i q s) (data_row j r t) (inl ne) = inl (λ e. ne (sym e))
DataCompatible-symm (data_row i q s) (data_row j r t) (inr (ne, hq, hr, h)) =
    inr (λ e. ne (sym e), hr, hq, sym h)
DataCompatible-symm (asset _ _) (asset _ _) h = h
DataCompatible-symm (creators _ _ _ _) (creators _ _ _ _) h = h
DataCompatible-symm (authority _ _ _ _) (authority _ _ _ _) h = h
DataCompatible-symm (grouping _ _ _ _) (grouping _ _ _ _) h = h
DataCompatible-symm u v h = h

module _ (x : Externals) (id : ℕ) where
  abbrev put : AssetData → ℤ → AssetData → AssetData
  put new s old =
      if in_sequence s old.base_info_seq then record new { metadata = old.metadata } else old

  -- What a table write does to the data of the asset `id`.
  abbrev data_step : TableOp → Option AssetData → Option AssetData
  data_step (data_row j new s) r = if j == id then some (upserted new (put new s) r) else r
  data_step _ r = r

  find_step :
      (u : TableOp) (t : AssetTables)
      → find id (apply_op x u t).asset_data ≡ data_step u (find id t.asset_data)
  unfolding apply_op upsert_asset upsert_data upsert_grouping insert_authority
  find_step (data_row j new s) t =
      ground (arith, find-upsert j id new (put new s) t.asset_data, nat_key.beq_iff j id)
  find_step (asset _ _) t = refl
  find_step (creators j cs slot s) t = ap (find id) (creators-SameOthers j cs slot s t).1
  find_step (authority _ _ _ _) t = refl
  find_step (grouping _ _ _ _) t = refl

  find-run :
      (us : List TableOp) (t : AssetTables)
      → find id (run (apply_op x) us t).asset_data ≡ run data_step us (find id t.asset_data)
  find-run [] t = refl
  find-run (u ∷ us) t = find-run us (apply_op x u t) ∙ ap (run data_step us) (find_step u t)

  puts_commute :
      (q r : AssetData) (s t : ℤ) (o : Option AssetData)
      → s ≢ t
      → IsSequenced q s
      → IsSequenced r t
      → q.metadata ≡ r.metadata
      → upserted r (put r t) (some (upserted q (put q s) o))
        ≡ upserted q (put q s) (some (upserted r (put r t) o))
  puts_commute q r s t none ne hq hr h =
      ground (arith, eq_of_parts s t, eq_of_parts s (pos 0), eq_of_parts t (pos 0))
  puts_commute q r s t (some old) ne hq hr h =
      ground (arith, eq_of_parts s t, eq_of_parts s (pos 0), eq_of_parts t (pos 0))

  steps_commute :
      (u v : TableOp)
      → DataCompatible u v
      → (r : Option AssetData) → data_step v (data_step u r) ≡ data_step u (data_step v r)
  steps_commute (data_row i q s) (data_row j r t) (inl ne) o =
      ground (arith, nat_key.beq_iff i id, nat_key.beq_iff j id)
  steps_commute (data_row i q s) (data_row j r t) (inr (ne, hq, hr, h)) o =
      ground (arith, puts_commute q r s t o ne hq hr h)
  steps_commute (asset _ _) (asset _ _) h r = refl
  steps_commute (creators _ _ _ _) (creators _ _ _ _) h r = refl
  steps_commute (authority _ _ _ _) (authority _ _ _ _) h r = refl
  steps_commute (grouping _ _ _ _) (grouping _ _ _ _) h r = refl
  steps_commute u v h r = refl

-- The same writes in another order leave the same `asset_data` row of every asset, if any two writes
-- of one asset's row carry different sequence numbers, neither of them 0, and the same `metadata`
-- (the handlers write the string "processing").
pub data_order_free :
    (x : Externals) {us vs : List TableOp}
    → Permᴰ us vs
    → AllPairs DataCompatible us
    → (id : ℕ) (t : AssetTables)
    → find id (run (apply_op x) us t).asset_data ≡ find id (run (apply_op x) vs t).asset_data
data_order_free x {us} {vs} p h id t =
    find-run x id us t
    ∙ run-perm (data_step x id) DataCompatible DataCompatible-symm (steps_commute x id) p h _
    ∙ sym (find-run x id vs t)
