-- ===== src/Bubblegum/Convergence/Grouping.antt =====
-- The rows of the `asset_grouping` table after a list of table writes.
use mathlib.Core.List.{Permᴰ}
use digital_asset_rpc_infras.Base.{
  ℕ, ◌≡◌, ◌≢◌, refl, ap, sym, ◌∙◌, ◌⊎◌, inl, inr, false, ◌&&◌, Option, none, some, List, [], ◌∷◌,
  String, arith, if◌then◌else◌,
}
use digital_asset_rpc_infras.Base.Int.{ℤ, pos, eq_of_parts}
use digital_asset_rpc_infras.Base.Reorder.{AllPairs, run, run-perm}
use digital_asset_rpc_infras.Db.Versioned.{in_sequence}
use digital_asset_rpc_infras.Db.Table.{
  find, upserted, find-upsert, nat_key, string_key, pair_key, ◌==◌, beq_refl,
}
use digital_asset_rpc_infras.Db.Schema.{AssetGrouping, AssetTables}
use digital_asset_rpc_infras.Bubblegum.Event.{Externals, Collection}
use digital_asset_rpc_infras.Bubblegum.Writes.{upsert_asset}
use digital_asset_rpc_infras.Bubblegum.Effects.{
  TableOp, asset, data_row, creators, authority, grouping, apply_op,
}
use digital_asset_rpc_infras.Bubblegum.Upserts.{
  upsert_data, upsert_grouping, insert_authority, group_columns,
}
use digital_asset_rpc_infras.Bubblegum.Upserts.Frame.{creators-SameOthers}

-- Two table writes that may be made to the `asset_grouping` table in either order.
abbrev pub GroupCompatible : TableOp → TableOp → Type 0
GroupCompatible (grouping i c slot s) (grouping j d slot' t) =
    (i ≢ j) ⊎ ((s ≢ t) × (s ≢ pos 0) × (t ≢ pos 0))
GroupCompatible _ _ = Unit

GroupCompatible-symm : (u v : TableOp) → GroupCompatible u v → GroupCompatible v u
GroupCompatible-symm (grouping i c slot s) (grouping j d slot' t) (inl ne) = inl (λ e. ne (sym e))
GroupCompatible-symm (grouping i c slot s) (grouping j d slot' t) (inr (ne, hs, ht)) =
    inr (λ e. ne (sym e), ht, hs)
GroupCompatible-symm (asset _ _) (asset _ _) h = h
GroupCompatible-symm (creators _ _ _ _) (creators _ _ _ _) h = h
GroupCompatible-symm (authority _ _ _ _) (authority _ _ _ _) h = h
GroupCompatible-symm (data_row _ _ _) (data_row _ _ _) h = h
GroupCompatible-symm u v h = h

module _ (x : Externals) (id : ℕ) where
  abbrev set : Option Collection → ℤ → ℤ → AssetGrouping → AssetGrouping
  set c slot s r = record r {
    group_value = (group_columns x c).0;
    verified = (group_columns x c).1;
    slot_updated = some slot;
    group_info_seq = some s;
  }

  abbrev put : Option Collection → ℤ → ℤ → AssetGrouping → AssetGrouping
  put c slot s r = if in_sequence s r.group_info_seq then set c slot s r else r

  abbrev fresh : AssetGrouping
  fresh = record {
    group_value = none;
    seq = none;
    slot_updated = none;
    verified = false;
    group_info_seq = none;
  }

  -- What a table write does to the collection of the asset `id`.
  abbrev group_step : TableOp → Option AssetGrouping → Option AssetGrouping
  group_step (grouping j c slot s) r =
      if j == id then some (upserted (set c slot s fresh) (put c slot s) r) else r
  group_step _ r = r

  key_beq :
      (j : ℕ) → nat_key.beq j id && string_key.beq "collection" "collection" ≡ nat_key.beq j id
  key_beq j = ground (arith, beq_refl {K = String} "collection")

  find_step :
      (u : TableOp) (t : AssetTables)
      → find (id, "collection") (apply_op x u t).asset_grouping
        ≡ group_step u (find (id, "collection") t.asset_grouping)
  unfolding apply_op upsert_asset upsert_data upsert_grouping insert_authority
  find_step (grouping j c slot s) t = ground (
    arith,
    find-upsert (j, "collection") (id, "collection") (set c slot s fresh) (put c slot s)
        t.asset_grouping,
    nat_key.beq_iff j id,
    key_beq j,
  )
  find_step (asset _ _) t = refl
  find_step (creators j cs slot s) t =
      ap (find (id, "collection")) (creators-SameOthers j cs slot s t).2
  find_step (authority _ _ _ _) t = refl
  find_step (data_row _ _ _) t = refl

  find-run :
      (us : List TableOp) (t : AssetTables)
      → find (id, "collection") (run (apply_op x) us t).asset_grouping
        ≡ run group_step us (find (id, "collection") t.asset_grouping)
  find-run [] t = refl
  find-run (u ∷ us) t = find-run us (apply_op x u t) ∙ ap (run group_step us) (find_step u t)

  steps_commute :
      (u v : TableOp)
      → GroupCompatible u v
      → (r : Option AssetGrouping) → group_step v (group_step u r) ≡ group_step u (group_step v r)
  steps_commute (grouping i c slot s) (grouping j d slot' t) (inl ne) o =
      ground (arith, nat_key.beq_iff i id, nat_key.beq_iff j id)
  steps_commute (grouping i c slot s) (grouping j d slot' t) (inr (ne, hs, ht)) none =
      ground (arith, eq_of_parts s t, eq_of_parts s (pos 0), eq_of_parts t (pos 0))
  steps_commute (grouping i c slot s) (grouping j d slot' t) (inr (ne, hs, ht)) (some r) =
      ground (arith, eq_of_parts s t, eq_of_parts s (pos 0), eq_of_parts t (pos 0))
  steps_commute (asset _ _) (asset _ _) h r = refl
  steps_commute (creators _ _ _ _) (creators _ _ _ _) h r = refl
  steps_commute (authority _ _ _ _) (authority _ _ _ _) h r = refl
  steps_commute (data_row _ _ _) (data_row _ _ _) h r = refl
  steps_commute u v h r = refl

-- The same writes in another order leave the same collection row of every asset, if any two writes of
-- one asset's collection carry different sequence numbers, neither of them 0.
pub group_order_free :
    (x : Externals) {us vs : List TableOp}
    → Permᴰ us vs
    → AllPairs GroupCompatible us
    → (id : ℕ) (t : AssetTables)
    → find (id, "collection") (run (apply_op x) us t).asset_grouping
      ≡ find (id, "collection") (run (apply_op x) vs t).asset_grouping
group_order_free x {us} {vs} p h id t =
    find-run x id us t
    ∙ run-perm (group_step x id) GroupCompatible GroupCompatible-symm (steps_commute x id) p h _
    ∙ sym (find-run x id vs t)
