-- ===== src/Bubblegum/Convergence/Settled.antt =====
-- What a list of table writes leaves of a row of `asset`, but for the column that the trigger sets.
use mathlib.Core.List.{Permᴰ, Memᴰ}
use digital_asset_rpc_infras.Base.{
  ℕ, ◌≡◌, refl, ap, sym, ◌∙◌, inl, inr, true, Option, none, some, List, [], ◌∷◌, ◌++◌,
  if◌then◌else◌, unwrap_or, map_option,
}
use digital_asset_rpc_infras.Base.Reorder.{
  AllPairs, run, run-append, run-perm, run-again, if_commute, if_idem, if_map,
}
use digital_asset_rpc_infras.Db.Table.{find, upserted, nat_key, ◌==◌}
use digital_asset_rpc_infras.Db.Schema.{Asset, default_asset, AssetTables}
use digital_asset_rpc_infras.Bubblegum.Event.{Externals}
use digital_asset_rpc_infras.Bubblegum.Writes.{
  apply_write, leaf_write, owner_write, compression_write, seq_write, base_write, burn_write,
}
use digital_asset_rpc_infras.Bubblegum.Writes.Ops.{
  AssetOp, leaf, owner, seq, base, compressed, burn, write_of,
}
use digital_asset_rpc_infras.Bubblegum.Writes.Settled.{settled_commute, settled_idem, write_settled}
use digital_asset_rpc_infras.Db.Trigger.{update_slot_updated}
use digital_asset_rpc_infras.Bubblegum.Effects.{
  TableOp, asset, data_row, creators, authority, grouping, apply_op,
}
use digital_asset_rpc_infras.Bubblegum.Convergence.Rows.{
  AssetCompatible, AssetCompatible-symm, different, asset_step, find-run,
}

-- A row but for the column that the trigger sets, which the next update computes from the others.
abbrev pub settled : Option Asset → Option Asset
settled = map_option update_slot_updated

default_allows :
    (x : Externals) (id : ℕ) (o : AssetOp) → (write_of x id o).allowed default_asset ≡ true
unfolding write_of leaf_write owner_write compression_write seq_write base_write burn_write
default_allows x id (leaf _) = refl
default_allows x id (owner _ _ _) = refl
default_allows x id (seq _) = refl
default_allows x id (base _) = refl
default_allows x id compressed = refl
default_allows x id burn = refl

module _ (x : Externals) (id : ℕ) where
  -- The same on what `settled` shows of a row.
  abbrev settle : AssetOp → Option Asset → Option Asset
  settle o r =
      some (update_slot_updated (apply_write (write_of x id o) (unwrap_or r default_asset)))

  abbrev settled_step : TableOp → Option Asset → Option Asset
  settled_step (asset j o) r = if j == id then settle o r else r
  settled_step _ r = r

  settle_twice :
      (o p : AssetOp) (r : Option Asset)
      → settle p (settle o r)
        ≡ some (
            update_slot_updated (
              apply_write
                (write_of x id p)
                (apply_write (write_of x id o) (unwrap_or r default_asset))))
  settle_twice o p r = ap some (write_settled x id p _)

  settled-upserted :
      (o : AssetOp) (r : Option Asset)
      → settled
          (some (upserted ((write_of x id o).set default_asset) (apply_write (write_of x id o)) r))
        ≡ settle o (settled r)
  settled-upserted o none = rw (default_allows x id o) refl
  settled-upserted o (some r) = ap some (sym (write_settled x id o r))

  settled_stepped :
      (u : TableOp) (r : Option Asset) → settled (asset_step x id u r) ≡ settled_step u (settled r)
  settled_stepped (asset j o) r = if_map (j == id) settled _ r _ (settled-upserted o r)
  settled_stepped (data_row _ _ _) r = refl
  settled_stepped (creators _ _ _ _) r = refl
  settled_stepped (authority _ _ _ _) r = refl
  settled_stepped (grouping _ _ _ _) r = refl

  settled-run :
      (us : List TableOp) (r : Option Asset)
      → settled (run (asset_step x id) us r) ≡ run settled_step us (settled r)
  settled-run [] r = refl
  settled-run (u ∷ us) r =
      settled-run us (asset_step x id u r) ∙ ap (run settled_step us) (settled_stepped u r)

  settled_found :
      (us : List TableOp) (t : AssetTables)
      → settled (find id (run (apply_op x) us t).asset)
        ≡ run settled_step us (settled (find id t.asset))
  settled_found us t = ap settled (find-run x id us t) ∙ settled-run us (find id t.asset)

  settled_steps_commute :
      (u v : TableOp)
      → AssetCompatible u v
      → (r : Option Asset) → settled_step v (settled_step u r) ≡ settled_step u (settled_step v r)
  settled_steps_commute (asset i o) (asset j p) (inl ne) r =
      if_commute (j == id) (i == id) (settle p) (settle o) r (different i j id ne)
  settled_steps_commute (asset i o) (asset j p) (inr (ho, hp, h)) r =
      if_commute (j == id) (i == id) (settle p) (settle o) r (λ _ _.
        settle_twice o p r
        ∙ ap some (sym (settled_commute x id o p (unwrap_or r default_asset) ho hp h))
        ∙ sym (settle_twice p o r))
  settled_steps_commute (asset i o) (data_row _ _ _) h r = refl
  settled_steps_commute (asset i o) (creators _ _ _ _) h r = refl
  settled_steps_commute (asset i o) (authority _ _ _ _) h r = refl
  settled_steps_commute (asset i o) (grouping _ _ _ _) h r = refl
  settled_steps_commute (data_row _ _ _) v h r = refl
  settled_steps_commute (creators _ _ _ _) v h r = refl
  settled_steps_commute (authority _ _ _ _) v h r = refl
  settled_steps_commute (grouping _ _ _ _) v h r = refl

  settled_steps_idem :
      (u : TableOp) (r : Option Asset) → settled_step u (settled_step u r) ≡ settled_step u r
  settled_steps_idem (asset j o) r =
      if_idem (j == id) (settle o) r
        (settle_twice o o r ∙ ap some (settled_idem x id o (unwrap_or r default_asset)))
  settled_steps_idem (data_row _ _ _) r = refl
  settled_steps_idem (creators _ _ _ _) r = refl
  settled_steps_idem (authority _ _ _ _) r = refl
  settled_steps_idem (grouping _ _ _ _) r = refl

module _ (x : Externals) where
  -- The same writes in another order leave the same row of every asset, but for the column
  -- `slot_updated`, which the next update of the row computes from the others, if any two writes of
  -- one asset's columns carry different sequence numbers, none of them 0, and leaves of one schema.
  pub order_settled :
      {us vs : List TableOp}
      → Permᴰ us vs
      → AllPairs AssetCompatible us
      → (id : ℕ) (t : AssetTables)
      → settled (find id (run (apply_op x) us t).asset)
        ≡ settled (find id (run (apply_op x) vs t).asset)
  order_settled {us} {vs} p h id t =
      settled_found x id us t
      ∙ run-perm (settled_step x id) AssetCompatible AssetCompatible-symm
          (settled_steps_commute x id) p h _
      ∙ sym (settled_found x id vs t)

  -- A write that was made may be made again after the others: no row of `asset` changes, but for the
  -- column `slot_updated`, which the next update of the row computes from the others, if any two of
  -- the writes to one asset's columns carry different sequence numbers, none of them 0, and leaves
  -- of one schema.
  pub replay_settled :
      {u : TableOp} {us : List TableOp}
      → Memᴰ u us
      → AllPairs AssetCompatible us
      → (id : ℕ) (t : AssetTables)
      → settled (find id (run (apply_op x) (us ++ u ∷ []) t).asset)
        ≡ settled (find id (run (apply_op x) us t).asset)
  replay_settled {u} {us} m h id t =
      settled_found x id (us ++ u ∷ []) t
      ∙ run-append (settled_step x id) us (u ∷ []) _
      ∙ run-again (settled_step x id) AssetCompatible AssetCompatible-symm
          (settled_steps_commute x id) (settled_steps_idem x id) m h _
      ∙ sym (settled_found x id us t)
