-- ===== src/Bubblegum/Convergence/Rows.antt =====
-- The rows of the `asset` table after a list of table writes.
use mathlib.Core.List.{Permᴰ, Memᴰ}
use digital_asset_rpc_infras.Base.{
  ℕ, ◌≡◌, ◌≢◌, refl, ap, sym, ◌∙◌, ◌⊎◌, inl, inr, true, Option, some, List, [], ◌∷◌, ◌++◌, All,
  arith, if◌then◌else◌,
}
use digital_asset_rpc_infras.Base.Int.{pos}
use digital_asset_rpc_infras.Base.Reorder.{
  AllPairs, run, run-append, run-perm, run-again, if_commute, if_idem, if_map,
}
use digital_asset_rpc_infras.Db.Table.{find, upserted, find-upsert, nat_key, ◌==◌}
use digital_asset_rpc_infras.Db.Schema.{Asset, default_asset, AssetTables}
use digital_asset_rpc_infras.Bubblegum.Event.{Externals}
use digital_asset_rpc_infras.Bubblegum.Writes.{apply_write, upsert_asset}
use digital_asset_rpc_infras.Bubblegum.Writes.Ops.{burn, write_of}
use digital_asset_rpc_infras.Bubblegum.Writes.Commute.{
  IsStamped, Compatible, Compatible-symm, decompressed_keeps,
}
use digital_asset_rpc_infras.Bubblegum.Writes.Settled.{row_commute, row_idem}
use digital_asset_rpc_infras.Bubblegum.Effects.{
  TableOp, asset, data_row, creators, authority, grouping, apply_op,
}
use digital_asset_rpc_infras.Bubblegum.Upserts.{upsert_data, upsert_grouping, insert_authority}
use digital_asset_rpc_infras.Bubblegum.Upserts.Frame.{creators-SameOthers}

-- Two table writes that may be made to the `asset` table in either order.
abbrev pub AssetCompatible : TableOp → TableOp → Type 0
AssetCompatible (asset i o) (asset j p) = (i ≢ j) ⊎ (IsStamped o × IsStamped p × Compatible o p)
AssetCompatible _ _ = Unit

pub AssetCompatible-symm : (u v : TableOp) → AssetCompatible u v → AssetCompatible v u
AssetCompatible-symm (asset i o) (asset j p) (inl ne) = inl (λ e. ne (sym e))
AssetCompatible-symm (asset i o) (asset j p) (inr (ho, hp, h)) = inr (hp, ho, Compatible-symm o p h)
AssetCompatible-symm (data_row _ _ _) (data_row _ _ _) h = h
AssetCompatible-symm (creators _ _ _ _) (creators _ _ _ _) h = h
AssetCompatible-symm (authority _ _ _ _) (authority _ _ _ _) h = h
AssetCompatible-symm (grouping _ _ _ _) (grouping _ _ _ _) h = h
AssetCompatible-symm u v h = h

pub different : {A : Type 0} (i j id : ℕ) → i ≢ j → (j == id) ≡ true → (i == id) ≡ true → A
different i j id ne hj hi = absurd (ground (arith, nat_key.beq_iff i id, nat_key.beq_iff j id))

module _ (x : Externals) (id : ℕ) where
  -- What a table write does to the row of the asset `id`.
  abbrev pub asset_step : TableOp → Option Asset → Option Asset
  asset_step (asset j o) r =
      if j == id
      then some (upserted ((write_of x id o).set default_asset) (apply_write (write_of x id o)) r)
      else r
  asset_step _ r = r

  find_step :
      (u : TableOp) (t : AssetTables)
      → find id (apply_op x u t).asset ≡ asset_step u (find id t.asset)
  unfolding apply_op upsert_asset upsert_data upsert_grouping insert_authority
  find_step (asset j o) t = ground (
    arith,
    find-upsert j id ((write_of x j o).set default_asset) (apply_write (write_of x j o)) t.asset,
    nat_key.beq_iff j id,
  )
  find_step (data_row _ _ _) t = refl
  find_step (creators j cs slot s) t = ap (find id) (creators-SameOthers j cs slot s t).0
  find_step (authority _ _ _ _) t = refl
  find_step (grouping _ _ _ _) t = refl

  pub find-run :
      (us : List TableOp) (t : AssetTables)
      → find id (run (apply_op x) us t).asset ≡ run asset_step us (find id t.asset)
  find-run [] t = refl
  find-run (u ∷ us) t = find-run us (apply_op x u t) ∙ ap (run asset_step us) (find_step u t)

  -- The same on a row that is there.
  abbrev row_step : TableOp → Asset → Asset
  row_step (asset j o) r = if j == id then apply_write (write_of x id o) r else r
  row_step _ r = r

  row_stepped : (u : TableOp) (r : Asset) → asset_step u (some r) ≡ some (row_step u r)
  row_stepped (asset j o) r = sym (if_map (j == id) some _ r _ refl)
  row_stepped (data_row _ _ _) r = refl
  row_stepped (creators _ _ _ _) r = refl
  row_stepped (authority _ _ _ _) r = refl
  row_stepped (grouping _ _ _ _) r = refl

  row_run : (us : List TableOp) (r : Asset) → run asset_step us (some r) ≡ some (run row_step us r)
  row_run [] r = refl
  row_run (u ∷ us) r = ap (run asset_step us) (row_stepped u r) ∙ row_run us (row_step u r)

  found_run :
      (us : List TableOp) (t : AssetTables) (r : Asset)
      → find id t.asset ≡ some r
      → find id (run (apply_op x) us t).asset ≡ some (run row_step us r)
  found_run us t r h = find-run us t ∙ ap (run asset_step us) h ∙ row_run us r

  rows_commute :
      (u v : TableOp)
      → AssetCompatible u v
      → (r : Asset) → row_step v (row_step u r) ≡ row_step u (row_step v r)
  rows_commute (asset i o) (asset j p) (inl ne) r =
      if_commute (j == id) (i == id) (apply_write (write_of x id p)) (apply_write (write_of x id o))
        r (different i j id ne)
  rows_commute (asset i o) (asset j p) (inr (ho, hp, h)) r =
      if_commute (j == id) (i == id) (apply_write (write_of x id p)) (apply_write (write_of x id o))
        r (λ _ _. sym (row_commute x id o p r ho hp h))
  rows_commute (asset i o) (data_row _ _ _) h r = refl
  rows_commute (asset i o) (creators _ _ _ _) h r = refl
  rows_commute (asset i o) (authority _ _ _ _) h r = refl
  rows_commute (asset i o) (grouping _ _ _ _) h r = refl
  rows_commute (data_row _ _ _) v h r = refl
  rows_commute (creators _ _ _ _) v h r = refl
  rows_commute (authority _ _ _ _) v h r = refl
  rows_commute (grouping _ _ _ _) v h r = refl

  rows_idem : (u : TableOp) (r : Asset) → row_step u (row_step u r) ≡ row_step u r
  rows_idem (asset j o) r = if_idem (j == id) (apply_write (write_of x id o)) r (row_idem x id o r)
  rows_idem (data_row _ _ _) r = refl
  rows_idem (creators _ _ _ _) r = refl
  rows_idem (authority _ _ _ _) r = refl
  rows_idem (grouping _ _ _ _) r = refl

module _ (x : Externals) (id : ℕ) (r : Asset) (locked : r.seq ≡ some (pos 0)) where
  locked_step : (u : TableOp) → u ≢ asset id burn → asset_step x id u (some r) ≡ some r
  locked_step (asset j o) nb = ground (arith, nat_key.beq_iff j id, decompressed_keeps x id o r)
  locked_step (data_row _ _ _) nb = refl
  locked_step (creators _ _ _ _) nb = refl
  locked_step (authority _ _ _ _) nb = refl
  locked_step (grouping _ _ _ _) nb = refl

  locked_run :
      (us : List TableOp)
      → All (λ u. u ≢ asset id burn) us
      → run (asset_step x id) us (some r) ≡ some r
  locked_run [] h = refl
  locked_run (u ∷ us) h = ap (run (asset_step x id) us) (locked_step u h.0) ∙ locked_run us h.1

module _ (x : Externals) where
  -- Once an asset is decompressed (its `seq` is 0), no list of table writes that does not burn it
  -- changes its row.
  pub decompressed_stays :
      (id : ℕ) (r : Asset) (us : List TableOp) (t : AssetTables)
      → find id t.asset ≡ some r
      → r.seq ≡ some (pos 0)
      → All (λ u. u ≢ asset id burn) us
      → find id (run (apply_op x) us t).asset ≡ some r
  decompressed_stays id r us t has locked h =
      find-run x id us t ∙ ap (run (asset_step x id) us) has ∙ locked_run x id r locked us h

  -- If an asset has a row already, the same writes in another order leave the same row of it, in
  -- every column, if any two writes of one asset's columns carry different sequence numbers, none of
  -- them 0, and leaves of one schema.
  pub order_free :
      {us vs : List TableOp}
      → Permᴰ us vs
      → AllPairs AssetCompatible us
      → (id : ℕ) (r : Asset) (t : AssetTables) → find id t.asset ≡ some r
      → find id (run (apply_op x) us t).asset ≡ find id (run (apply_op x) vs t).asset
  order_free {us} {vs} p h id r t has =
      found_run x id us t r has
      ∙ ap some
          (run-perm (row_step x id) AssetCompatible AssetCompatible-symm (rows_commute x id) p h r)
      ∙ sym (found_run x id vs t r has)

  -- If an asset has a row before the writes, one of them may be made again after the others: the row
  -- does not change in any column, if any two of the writes to one asset's columns carry different
  -- sequence numbers, none of them 0, and leaves of one schema.
  pub replay :
      {u : TableOp} {us : List TableOp}
      → Memᴰ u us
      → AllPairs AssetCompatible us
      → (id : ℕ) (r : Asset) (t : AssetTables) → find id t.asset ≡ some r
      → find id (run (apply_op x) (us ++ u ∷ []) t).asset ≡ find id (run (apply_op x) us t).asset
  replay {u} {us} m h id r t has =
      found_run x id (us ++ u ∷ []) t r has
      ∙ ap some (
          run-append (row_step x id) us (u ∷ []) r
          ∙ run-again (row_step x id) AssetCompatible AssetCompatible-symm (rows_commute x id)
              (rows_idem x id) m h r)
      ∙ sym (found_run x id us t r has)
