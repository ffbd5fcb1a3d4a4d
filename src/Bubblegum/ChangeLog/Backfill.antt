-- ===== src/Bubblegum/ChangeLog/Backfill.antt =====
-- What saving a change log does to the tables of trees as a whole.
use mathlib.Core.List.{Memᴰ}
use digital_asset_rpc_infras.Base.{
  ℕ, ◌+◌, ◌≡◌, refl, ap, sym, subst, ◌∙◌, true, false, not, ◌&&◌, Option, none, some, List, [], ◌∷◌,
  ◌++◌, String, ltb, arith, if◌then◌else◌, length, inl, inr,
}
use digital_asset_rpc_infras.Base.Int.{ℤ, sub_ℕ, eqb_ℤ, as_i64}
use digital_asset_rpc_infras.Base.Reorder.{run}
use digital_asset_rpc_infras.Db.Table.{find, nat_key, pair_key}
use digital_asset_rpc_infras.Db.Schema.{BackfillItem, Db, TreeTables}
use digital_asset_rpc_infras.Db.Session.{
  Exec, Session, Error, ok, err, pure, raise, query, execute, execute_trees, ignore_error,
  storage_write_error, ◌>>=◌, ◌>>◌,
}
use digital_asset_rpc_infras.Db.Session.Backfill.{
  KeepsBackfill, KeepsBackfill-pure, KeepsBackfill-execute, KeepsBackfill-bind,
}
use digital_asset_rpc_infras.Db.Session.Inversion.{bind-ok, bind-err}
use digital_asset_rpc_infras.Bubblegum.Event.{PathNode, ChangeLogEventV1, Externals}
use digital_asset_rpc_infras.Bubblegum.ChangeLog.{
  upsert_node, insert_nodes, insert_audit, has_tree, insert_backfill, add_backfill, decode_tx,
  insert_change_log,
}
use digital_asset_rpc_infras.Bubblegum.ChangeLog.Nodes.{
  write_node, nodes_from, insert_nodes-ok, nodes-KeepsBackfill, path_covered, HasSeq,
}

-- The row that asks the backfiller to look at the tree.
abbrev pub backfill_row : ChangeLogEventV1 → ℕ → List BackfillItem → BackfillItem
backfill_row e slot known = record {
  tree = e.id;
  seq = as_i64 e.seq;
  slot = as_i64 slot;
  force_chk = not (has_tree e.id known) && ltb 1 e.seq;
  backfilled = false;
  failed = false;
  locked = false;
}

query-ok :
    {A : Type 0} (w : String → Error) (f : Db → A) (s : Session) (a : A)
    → (query w f s).0 ≡ ok a
    → (a ≡ f s.db) × ((query w f s).1.db ≡ s.db)
unfolding query
query-ok w f s a h = ground arith

query-keeps :
    {A : Type 0} (w : String → Error) (f : Db → A) (s : Session) → (query w f s).1.db ≡ s.db
unfolding query
query-keeps w f s = ground arith

-- The row is added, and no other table of trees changes.
add_backfill-ok :
    (e : ChangeLogEventV1) (slot : ℕ) (s : Session)
    → (add_backfill e slot s).0 ≡ ok tt
    → ((add_backfill e slot s).1.db.trees.backfill_items
        ≡ s.db.trees.backfill_items ++ backfill_row e slot s.db.trees.backfill_items ∷ [])
      × ((add_backfill e slot s).1.db.trees.cl_items ≡ s.db.trees.cl_items)
unfolding add_backfill insert_backfill query execute ◌>>=◌
add_backfill-ok e slot s h = ground arith

add_backfill-err :
    (e : ChangeLogEventV1) (slot : ℕ) (s : Session) (x : Error)
    → (add_backfill e slot s).0 ≡ err x
    → (add_backfill e slot s).1.db.trees.backfill_items ≡ s.db.trees.backfill_items
unfolding add_backfill insert_backfill query execute ◌>>=◌
add_backfill-err e slot s x h = ground arith

audit-keeps :
    (e : ChangeLogEventV1) (tx : List ℕ) (instruction : String) (s : Session)
    → let t =
        (ignore_error (execute_trees storage_write_error (insert_audit e tx instruction)) s).1 in
      (t.db.trees.backfill_items ≡ s.db.trees.backfill_items)
      × (t.db.trees.cl_items ≡ s.db.trees.cl_items)
unfolding ignore_error execute insert_audit
audit-keeps e tx instruction s = ground arith

decode_tx-keeps : (o : Option (List ℕ)) (s : Session) → (decode_tx o s).1 ≡ s
unfolding decode_tx raise pure
decode_tx-keeps none s = refl
decode_tx-keeps (some tx) s = refl

same_test : (n : ℤ) → eqb_ℤ n n ≡ true
same_test n = ground arith

module _ (x : Externals) (e : ChangeLogEventV1) (slot : ℕ) (txn_id instruction : String) where
  -- The statements after the nodes, after the transaction id and after the audit row.
  abbrev at_end : ℕ → Exec (Unit {0})
  at_end i = if eqb_ℤ (sub_ℕ i 1) (sub_ℕ (length e.path) 1) then add_backfill e slot else pure tt

  abbrev audit : List ℕ → Exec (Unit {0})
  audit tx = ignore_error (execute_trees storage_write_error (insert_audit e tx instruction))

  abbrev after_tx : ℕ → List ℕ → Exec (Unit {0})
  after_tx i tx = audit tx >> at_end i

  abbrev after_nodes : ℕ → Exec (Unit {0})
  after_nodes i = decode_tx (x.bs58_decode txn_id) >>= after_tx i

  at_end_is : (i : ℕ) → i ≡ 0 + length e.path → at_end i ≡ add_backfill e slot
  at_end_is i h = let eq : i ≡ length e.path = omega arith in rw (eq, same_test)

  -- The session in which the backfill row is added.
  reaches_end :
      (s : Session)
      → (insert_change_log x e slot txn_id instruction s).0 ≡ ok tt
      → (t : Session) × (insert_change_log x e slot txn_id instruction s ≡ add_backfill e slot t)
        × (t.db.trees.cl_items ≡ (run write_node (nodes_from e 0 e.path) s.db.trees).cl_items)
        × (t.db.trees.backfill_items ≡ s.db.trees.backfill_items)
  unfolding insert_change_log
  reaches_end s h =
      let (n, h1, same1) = bind-ok (insert_nodes e 0 e.path) after_nodes s tt h in
      let (count, trees1) = insert_nodes-ok e 0 e.path s n h1 in
      let s1 = (insert_nodes e 0 e.path s).1 in
      let (tx, h2, same2) =
        bind-ok (decode_tx (x.bs58_decode txn_id)) (after_tx n) s1 tt
          (sym (ap (λ r. r.0) same1) ∙ h) in
      let s2 = (decode_tx (x.bs58_decode txn_id) s1).1 in
      let (u, h3, same3) =
        bind-ok (audit tx) (λ _. at_end n) s2 tt (sym (ap (λ r. r.0) (same1 ∙ same2)) ∙ h) in
      let kept = audit-keeps e tx instruction s2 in
      let s3 = (audit tx s2).1 in
      let s2_is = decode_tx-keeps (x.bs58_decode txn_id) s1 in
      (
        s3,
        same1 ∙ same2 ∙ same3 ∙ ap (λ (m : Exec (Unit {0})). m s3) (at_end_is n count),
        kept.1
            ∙ ap (λ (z : Session). z.db.trees.cl_items) s2_is
            ∙ ap (λ (z : TreeTables). z.cl_items) trees1,
        kept.0
            ∙ ap (λ (z : Session). z.db.trees.backfill_items) s2_is
            ∙ ap (λ (z : TreeTables). z.backfill_items) trees1
            ∙ nodes-KeepsBackfill (nodes_from e 0 e.path) s.db.trees,
      )

  -- If saving a change log succeeds, one row is added to `backfill_items`: it asks for a check of the
  -- tree exactly if the tree had no row and the sequence number is above 1.
  pub saved_asks_backfill :
      (s : Session)
      → (insert_change_log x e slot txn_id instruction s).0 ≡ ok tt
      → (insert_change_log x e slot txn_id instruction s).1.db.trees.backfill_items
        ≡ s.db.trees.backfill_items ++ backfill_row e slot s.db.trees.backfill_items ∷ []
  saved_asks_backfill s h =
      let (t, same, nodes, items) = reaches_end s h in
      let added = add_backfill-ok e slot t (sym (ap (λ r. r.0) same) ∙ h) in
      ap (λ r. r.1.db.trees.backfill_items) same
      ∙ added.0
      ∙ ap (λ l. l ++ backfill_row e slot l ∷ []) items

  -- If saving a change log succeeds, every node of its path has a row in `cl_items` that is at least as
  -- new as the change log.
  pub saved_has_path :
      {p : PathNode} (s : Session)
      → (insert_change_log x e slot txn_id instruction s).0 ≡ ok tt
      → Memᴰ p e.path
      → HasSeq
          (e.id, p.index)
          (as_i64 e.seq)
          (find
            (e.id, p.index)
            (insert_change_log x e slot txn_id instruction s).1.db.trees.cl_items)
  saved_has_path {p} s h m =
      let (t, same, nodes, items) = reaches_end s h in
      let added = add_backfill-ok e slot t (sym (ap (λ r. r.0) same) ∙ h) in
      subst (λ z. HasSeq (e.id, p.index) (as_i64 e.seq) (find (e.id, p.index) z))
        (sym (ap (λ r. r.1.db.trees.cl_items) same ∙ added.1 ∙ nodes))
        (path_covered e 0 s.db.trees m)

  insert_nodes-KeepsBackfill : (i : ℕ) (ps : List PathNode) → KeepsBackfill (insert_nodes e i ps)
  unfolding insert_nodes upsert_node
  insert_nodes-KeepsBackfill i [] = KeepsBackfill-pure i
  insert_nodes-KeepsBackfill i (p ∷ ps) =
      KeepsBackfill-bind (KeepsBackfill-execute _ _ (λ t. refl))
        (λ _. insert_nodes-KeepsBackfill (i + 1) ps)

  at_end-err :
      (i : ℕ) (s : Session) (y : Error)
      → (at_end i s).0 ≡ err y
      → (at_end i s).1.db.trees.backfill_items ≡ s.db.trees.backfill_items
  unfolding pure
  at_end-err i s y h = ground (arith, add_backfill-err e slot s y)

  after_tx-err :
      (i : ℕ) (tx : List ℕ) (s : Session) (y : Error)
      → (after_tx i tx s).0 ≡ err y
      → (after_tx i tx s).1.db.trees.backfill_items ≡ s.db.trees.backfill_items
  unfolding ◌>>=◌ ignore_error
  after_tx-err i tx s y h = at_end-err i (audit tx s).1 y h ∙ (audit-keeps e tx instruction s).0

  after_nodes-err :
      (i : ℕ) (s : Session) (y : Error)
      → (after_nodes i s).0 ≡ err y
      → (after_nodes i s).1.db.trees.backfill_items ≡ s.db.trees.backfill_items
  after_nodes-err i s y h =
      let o = x.bs58_decode txn_id in
      elim (bind-err (decode_tx o) (after_tx i) s y h) [
        | inl p ↦ ap (λ (z : Session). z.db.trees.backfill_items) (p.1 ∙ decode_tx-keeps o s)
        | inr (tx, h1, same) ↦
            ap (λ r. r.1.db.trees.backfill_items) same
            ∙ after_tx-err i tx (decode_tx o s).1 y (sym (ap (λ r. r.0) same) ∙ h)
            ∙ ap (λ (z : Session). z.db.trees.backfill_items) (decode_tx-keeps o s)
      ]

  -- If saving a change log fails, no row is added to `backfill_items`, whichever nodes were written:
  -- the backfiller will find a gap.
  pub failed_leaves_gap :
      (s : Session) (y : Error)
      → (insert_change_log x e slot txn_id instruction s).0 ≡ err y
      → (insert_change_log x e slot txn_id instruction s).1.db.trees.backfill_items
        ≡ s.db.trees.backfill_items
  unfolding insert_change_log
  failed_leaves_gap s y h =
      let kept = (insert_nodes-KeepsBackfill 0 e.path).items s in
      elim (bind-err (insert_nodes e 0 e.path) after_nodes s y h) [
        | inl p ↦ ap (λ (z : Session). z.db.trees.backfill_items) p.1 ∙ kept
        | inr (n, h1, same) ↦
            ap (λ r. r.1.db.trees.backfill_items) same
            ∙ after_nodes-err n (insert_nodes e 0 e.path s).1 y (sym (ap (λ r. r.0) same) ∙ h)
            ∙ kept
      ]
