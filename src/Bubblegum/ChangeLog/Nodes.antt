-- ===== src/Bubblegum/ChangeLog/Nodes.antt =====
-- The nodes that a change log writes to `cl_items`.
use mathlib.Core.List.{Permᴰ, Memᴰ}
use digital_asset_rpc_infras.Base.{
  subst, ℕ, ◌+◌, ◌-◌, ◌≡◌, ◌≢◌, refl, ap, sym, ◌∙◌, ◌⊎◌, inl, inr, Option, none, some, List, [],
  ◌∷◌, arith, if◌then◌else◌, length,
}
use digital_asset_rpc_infras.Base.Int.{ℤ, ltb_ℤ, ◌≤ℤ◌, as_i64, eq_of_parts}
use digital_asset_rpc_infras.Base.Reorder.{AllPairs, run, run-perm}
use digital_asset_rpc_infras.Db.Table.{find, upserted, find-upsert, Key, nat_key, pair_key, ◌==◌}
use digital_asset_rpc_infras.Db.Schema.{Pubkey, ClItem, Db, TreeTables}
use digital_asset_rpc_infras.Db.Session.{
  Exec, Session, ok, pure, execute_trees, storage_write_error,
}
use digital_asset_rpc_infras.Db.Session.Inversion.{bind-ok, execute-ok}
use digital_asset_rpc_infras.Bubblegum.Event.{PathNode, ChangeLogEventV1}
use digital_asset_rpc_infras.Bubblegum.ChangeLog.{node_item, upsert_node, insert_nodes}

-- A tree and a node of it.
abbrev pub NodeKey : Type 0
NodeKey = Pubkey × ℕ

-- The rows that the path of a change log asks for.
abbrev pub nodes_from : ChangeLogEventV1 → ℕ → List PathNode → List (NodeKey × ClItem)
nodes_from e i [] = []
nodes_from e i (p ∷ ps) =
    ((e.id, p.index), node_item (length e.path - 1) e.seq i p) ∷ nodes_from e (i + 1) ps

abbrev pub write_node : NodeKey × ClItem → TreeTables → TreeTables
write_node ((tree, i), new) t = upsert_node tree i new t

abbrev execute_node : ChangeLogEventV1 → ℕ → PathNode → Exec (Unit {0})
execute_node e i p =
    execute_trees storage_write_error
      (upsert_node e.id p.index (node_item (length e.path - 1) e.seq i p))

-- If the loop over the path succeeds, it has written every node, and its counter has counted them.
pub insert_nodes-ok :
    (e : ChangeLogEventV1) (i : ℕ) (ps : List PathNode) (s : Session) (n : ℕ)
    → (insert_nodes e i ps s).0 ≡ ok n
    → (n ≡ i + length ps)
      × ((insert_nodes e i ps s).1.db.trees ≡ run write_node (nodes_from e i ps) s.db.trees)
unfolding insert_nodes pure
insert_nodes-ok e i [] s n h = ground arith
insert_nodes-ok e i (p ∷ ps) s n h =
    let (u, h1, same) = bind-ok (execute_node e i p) (λ _. insert_nodes e (i + 1) ps) s n h in
    let t = (execute_node e i p s).1 in
    let (count, rest) = insert_nodes-ok e (i + 1) ps t n (sym (ap (λ r. r.0) same) ∙ h) in
    (
      omega arith,
      ap (λ r. r.1.db.trees) same
          ∙ rest
          ∙ ap (λ (d : Db). run write_node (nodes_from e (i + 1) ps) d.trees)
              (execute-ok _ _ s u h1),
    )

-- Two node writes that may be made in either order.
abbrev pub NodeCompatible : NodeKey × ClItem → NodeKey × ClItem → Type 0
NodeCompatible (k, c) (l, d) = (k ≢ l) ⊎ (c.seq ≢ d.seq)

NodeCompatible-symm : (u v : NodeKey × ClItem) → NodeCompatible u v → NodeCompatible v u
NodeCompatible-symm (k, c) (l, d) (inl ne) = inl (λ e. ne (sym e))
NodeCompatible-symm (k, c) (l, d) (inr ne) = inr (λ e. ne (sym e))

module _ (key : NodeKey) where
  abbrev keep_newest : ClItem → ClItem → ClItem
  keep_newest new old = if ltb_ℤ old.seq new.seq then new else old

  node_key : Key NodeKey
  node_key = pair_key

  -- What a node write does to the row of `key`.
  abbrev node_step : NodeKey × ClItem → Option ClItem → Option ClItem
  node_step (k, new) r = if k == key then some (upserted new (keep_newest new) r) else r

  find_step :
      (u : NodeKey × ClItem) (t : TreeTables)
      → find key (write_node u t).cl_items ≡ node_step u (find key t.cl_items)
  unfolding upsert_node
  find_step (k, new) t =
      ground (arith, find-upsert k key new (keep_newest new) t.cl_items, node_key.beq_iff k key)

  find-run :
      (us : List (NodeKey × ClItem)) (t : TreeTables)
      → find key (run write_node us t).cl_items ≡ run node_step us (find key t.cl_items)
  find-run [] t = refl
  find-run (u ∷ us) t = find-run us (write_node u t) ∙ ap (run node_step us) (find_step u t)

  newest_commute :
      (c d : ClItem) (r : Option ClItem)
      → c.seq ≢ d.seq
      → upserted d (keep_newest d) (some (upserted c (keep_newest c) r))
        ≡ upserted c (keep_newest c) (some (upserted d (keep_newest d) r))
  newest_commute c d none ne = ground (arith, eq_of_parts c.seq d.seq)
  newest_commute c d (some r) ne = ground (arith, eq_of_parts c.seq d.seq)

  steps_commute :
      (u v : NodeKey × ClItem)
      → NodeCompatible u v
      → (r : Option ClItem) → node_step v (node_step u r) ≡ node_step u (node_step v r)
  steps_commute (k, c) (l, d) (inl ne) r =
      ground (arith, node_key.beq_iff k key, node_key.beq_iff l key)
  steps_commute (k, c) (l, d) (inr ne) r = ground (arith, newest_commute c d r ne)

  -- At least the sequence number `s` is in the row.
  abbrev pub HasSeq : ℤ → Option ClItem → Type 0
  HasSeq s none = ⊥
  HasSeq s (some r) = s ≤ℤ r.seq

  step_keeps :
      (u : NodeKey × ClItem) (s : ℤ) (r : Option ClItem) → HasSeq s r → HasSeq s (node_step u r)
  step_keeps (k, c) s none h = elim h [ ]
  step_keeps (k, c) s (some r) h = ground arith

  run_keeps :
      (us : List (NodeKey × ClItem)) (s : ℤ) (r : Option ClItem)
      → HasSeq s r
      → HasSeq s (run node_step us r)
  run_keeps [] s r h = h
  run_keeps (u ∷ us) s r h = run_keeps us s (node_step u r) (step_keeps u s r h)

-- The same node writes in another order leave the same row of every node of every tree, if any two
-- writes of one node carry different sequence numbers.
pub nodes_order_free :
    {us vs : List (NodeKey × ClItem)}
    → Permᴰ us vs
    → AllPairs NodeCompatible us
    → (key : NodeKey) (t : TreeTables)
    → find key (run write_node us t).cl_items ≡ find key (run write_node vs t).cl_items
nodes_order_free {us} {vs} p h key t =
    find-run key us t
    ∙ run-perm (node_step key) NodeCompatible NodeCompatible-symm (steps_commute key) p h _
    ∙ sym (find-run key vs t)

step_sets :
    (key : NodeKey) (c : ClItem) (r : Option ClItem) → HasSeq key c.seq (node_step key (key, c) r)
step_sets key c none = ground (arith, (node_key key).beq_iff key key)
step_sets key c (some old) = ground (arith, (node_key key).beq_iff key key)

head_covered :
    (e : ChangeLogEventV1) (i : ℕ) (p : PathNode) (ps : List PathNode) (t : TreeTables)
    → let key : NodeKey = (e.id, p.index) in
      HasSeq key (as_i64 e.seq) (find key (run write_node (nodes_from e i (p ∷ ps)) t).cl_items)
unfolding node_item
head_covered e i p ps t =
    let key : NodeKey = (e.id, p.index) in
    let new = node_item (length e.path - 1) e.seq i p in
    subst (HasSeq key (as_i64 e.seq)) (sym (find-run key ((key, new) ∷ nodes_from e (i + 1) ps) t))
      (run_keeps key (nodes_from e (i + 1) ps) (as_i64 e.seq) _
        (step_sets key new (find key t.cl_items)))

-- Every node of the path has a row that is at least as new as the change log.
pub path_covered :
    (e : ChangeLogEventV1) {p : PathNode} {ps : List PathNode} (i : ℕ) (t : TreeTables)
    → Memᴰ p ps
    → HasSeq
        (e.id, p.index)
        (as_i64 e.seq)
        (find (e.id, p.index) (run write_node (nodes_from e i ps) t).cl_items)
path_covered e {ps = []} i t m = elim m [ ]
path_covered e {p = p} {ps = q ∷ ps} i t (Memᴰ.head eq) =
    subst
      (λ z.
        HasSeq (e.id, z.index) (as_i64 e.seq)
          (find (e.id, z.index) (run write_node (nodes_from e i (q ∷ ps)) t).cl_items))
      (sym eq) (head_covered e i q ps t)
path_covered e {ps = q ∷ ps} i t (Memᴰ.tail m) = path_covered e (i + 1) (write_node _ t) m

pub nodes-KeepsBackfill :
    (us : List (NodeKey × ClItem)) (t : TreeTables)
    → (run write_node us t).backfill_items ≡ t.backfill_items
unfolding upsert_node
nodes-KeepsBackfill [] t = refl
nodes-KeepsBackfill (u ∷ us) t = nodes-KeepsBackfill us (write_node u t)
