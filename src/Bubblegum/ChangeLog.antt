-- ===== src/Bubblegum/ChangeLog.antt =====
-- `save_changelog_event` and `insert_change_log` of program_transformers/src/bubblegum/db.rs. These
-- statements run outside any transaction, so what was written before an error stays. An `as i64` of
-- a `u32` keeps its value; the depth of a tree is below 63, so that `2i64.pow` does not overflow.
pub mod Frame
pub mod Nodes
pub mod Backfill
use digital_asset_rpc_infras.Base.{
  ℕ, ◌+◌, ◌-◌, ◌^◌, Bool, true, false, not, ◌&&◌, ◌||◌, Option, none, some, List, [], ◌∷◌, ◌++◌,
  String, ltb, ◌==◌, if◌then◌else◌, length,
}
use digital_asset_rpc_infras.Base.Int.{ℤ, pos, sub_ℕ, ltb_ℤ, eqb_ℤ, as_i64}
use digital_asset_rpc_infras.Db.Table.{upsert, insert_or_keep, nat_key, int_key, pair_key}
use digital_asset_rpc_infras.Db.Schema.{Pubkey, ClItem, BackfillItem, TreeTables}
use digital_asset_rpc_infras.Db.Session.{
  Exec, Error, storage_write_error, change_log_event_malformed, execute_trees, query, raise, pure,
  ignore_error, ◌>>=◌, ◌>>◌,
}
use digital_asset_rpc_infras.Bubblegum.Event.{PathNode, ChangeLogEventV1, Externals}
use digital_asset_rpc_infras.Bubblegum.Instruction.{instruction_from}

unfoldable pub node_idx_to_leaf_idx : ℕ → ℕ → ℤ
node_idx_to_leaf_idx index tree_height = sub_ℕ index (2 ^ tree_height)

-- The row of one node, at level `i` of a path of `depth + 1` nodes.
unfoldable pub node_item : ℕ → ℕ → ℕ → PathNode → ClItem
unfolding node_idx_to_leaf_idx
node_item depth seq i p = record {
  leaf_idx = if i == 0 then some (node_idx_to_leaf_idx p.index depth) else none;
  seq = as_i64 seq;
  level = i;
  hash = p.node;
}

-- `ON CONFLICT (tree, node_idx) DO UPDATE .. WHERE excluded.seq > cl_items.seq`
unfoldable pub upsert_node : Pubkey → ℕ → ClItem → TreeTables → TreeTables
upsert_node tree node_idx new t = record t {
  cl_items =
      upsert (tree, node_idx) new (λ old. if ltb_ℤ old.seq new.seq then new else old) t.cl_items;
}

-- The loop over the path; its result is the final `i`.
unfoldable pub insert_nodes : ChangeLogEventV1 → ℕ → List PathNode → Exec ℕ
insert_nodes e i [] = pure i
insert_nodes e i (p ∷ ps) = do
  execute_trees storage_write_error
      (upsert_node e.id p.index (node_item (length e.path - 1) e.seq i p))
  insert_nodes e (i + 1) ps

unfoldable pub insert_audit : ChangeLogEventV1 → List ℕ → String → TreeTables → TreeTables
insert_audit e tx instruction t = record t {
  cl_audits_v2 =
      insert_or_keep (e.id, (e.index, as_i64 e.seq))
        (record { tx = tx; instruction = instruction_from instruction }) t.cl_audits_v2;
}

unfoldable pub has_tree : Pubkey → List BackfillItem → Bool
has_tree tree [] = false
has_tree tree (b ∷ bs) = b.tree == tree || has_tree tree bs

unfoldable pub insert_backfill : BackfillItem → TreeTables → TreeTables
insert_backfill b t = record t { backfill_items = t.backfill_items ++ b ∷ [] }

-- Lines 137 to 166: `force_chk` asks for the tree to be checked from its first change on.
unfoldable pub add_backfill : ChangeLogEventV1 → ℕ → Exec (Unit {0})
add_backfill e slot = do
  known ← query storage_write_error (λ d. has_tree e.id d.trees.backfill_items)
  execute_trees storage_write_error (
      insert_backfill (record {
        tree = e.id;
        seq = as_i64 e.seq;
        slot = as_i64 slot;
        force_chk = not known && ltb 1 e.seq;
        backfilled = false;
        failed = false;
        locked = false;
      }))

unfoldable pub decode_tx : Option (List ℕ) → Exec (List ℕ)
decode_tx none = raise change_log_event_malformed
decode_tx (some tx) = pure tx

-- For an empty path `path.len() - 1` wraps and is cast to -1, which is then also `i - 1`.
unfoldable pub insert_change_log :
    Externals → ChangeLogEventV1 → ℕ → String → String → Exec (Unit {0})
unfolding decode_tx
insert_change_log x e slot txn_id instruction = do
  i ← insert_nodes e 0 e.path
  tx ← decode_tx (x.bs58_decode txn_id)
  ignore_error (execute_trees storage_write_error (insert_audit e tx instruction))
  if eqb_ℤ (sub_ℕ i 1) (sub_ℕ (length e.path) 1) then add_backfill e slot else pure tt

unfoldable pub save_changelog_event : Externals → ChangeLogEventV1 → ℕ → String → String → Exec ℕ
save_changelog_event x e slot txn_id instruction = do
  insert_change_log x e slot txn_id instruction
  pure e.seq
