-- ===== src/Scenarios/Transfers.antt =====
-- A transfer: on a sound database, on one that loses a statement, and with a signature that is not
-- base 58.
use mathlib.Core.List.{Memᴰ}
use text.Mathlib.Text.{◌==◌}
use digital_asset_rpc_infras.Base.{◌+◌, ◌≡◌, refl, true, false, none, some, [], ◌∷◌, ◌++◌}
use digital_asset_rpc_infras.Base.Int.{as_i64}
use digital_asset_rpc_infras.Base.Reorder.{run}
use digital_asset_rpc_infras.Db.Json.{JsonValue}
use digital_asset_rpc_infras.Db.Table.{find, nat_key, int_key, pair_key}
use digital_asset_rpc_infras.Db.Schema.{empty_db}
use digital_asset_rpc_infras.Db.Session.{
  Session, ok, err, storage_write_error, change_log_event_malformed, pure, raise, query, commit,
  transaction, execute, ignore_error, ◌>>=◌,
}
use digital_asset_rpc_infras.Bubblegum.Event.{
  PathNode, ChangeLogEventV1, LeafSchema, InstructionName, BubblegumInstruction, InstructionBundle,
  Externals,
}
use digital_asset_rpc_infras.Bubblegum.ChangeLog.{
  insert_nodes, add_backfill, decode_tx, insert_change_log, save_changelog_event,
}
use digital_asset_rpc_infras.Bubblegum.ChangeLog.Nodes.{HasSeq}
use digital_asset_rpc_infras.Bubblegum.ChangeLog.Backfill.{
  backfill_row, saved_asks_backfill, saved_has_path, failed_leaves_gap,
}
use digital_asset_rpc_infras.Bubblegum.Upserts.{
  upsert_asset_with_leaf_info, upsert_asset_with_owner_and_delegate_info, upsert_asset_with_seq,
}
use digital_asset_rpc_infras.Bubblegum.Handlers.{save, transfer_leaf, transfer_parts, transfer}
use digital_asset_rpc_infras.Bubblegum.Effects.{apply_op, writes_of}
use digital_asset_rpc_infras.Bubblegum.Dispatch.{dispatch, handle_bubblegum_instruction}
use digital_asset_rpc_infras.Bubblegum.Dispatch.Handled.{refines, atomic}

-- A codec that knows one signature.
abbrev pub ext : Externals
ext = record {
  bs58_encode = λ n. "hash";
  bs58_decode = λ s. elim (s == "signature") [ true ↦ some (1 ∷ []) | false ↦ none ];
  key_to_string = λ k. "key";
  find_asset_address = λ tree leaf. tree + 1;
  mpl_bubblegum_id = 11;
  non_transferable = λ f. false;
  asset_lvl_frozen = λ f. false;
  permanent_lvl_frozen = λ f. false;
  token_standard_value = λ t. JsonValue.string "NonFungible";
  uses_value = λ u. JsonValue.string "uses";
  notifier = λ i. none;
}

abbrev pub changed_leaf : PathNode
changed_leaf = record { node = 70; index = 4 }

-- Leaf 0 of a tree of depth 2 changes.
abbrev pub changed : ChangeLogEventV1
changed = record {
  id = 100;
  path = changed_leaf ∷ record { node = 71; index = 2 } ∷ record { node = 72; index = 1 } ∷ [];
  seq = 5;
  index = 0;
}

abbrev pub moved : BubblegumInstruction
moved = record {
  instruction = InstructionName.transfer;
  tree_update = some changed;
  leaf_update = some (record { schema = LeafSchema.v1 7 3 3 0 8 9; leaf_hash = 70 });
  payload = none;
}

abbrev bundle : InstructionBundle
bundle = record { txn_id = "signature"; slot = 9 }

abbrev pub sound : Session
sound = record { db = empty_db; faults = []; notified = [] }

-- The ninth round trip, the statement that writes the owner, is lost.
abbrev broken : Session
broken = record {
  db = empty_db;
  faults = none ∷ none ∷ none ∷ none ∷ none ∷ none ∷ none ∷ none ∷ some "lost" ∷ [];
  notified = [];
}

moved_ok : (handle_bubblegum_instruction ext bundle moved sound).0 ≡ ok tt
unfolding handle_bubblegum_instruction dispatch transfer transfer_parts transfer_leaf save
    save_changelog_event insert_change_log insert_nodes add_backfill decode_tx pure raise query
    commit transaction execute ignore_error ◌>>=◌ upsert_asset_with_leaf_info
    upsert_asset_with_owner_and_delegate_info upsert_asset_with_seq
moved_ok = refl

moved_err :
    (handle_bubblegum_instruction ext bundle moved broken).0 ≡ err (storage_write_error "lost")
unfolding handle_bubblegum_instruction dispatch transfer transfer_parts transfer_leaf save
    save_changelog_event insert_change_log insert_nodes add_backfill decode_tx pure raise query
    commit transaction execute ignore_error ◌>>=◌ upsert_asset_with_leaf_info
    upsert_asset_with_owner_and_delegate_info upsert_asset_with_seq
moved_err = refl

saved_ok : (insert_change_log ext changed 9 "signature" "Transfer" sound).0 ≡ ok tt
unfolding insert_change_log insert_nodes add_backfill decode_tx pure raise query execute
    ignore_error ◌>>=◌
saved_ok = refl

saved_err :
    (insert_change_log ext changed 9 "0" "Transfer" sound).0 ≡ err change_log_event_malformed
unfolding insert_change_log insert_nodes add_backfill decode_tx pure raise query execute
    ignore_error ◌>>=◌
saved_err = refl

refines_example :
    (handle_bubblegum_instruction ext bundle moved sound).1.db.assets
    ≡ run (apply_op ext) (writes_of ext bundle moved) empty_db.assets
refines_example = refines ext bundle moved sound moved_ok

atomic_example :
    (handle_bubblegum_instruction ext bundle moved broken).1.db.assets ≡ empty_db.assets
atomic_example = atomic ext bundle moved broken (storage_write_error "lost") moved_err refl

saved_asks_backfill_example :
    (insert_change_log ext changed 9 "signature" "Transfer" sound).1.db.trees.backfill_items
    ≡ [] ++ backfill_row changed 9 [] ∷ []
saved_asks_backfill_example =
    saved_asks_backfill ext changed 9 "signature" "Transfer" sound saved_ok

saved_has_path_example :
    HasSeq
      (100, 4)
      (as_i64 5)
      (find
        (100, 4)
        (insert_change_log ext changed 9 "signature" "Transfer" sound).1.db.trees.cl_items)
saved_has_path_example =
    saved_has_path ext changed 9 "signature" "Transfer" {p = changed_leaf} sound saved_ok
      (Memᴰ.head refl)

failed_leaves_gap_example :
    (insert_change_log ext changed 9 "0" "Transfer" sound).1.db.trees.backfill_items ≡ []
failed_leaves_gap_example =
    failed_leaves_gap ext changed 9 "0" "Transfer" sound change_log_event_malformed saved_err
