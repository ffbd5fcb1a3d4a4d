-- ===== src/Scenarios/Transactions.antt =====
-- A transaction with one outer Bubblegum instruction, the transfer of the scenario of transfers, that
-- calls a program which is not known.
use digital_asset_rpc_infras.Base.{Bool, ◌≡◌, refl, some, List, [], ◌∷◌, ◌==◌}
use digital_asset_rpc_infras.Base.Reorder.{run}
use digital_asset_rpc_infras.Db.Tokens.{Pubkey}
use digital_asset_rpc_infras.Db.Schema.{empty_db}
use digital_asset_rpc_infras.Db.Session.{
  ok, pure, raise, query, commit, transaction, execute, ignore_error, ◌>>=◌,
}
use digital_asset_rpc_infras.Bubblegum.ChangeLog.{
  insert_nodes, add_backfill, decode_tx, insert_change_log, save_changelog_event,
}
use digital_asset_rpc_infras.Bubblegum.Upserts.{
  upsert_asset_with_leaf_info, upsert_asset_with_owner_and_delegate_info, upsert_asset_with_seq,
}
use digital_asset_rpc_infras.Bubblegum.Handlers.{save, transfer_leaf, transfer_parts, transfer}
use digital_asset_rpc_infras.Bubblegum.Effects.{apply_op}
use digital_asset_rpc_infras.Bubblegum.Dispatch.{dispatch, handle_bubblegum_instruction}
use digital_asset_rpc_infras.Accounts.Dispatch.{ProgramParseResult}
use digital_asset_rpc_infras.Transactions.Order.{
  CompiledInstruction, Ordered, until_program, hoist_known_programs, inner_of, cons_pair,
  with_programs, outer_ix, append_ordered, order_from, order_instructions,
}
use digital_asset_rpc_infras.Transactions.Order.Known.{Describes, order_executed}
use digital_asset_rpc_infras.Transactions.Handle.{
  TransactionInfo, Parser, max_index, push_some, ix_accounts, handle_concrete, handle_result,
  handle_ix, handle_ixs, handle_ordered, handle_transaction,
}
use digital_asset_rpc_infras.Transactions.Handle.Refines.{all_writes, transaction_refines}
use digital_asset_rpc_infras.Scenarios.Transfers.{ext, moved, sound}

abbrev outer : CompiledInstruction
outer = record { program_id_index = 0; accounts = 0 ∷ 1 ∷ []; data_bytes = [] }

abbrev inner : CompiledInstruction
inner = record { program_id_index = 1; accounts = []; data_bytes = [] }

abbrev tx : TransactionInfo
tx = record {
  slot = 9;
  signature = "signature";
  account_keys = 11 ∷ 12 ∷ [];
  message_instructions = outer ∷ [];
  meta_inner_instructions = record { index = 0; instructions = inner ∷ [] } ∷ [];
}

abbrev key_set : Pubkey → Bool
key_set k = k == 11

abbrev parse : Parser
parse pair inners keys = some (ok (ProgramParseResult.bubblegum moved))

abbrev ordered : List Ordered
ordered = ((11, outer), some ((12, inner) ∷ [])) ∷ []

in_order :
    order_instructions key_set tx.account_keys tx.meta_inner_instructions tx.message_instructions
    ≡ some ordered
unfolding order_instructions order_from append_ordered outer_ix with_programs cons_pair inner_of
    hoist_known_programs until_program
in_order = refl

is_handled : handle_transaction ext parse tx key_set ≡ some (handle_ordered ext parse tx ordered)
unfolding handle_transaction order_instructions order_from append_ordered outer_ix with_programs
    cons_pair inner_of hoist_known_programs until_program
is_handled = refl

succeeds : (handle_ordered ext parse tx ordered sound).0 ≡ ok tt
unfolding handle_ordered handle_ixs handle_ix max_index ix_accounts push_some handle_result
    handle_concrete handle_bubblegum_instruction dispatch transfer transfer_parts transfer_leaf save
    save_changelog_event insert_change_log insert_nodes add_backfill decode_tx pure raise query
    commit transaction execute ignore_error ◌>>=◌ upsert_asset_with_leaf_info
    upsert_asset_with_owner_and_delegate_info upsert_asset_with_seq
succeeds = refl

transaction_refines_example :
    (handle_ordered ext parse tx ordered sound).1.db.assets
    ≡ run (apply_op ext) (all_writes ext parse tx (moved ∷ [])) empty_db.assets
transaction_refines_example =
    transaction_refines ext parse tx key_set ordered (moved ∷ [])
      (handle_ordered ext parse tx ordered) sound in_order is_handled (refl, tt) succeeds

order_executed_example :
    Describes key_set tx.account_keys tx.meta_inner_instructions 0 tx.message_instructions (
      order_instructions key_set tx.account_keys tx.meta_inner_instructions tx.message_instructions)
order_executed_example =
    order_executed key_set tx.account_keys tx.meta_inner_instructions tx.message_instructions
