-- ===== src/Bubblegum/Dispatch.antt =====
-- `handle_bubblegum_instruction` of program_transformers/src/bubblegum/mod.rs.
pub mod Handled
use digital_asset_rpc_infras.Base.{Option, none, some, String}
use digital_asset_rpc_infras.Db.Session.{Exec, pure, notify, DownloadMetadataInfo, ◌>>=◌, ◌>>◌}
use digital_asset_rpc_infras.Bubblegum.Event.{
  InstructionName, BubblegumInstruction, InstructionBundle, Externals,
}
use digital_asset_rpc_infras.Bubblegum.Instruction.{ix_str}
use digital_asset_rpc_infras.Bubblegum.Handlers.{
  transfer, delegation_freezing_nontransferability, burn, redeem, cancel_redeem,
  creator_verification, collection_verification,
}
use digital_asset_rpc_infras.Bubblegum.Metadata.{mint, update_metadata}

module _ (x : Externals) where
  unfoldable pub notify_of : Option DownloadMetadataInfo → Exec (Unit {0})
  notify_of none = pure tt
  notify_of (some info) = notify x.notifier info

  -- The `match` on the instruction's name; `s` is `ix_str`.
  unfoldable pub dispatch :
      InstructionName → InstructionBundle → String → BubblegumInstruction → Exec (Unit {0})
  unfolding notify_of
  dispatch InstructionName.transfer b s ix = transfer x b s ix
  dispatch InstructionName.transfer_v2 b s ix = transfer x b s ix
  dispatch InstructionName.burn b s ix = burn x b s ix
  dispatch InstructionName.burn_v2 b s ix = burn x b s ix
  dispatch InstructionName.delegate b s ix = delegation_freezing_nontransferability x b s ix
  dispatch InstructionName.delegate_v2 b s ix = delegation_freezing_nontransferability x b s ix
  dispatch InstructionName.delegate_and_freeze_v2 b s ix =
      delegation_freezing_nontransferability x b s ix
  dispatch InstructionName.freeze_v2 b s ix = delegation_freezing_nontransferability x b s ix
  dispatch InstructionName.set_non_transferable_v2 b s ix =
      delegation_freezing_nontransferability x b s ix
  dispatch InstructionName.thaw_v2 b s ix = delegation_freezing_nontransferability x b s ix
  dispatch InstructionName.thaw_and_revoke_v2 b s ix =
      delegation_freezing_nontransferability x b s ix
  dispatch InstructionName.mint_v1 b s ix = do info ← mint x b s ix; notify_of info
  dispatch InstructionName.mint_to_collection_v1 b s ix = do info ← mint x b s ix; notify_of info
  dispatch InstructionName.mint_v2 b s ix = do info ← mint x b s ix; notify_of info
  dispatch InstructionName.redeem b s ix = redeem x b s ix
  dispatch InstructionName.cancel_redeem b s ix = cancel_redeem x b s ix
  dispatch InstructionName.verify_creator b s ix = creator_verification x b s ix
  dispatch InstructionName.unverify_creator b s ix = creator_verification x b s ix
  dispatch InstructionName.verify_creator_v2 b s ix = creator_verification x b s ix
  dispatch InstructionName.unverify_creator_v2 b s ix = creator_verification x b s ix
  dispatch InstructionName.verify_collection b s ix = collection_verification x b s ix
  dispatch InstructionName.unverify_collection b s ix = collection_verification x b s ix
  dispatch InstructionName.set_and_verify_collection b s ix = collection_verification x b s ix
  dispatch InstructionName.set_collection_v2 b s ix = collection_verification x b s ix
  dispatch InstructionName.update_metadata b s ix = do
    info ← update_metadata x b s ix
    notify_of info
  dispatch InstructionName.update_metadata_v2 b s ix = do
    info ← update_metadata x b s ix
    notify_of info
  dispatch _ b s ix = pure tt

  unfoldable pub handle_bubblegum_instruction :
      InstructionBundle → BubblegumInstruction → Exec (Unit {0})
  unfolding dispatch
  handle_bubblegum_instruction b ix = dispatch ix.instruction b (ix_str ix.instruction) ix
