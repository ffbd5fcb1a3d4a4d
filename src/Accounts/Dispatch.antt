-- ===== src/Accounts/Dispatch.antt =====
-- program_transformers/src/lib.rs: `handle_account_update`, from what the parser of the account's
-- owner made of its bytes.
pub mod Forward
use digital_asset_rpc_infras.Base.{ℕ, String, Option, none, some}
use digital_asset_rpc_infras.Db.Schema.{Pubkey}
use digital_asset_rpc_infras.Db.Session.{Error, Result, ok, err, Exec, not_implemented, pure, raise}
use digital_asset_rpc_infras.Bubblegum.Event.{Externals, BubblegumInstruction}
use digital_asset_rpc_infras.Accounts.Token.{
  AccountInfo, TokenProgramEntity, handle_token_program_account,
}
use digital_asset_rpc_infras.Accounts.Extensions.{
  TokenExtensionsProgramEntity, handle_token_extensions_program_account,
}
use digital_asset_rpc_infras.Accounts.Attachments.{
  AttachmentExternals, InscriptionData, handle_token_inscription_program_update,
}
use digital_asset_rpc_infras.Accounts.Metadata.{
  TokenMetadataAccountData, handle_token_metadata_account,
}
use digital_asset_rpc_infras.Accounts.Core.{handle_mpl_core_account}
use digital_asset_rpc_infras.Accounts.Core.Columns.{MplCoreAccountData}

-- blockbuster/src/programs/mod.rs
pub data ProgramParseResult : Type 0 where
  bubblegum : BubblegumInstruction → ProgramParseResult
  mpl_core : MplCoreAccountData → ProgramParseResult
  token_metadata : TokenMetadataAccountData → ProgramParseResult
  token_program_entity : TokenProgramEntity → ProgramParseResult
  token_extensions_program_entity : TokenExtensionsProgramEntity → ProgramParseResult
  token_inscription_account : InscriptionData → ProgramParseResult
  unknown : ProgramParseResult

module _ (x : Externals) (c : AttachmentExternals) (to_snake_case : String → String)
    (info : AccountInfo) where
  unfoldable pub handle_parsed : ProgramParseResult → Exec (Unit {0})
  handle_parsed (ProgramParseResult.token_metadata p) = handle_token_metadata_account x c info p
  handle_parsed (ProgramParseResult.token_program_entity p) = handle_token_program_account info p
  handle_parsed (ProgramParseResult.token_extensions_program_entity p) =
      handle_token_extensions_program_account x.notifier info p
  handle_parsed (ProgramParseResult.mpl_core p) = handle_mpl_core_account x to_snake_case info p
  handle_parsed (ProgramParseResult.token_inscription_account p) =
      handle_token_inscription_program_update c info p
  handle_parsed (ProgramParseResult.bubblegum _) = raise not_implemented
  handle_parsed ProgramParseResult.unknown = raise not_implemented

  -- `none` where no parser has the key of the owner, and the error of the parser where it fails.
  unfoldable pub handle_account_update : Option (Result ProgramParseResult) → Exec (Unit {0})
  unfolding handle_parsed
  handle_account_update none = pure tt
  handle_account_update (some (ok p)) = handle_parsed p
  handle_account_update (some (err e)) = raise e
