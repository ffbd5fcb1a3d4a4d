-- ===== src/Accounts/Dispatch/Forward.antt =====
-- What `handle_account_update` does to the slots by which the account handlers guard their writes.
use digital_asset_rpc_infras.Base.{String, Option, none, some, List, [], ◌∷◌}
use digital_asset_rpc_infras.Db.Session.{Session, Result, ok, err}
use digital_asset_rpc_infras.Bubblegum.Event.{Externals}
use digital_asset_rpc_infras.Accounts.Token.{AccountInfo}
use digital_asset_rpc_infras.Accounts.Attachments.{AttachmentExternals}
use digital_asset_rpc_infras.Accounts.Dispatch.{
  ProgramParseResult, handle_parsed, handle_account_update,
}
use digital_asset_rpc_infras.Accounts.Slots.{SlotsGrow, SlotsGrow-refl, SlotsGrow-trans}
use digital_asset_rpc_infras.Accounts.Slots.Forward.{IsForward, IsForward-pure, IsForward-raise}
use digital_asset_rpc_infras.Accounts.Slots.Handlers.{
  token_program-IsForward, token_extensions-IsForward, token_inscription-IsForward,
}
use digital_asset_rpc_infras.Accounts.Slots.Metadata.{token_metadata-IsForward}
use digital_asset_rpc_infras.Accounts.Slots.Core.{mpl_core-IsForward}

module _ (x : Externals) (c : AttachmentExternals) (to_snake_case : String → String) where
  handle_parsed-IsForward :
      (info : AccountInfo) (p : ProgramParseResult)
      → IsForward (handle_parsed x c to_snake_case info p)
  unfolding handle_parsed
  handle_parsed-IsForward info (ProgramParseResult.token_metadata p) =
      token_metadata-IsForward x c info p
  handle_parsed-IsForward info (ProgramParseResult.token_program_entity p) =
      token_program-IsForward info p
  handle_parsed-IsForward info (ProgramParseResult.token_extensions_program_entity p) =
      token_extensions-IsForward x.notifier info p
  handle_parsed-IsForward info (ProgramParseResult.mpl_core p) =
      mpl_core-IsForward x to_snake_case info p
  handle_parsed-IsForward info (ProgramParseResult.token_inscription_account p) =
      token_inscription-IsForward c info p
  handle_parsed-IsForward info (ProgramParseResult.bubblegum i) = IsForward-raise _
  handle_parsed-IsForward info ProgramParseResult.unknown = IsForward-raise _

  update-IsForward :
      (info : AccountInfo) (p : Option (Result ProgramParseResult))
      → IsForward (handle_account_update x c to_snake_case info p)
  unfolding handle_account_update
  update-IsForward info none = IsForward-pure tt
  update-IsForward info (some (ok p)) = handle_parsed-IsForward info p
  update-IsForward info (some (err e)) = IsForward-raise e

  -- Account updates in sequence, whatever the result of each.
  abbrev pub update_all :
      List (AccountInfo × Option (Result ProgramParseResult)) → Session → Session
  update_all [] s = s
  update_all ((info, p) ∷ us) s = update_all us (handle_account_update x c to_snake_case info p s).1

  -- Whatever account updates are handled, and whatever fails in them, the slots of the token account,
  -- the mint and the metadata account in a row of `asset`, and the slots of the rows of `tokens`,
  -- `token_accounts`, `asset_v1_account_attachments` and `asset_data`, have not moved back;
  -- `slot_updated` of `asset`, which guards burns, is not among them.
  pub slots_forward :
      (us : List (AccountInfo × Option (Result ProgramParseResult))) (s : Session)
      → SlotsGrow s.db (update_all us s).db
  slots_forward [] s = SlotsGrow-refl s.db
  slots_forward ((info, p) ∷ us) s =
      SlotsGrow-trans _ _ _ ((update-IsForward info p).step s)
        (slots_forward us (handle_account_update x c to_snake_case info p s).1)
