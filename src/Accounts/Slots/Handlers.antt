-- ===== src/Accounts/Slots/Handlers.antt =====
-- The handlers of token accounts, mints and inscriptions move no slot back, whatever fails.
use digital_asset_rpc_infras.Base.{String, Option, none, some}
use digital_asset_rpc_infras.Db.Json.{JsonValue}
use digital_asset_rpc_infras.Db.Tokens.{Pubkey}
use digital_asset_rpc_infras.Db.Session.{DownloadMetadataInfo}
use digital_asset_rpc_infras.Db.Session.Monotone.{Moves-notify}
use digital_asset_rpc_infras.Accounts.Token.{
  AccountInfo, SplAccount, TokenProgramEntity, update_owner, handle_token_program_account,
}
use digital_asset_rpc_infras.Accounts.Extensions.{
  ShadowMetadata, TokenExtensionsProgramEntity, upsert_shadow_data, notify_some, index_shadow_data,
  handle_token_extensions_program_account,
}
use digital_asset_rpc_infras.Accounts.Attachments.{
  AttachmentExternals, InscriptionData, handle_token_inscription_program_update, upsert_inscription,
}
use digital_asset_rpc_infras.Accounts.Slots.{SlotsGrow, SlotsGrow-refl, SlotsGrow-trans}
use digital_asset_rpc_infras.Accounts.Slots.Writes.{
  write_token_accounts-SlotsGrow, write_tokens-SlotsGrow,
}
use digital_asset_rpc_infras.Accounts.Slots.Statements.{
  write_extended_account-SlotsGrow, write_extended_token-SlotsGrow, write_inscription-SlotsGrow,
  write_shadow_data-SlotsGrow, write_metadata_slot-SlotsGrow,
}
use digital_asset_rpc_infras.Accounts.Slots.Forward.{
  IsForward, IsForward-pure, IsForward-raise, IsForward-query, IsForward-transaction, IsForward-if,
  IsForward-bind, IsForward-assets, IsForward-tokens, owner_columns-IsForward,
  mint_columns-IsForward,
}

update_owner-IsForward : (info : AccountInfo) (ta : SplAccount) → IsForward (update_owner info ta)
unfolding update_owner
update_owner-IsForward info ta = IsForward-bind (IsForward-query _ _) (λ token.
    IsForward-if _ (IsForward-transaction (owner_columns-IsForward _ _)) (IsForward-pure tt))

pub token_program-IsForward :
    (info : AccountInfo) (p : TokenProgramEntity) → IsForward (handle_token_program_account info p)
unfolding handle_token_program_account
token_program-IsForward info (TokenProgramEntity.token_account ta) =
    IsForward-bind (IsForward-tokens _ _ (write_token_accounts-SlotsGrow _ _))
      (λ _. update_owner-IsForward info ta)
token_program-IsForward info (TokenProgramEntity.mint m) =
    IsForward-bind (IsForward-tokens _ _ (write_tokens-SlotsGrow _ _))
      (λ _. IsForward-transaction (mint_columns-IsForward _ _))
token_program-IsForward info (TokenProgramEntity.close_ix k) = IsForward-raise _

pub notify_some-IsForward :
    (n : DownloadMetadataInfo → Option String) (o : Option DownloadMetadataInfo)
    → IsForward (notify_some n o)
unfolding notify_some
notify_some-IsForward n none = IsForward-pure tt
notify_some-IsForward n (some i) = Moves-notify SlotsGrow SlotsGrow-refl SlotsGrow-trans n i

index_shadow_data-IsForward :
    (n : DownloadMetadataInfo → Option String) (info : AccountInfo) (o : Option ShadowMetadata)
    → IsForward (index_shadow_data n info o)
unfolding index_shadow_data upsert_shadow_data
index_shadow_data-IsForward n info none = IsForward-pure tt
index_shadow_data-IsForward n info (some m) =
    IsForward-bind
      (IsForward-bind (IsForward-assets _ _ (write_shadow_data-SlotsGrow _ _ _)) (λ _.
        IsForward-bind
          (IsForward-transaction (IsForward-assets _ _ (write_metadata_slot-SlotsGrow _ _)))
          (λ _. IsForward-pure _)))
      (λ o. notify_some-IsForward n o)

pub token_extensions-IsForward :
    (n : DownloadMetadataInfo → Option String) (info : AccountInfo)
    (p : TokenExtensionsProgramEntity)
    → IsForward (handle_token_extensions_program_account n info p)
unfolding handle_token_extensions_program_account
token_extensions-IsForward n info (TokenExtensionsProgramEntity.token_account ta e) =
    IsForward-bind (IsForward-tokens _ _ (write_extended_account-SlotsGrow _ _))
      (λ _. update_owner-IsForward info ta)
token_extensions-IsForward n info (TokenExtensionsProgramEntity.mint_account m e) =
    IsForward-bind (IsForward-tokens _ _ (write_extended_token-SlotsGrow _ _)) (λ _.
      IsForward-bind (IsForward-transaction (mint_columns-IsForward _ _))
        (λ _. index_shadow_data-IsForward n info e.metadata))
token_extensions-IsForward n info (TokenExtensionsProgramEntity.close_ix k) = IsForward-raise _

upsert_inscription-IsForward :
    (c : AttachmentExternals) (info : AccountInfo) (value : JsonValue) (o : Option Pubkey)
    → IsForward (upsert_inscription c info value o)
unfolding upsert_inscription
upsert_inscription-IsForward c info value none = IsForward-raise _
upsert_inscription-IsForward c info value (some asset) =
    IsForward-tokens _ _ (write_inscription-SlotsGrow _ _ _ _)

pub token_inscription-IsForward :
    (c : AttachmentExternals) (info : AccountInfo) (i : InscriptionData)
    → IsForward (handle_token_inscription_program_update c info i)
unfolding handle_token_inscription_program_update
token_inscription-IsForward c info i = upsert_inscription-IsForward c info i.value _
