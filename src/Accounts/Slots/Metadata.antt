-- ===== src/Accounts/Slots/Metadata.antt =====
-- The handler of token metadata accounts moves no slot back, whatever fails.
use digital_asset_rpc_infras.Base.{ℕ, String, Option, none, some, List, [], ◌∷◌}
use digital_asset_rpc_infras.Base.Int.{ℤ}
use digital_asset_rpc_infras.Db.Tokens.{Pubkey, Token, TokenAccount}
use digital_asset_rpc_infras.Db.Schema.{Db}
use digital_asset_rpc_infras.Db.Session.{Error, Exec}
use digital_asset_rpc_infras.Bubblegum.Event.{Externals, Creator, Collection}
use digital_asset_rpc_infras.Accounts.Retry.{or_retry, find_model_with_retry}
use digital_asset_rpc_infras.Accounts.Token.{AccountInfo}
use digital_asset_rpc_infras.Accounts.Attachments.{
  AttachmentExternals, save_master_edition, save_v1_master_edition, save_v2_master_edition,
  save_edition, upsert_asset_v1_account_attachments,
}
use digital_asset_rpc_infras.Accounts.Metadata.{
  TokenMetadataAccountData, burn_v1_asset, upsert_found_mint, index_and_fetch_mint_data,
  upsert_found_account, index_token_account_data, save_collection, save_creators, save_metadata,
  save_v1_asset, handle_token_metadata_account,
}
use digital_asset_rpc_infras.Accounts.Metadata.Statements.{Metadata}
use digital_asset_rpc_infras.Accounts.Slots.Statements.{
  write_edition-SlotsGrow, insert_attachment-SlotsGrow, attach_asset-SlotsGrow,
  write_data-SlotsGrow, write_authority-SlotsGrow, write_collection-SlotsGrow,
  write_creators-SlotsGrow, write_burn-SlotsGrow,
}
use digital_asset_rpc_infras.Accounts.Slots.Forward.{
  IsForward, IsForward-pure, IsForward-raise, IsForward-query, IsForward-transaction, IsForward-if,
  IsForward-bind, IsForward-assets, IsForward-tokens, owner_columns-IsForward,
  mint_columns-IsForward, metadata_columns-IsForward,
}
use digital_asset_rpc_infras.Accounts.Slots.Handlers.{notify_some-IsForward}

or_retry-IsForward :
    {A : Type 0} (rest : Exec (Option A)) (o : Option A)
    → IsForward rest
    → IsForward (or_retry rest o)
unfolding or_retry
or_retry-IsForward rest none h = h
or_retry-IsForward rest (some a) h = IsForward-pure _

pub retry-IsForward :
    {A : Type 0} (w : String → Error) (f : Db → Option A) (is : List ℕ)
    → IsForward (find_model_with_retry w f is)
unfolding find_model_with_retry
retry-IsForward w f [] = IsForward-pure none
retry-IsForward w f (i ∷ is) =
    IsForward-bind (IsForward-query w f)
      (λ o. or_retry-IsForward (find_model_with_retry w f is) o (retry-IsForward w f is))

upsert_found_mint-IsForward :
    (mint : Pubkey) (o : Option Token) → IsForward (upsert_found_mint mint o)
unfolding upsert_found_mint
upsert_found_mint-IsForward mint none = IsForward-pure none
upsert_found_mint-IsForward mint (some t) =
    IsForward-bind (mint_columns-IsForward _ _) (λ _. IsForward-pure _)

fetch_mint-IsForward : (mint : Pubkey) → IsForward (index_and_fetch_mint_data mint)
unfolding index_and_fetch_mint_data
fetch_mint-IsForward mint =
    IsForward-bind (retry-IsForward _ _ _) (λ o. upsert_found_mint-IsForward mint o)

upsert_found_account-IsForward :
    (mint : Pubkey) (o : Option TokenAccount) → IsForward (upsert_found_account mint o)
unfolding upsert_found_account
upsert_found_account-IsForward mint none = IsForward-pure tt
upsert_found_account-IsForward mint (some a) = owner_columns-IsForward _ _

index_owner-IsForward : (mint : Pubkey) → IsForward (index_token_account_data mint)
unfolding index_token_account_data
index_owner-IsForward mint =
    IsForward-bind (retry-IsForward _ _ _) (λ o. upsert_found_account-IsForward mint o)

save_collection-IsForward :
    (x : Externals) (id : ℕ) (slot : ℤ) (o : Option Collection)
    → IsForward (save_collection x id slot o)
unfolding save_collection
save_collection-IsForward x id slot none = IsForward-pure tt
save_collection-IsForward x id slot (some c) =
    IsForward-assets _ _ (write_collection-SlotsGrow x id slot c)

pub save_creators-IsForward :
    (id : ℕ) (slot : ℤ) (cs : List Creator) → IsForward (save_creators id slot cs)
unfolding save_creators
save_creators-IsForward id slot [] = IsForward-pure tt
save_creators-IsForward id slot (c ∷ cs) =
    IsForward-assets _ _ (write_creators-SlotsGrow id slot (c ∷ cs))

module _ (x : Externals) (c : AttachmentExternals) where
  save_metadata-IsForward :
      (m : Metadata) (uri : String) (supply slot : ℕ)
      → IsForward (save_metadata x c m uri supply slot)
  unfolding save_metadata
  save_metadata-IsForward m uri supply slot =
      IsForward-bind (IsForward-assets _ _ (write_data-SlotsGrow _ _)) (λ _.
        IsForward-bind (metadata_columns-IsForward _ _) (λ _.
          IsForward-bind (IsForward-tokens _ _ (insert_attachment-SlotsGrow c _ _)) (λ _.
            IsForward-bind (IsForward-assets _ _ (write_authority-SlotsGrow _ _ _)) (λ _.
              IsForward-bind (save_collection-IsForward x _ _ m.collection)
                (λ _. save_creators-IsForward _ _ _)))))

  save_v1_asset-IsForward : (m : Metadata) (slot : ℕ) → IsForward (save_v1_asset x c m slot)
  unfolding save_v1_asset upsert_asset_v1_account_attachments
  save_v1_asset-IsForward m slot = IsForward-bind (fetch_mint-IsForward m.mint) (λ token.
      IsForward-bind (IsForward-if _ (index_owner-IsForward m.mint) (IsForward-pure tt)) (λ _.
        IsForward-bind (IsForward-transaction (save_metadata-IsForward m _ _ slot)) (λ _.
          IsForward-bind
            (IsForward-if _ (IsForward-tokens _ _ (attach_asset-SlotsGrow c _ _))
              (IsForward-pure tt))
            (λ _. IsForward-pure _))))

  pub token_metadata-IsForward :
      (info : AccountInfo) (p : TokenMetadataAccountData)
      → IsForward (handle_token_metadata_account x c info p)
  unfolding handle_token_metadata_account burn_v1_asset save_v1_master_edition
      save_v2_master_edition save_master_edition save_edition
  token_metadata-IsForward info TokenMetadataAccountData.empty_account =
      IsForward-assets _ _ (write_burn-SlotsGrow _ _)
  token_metadata-IsForward info (TokenMetadataAccountData.master_edition_v1 m) =
      IsForward-transaction (IsForward-tokens _ _ (write_edition-SlotsGrow _ _ _ _))
  token_metadata-IsForward info (TokenMetadataAccountData.metadata_v1 m) =
      IsForward-bind (save_v1_asset-IsForward m info.slot) (λ o. notify_some-IsForward x.notifier o)
  token_metadata-IsForward info (TokenMetadataAccountData.master_edition_v2 m) =
      IsForward-transaction (IsForward-tokens _ _ (write_edition-SlotsGrow _ _ _ _))
  token_metadata-IsForward info (TokenMetadataAccountData.edition_v1 e) =
      IsForward-transaction (IsForward-tokens _ _ (write_edition-SlotsGrow _ _ _ _))
  token_metadata-IsForward info TokenMetadataAccountData.edition_marker = IsForward-raise _
  token_metadata-IsForward info TokenMetadataAccountData.use_authority_record = IsForward-raise _
  token_metadata-IsForward info TokenMetadataAccountData.collection_authority_record =
      IsForward-raise _
