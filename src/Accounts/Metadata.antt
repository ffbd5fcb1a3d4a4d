-- ===== src/Accounts/Metadata.antt =====
-- program_transformers/src/token_metadata: v1_asset.rs, and the dispatch of mod.rs.
pub mod Class
pub mod Statements
pub mod Rows
pub mod Whole
pub mod Holder
use digital_asset_rpc_infras.Base.{
  ℕ, Bool, true, false, Option, none, some, List, [], ◌∷◌, String, if◌then◌else◌, ◌==◌, ◌&&◌,
  unwrap_or, map_option,
}
use digital_asset_rpc_infras.Base.Int.{ℤ, pos, ltb_ℤ, as_i64}
use digital_asset_rpc_infras.Base.Text.{remove_nul, trim, is_empty}
use digital_asset_rpc_infras.Db.Table.{Table, find, upsert, nat_key}
use digital_asset_rpc_infras.Db.Tokens.{Pubkey, Token, TokenAccount}
use digital_asset_rpc_infras.Db.Schema.{
  Db, OwnerType, SpecificationAssetClass, Asset, default_asset, AssetTables,
}
use digital_asset_rpc_infras.Db.Session.{
  Exec, DownloadMetadataInfo, new_download, storage_write_error, asset_index_error, database_error,
  not_implemented, execute_assets, execute_tokens, transaction, pure, raise, ◌>>=◌, ◌>>◌,
}
use digital_asset_rpc_infras.Bubblegum.Event.{Externals, Creator, Collection}
use digital_asset_rpc_infras.Accounts.Upserts.{
  AssetTokenAccountColumns, AssetMintAccountColumns, AssetMetadataAccountColumns,
  upsert_assets_token_account_columns, upsert_assets_mint_account_columns,
  upsert_assets_metadata_account_columns,
}
use digital_asset_rpc_infras.Accounts.Retry.{find_model_with_retry}
use digital_asset_rpc_infras.Accounts.Token.{AccountInfo}
use digital_asset_rpc_infras.Accounts.Extensions.{notify_some}
use digital_asset_rpc_infras.Accounts.Attachments.{
  MasterEdition, DeprecatedMasterEditionV1, Edition, AttachmentExternals, save_v1_master_edition,
  save_v2_master_edition, save_edition, insert_attachment, upsert_asset_v1_account_attachments,
}
use digital_asset_rpc_infras.Accounts.Metadata.Class.{
  class_of, owner_type_of, searches_owner, is_non_fungible_standard,
}
use digital_asset_rpc_infras.Accounts.Metadata.Statements.{
  Metadata, write_burn, data_row, write_data, write_authority, write_collection, write_creators,
}

-- blockbuster/src/programs/token_metadata/mod.rs, with the contents that a handler reads.
pub data TokenMetadataAccountData : Type 0 where
  edition_v1 : Edition → TokenMetadataAccountData
  master_edition_v1 : DeprecatedMasterEditionV1 → TokenMetadataAccountData
  metadata_v1 : Metadata → TokenMetadataAccountData
  master_edition_v2 : MasterEdition → TokenMetadataAccountData
  edition_marker use_authority_record collection_authority_record : TokenMetadataAccountData
  empty_account : TokenMetadataAccountData

unfoldable pub burn_v1_asset : Pubkey → ℕ → Exec (Unit {0})
unfolding write_burn
burn_v1_asset id slot = execute_assets storage_write_error (write_burn id (as_i64 slot))

abbrev pub retry_intervals : List ℕ
retry_intervals = 0 ∷ 5 ∷ 10 ∷ []

unfoldable pub upsert_found_mint : Pubkey → Option Token → Exec (Option Token)
unfolding upsert_assets_mint_account_columns
upsert_found_mint mint none = pure none
upsert_found_mint mint (some token) = do
  upsert_assets_mint_account_columns asset_index_error (record {
    mint = mint;
    supply = token.supply;
    slot_updated_mint_account = token.slot_updated;
    extensions = token.extensions;
  })
  pure (some token)

unfoldable pub index_and_fetch_mint_data : Pubkey → Exec (Option Token)
unfolding upsert_found_mint
index_and_fetch_mint_data mint = do
  token ←
      find_model_with_retry storage_write_error (λ (d : Db). find mint d.accounts.tokens)
        retry_intervals
  upsert_found_mint mint token

-- Of the rows with a mint and an amount above 0, one with the greatest slot: of equal ones, the
-- first.
unfoldable pub holds : Pubkey → TokenAccount → Bool
holds mint r = r.mint == mint && ltb_ℤ (pos 0) r.amount

unfoldable pub later_account : TokenAccount → Option TokenAccount → TokenAccount
later_account r none = r
later_account r (some best) = if ltb_ℤ r.slot_updated best.slot_updated then best else r

unfoldable pub newest_holder : Pubkey → Table Pubkey TokenAccount → Option TokenAccount
unfolding holds later_account
newest_holder mint [] = none
newest_holder mint ((k, r) ∷ t) =
    let best = newest_holder mint t in if holds mint r then some (later_account r best) else best

unfoldable pub upsert_found_account : Pubkey → Option TokenAccount → Exec (Unit {0})
unfolding upsert_assets_token_account_columns
upsert_found_account mint none = pure tt
upsert_found_account mint (some a) = upsert_assets_token_account_columns asset_index_error (record {
  mint = mint;
  owner = some a.owner;
  frozen = a.frozen;
  delegate = a.delegate;
  slot_updated_token_account = some a.slot_updated;
})

unfoldable pub index_token_account_data : Pubkey → Exec (Unit {0})
unfolding newest_holder upsert_found_account
index_token_account_data mint = do
  token_account ←
      find_model_with_retry database_error
        (λ (d : Db). newest_holder mint d.accounts.token_accounts) retry_intervals
  upsert_found_account mint token_account

-- `if let Some(c) = &metadata.collection { .. }`
unfoldable pub save_collection : Externals → ℕ → ℤ → Option Collection → Exec (Unit {0})
unfolding write_collection
save_collection x id slot none = pure tt
save_collection x id slot (some c) = execute_assets asset_index_error (write_collection x id slot c)

-- `if !creators.is_empty() { .. }`
unfoldable pub save_creators : ℕ → ℤ → List Creator → Exec (Unit {0})
unfolding write_creators
save_creators id slot [] = pure tt
save_creators id slot (c ∷ cs) = execute_assets asset_index_error (write_creators id slot (c ∷ cs))

module _ (x : Externals) (c : AttachmentExternals) where
  -- The columns of `asset` and the statements between `begin` and `commit`.
  unfoldable pub metadata_columns : Metadata → ℕ → ℕ → AssetMetadataAccountColumns
  unfolding class_of owner_type_of
  metadata_columns m supply slot = record {
    mint = m.mint;
    owner_type = owner_type_of m.mint m.token_standard supply;
    specification_asset_class = some (class_of m.mint m.token_standard supply);
    royalty_amount = m.seller_fee_basis_points;
    asset_data = some m.mint;
    slot_updated_metadata_account = slot;
    mpl_core_plugins = none;
    mpl_core_unknown_plugins = none;
    mpl_core_collection_num_minted = none;
    mpl_core_collection_current_size = none;
    mpl_core_plugins_json_version = none;
    mpl_core_external_plugins = none;
    mpl_core_unknown_external_plugins = none;
  }

  unfoldable pub save_metadata : Metadata → String → ℕ → ℕ → Exec (Unit {0})
  unfolding metadata_columns data_row write_data insert_attachment write_authority save_collection
      save_creators upsert_assets_metadata_account_columns
  save_metadata m uri supply slot = do
    execute_assets asset_index_error (write_data m.mint (data_row x m uri (as_i64 slot)))
    upsert_assets_metadata_account_columns storage_write_error (metadata_columns m supply slot)
    execute_tokens asset_index_error (insert_attachment c m.mint (as_i64 slot))
    execute_assets asset_index_error (write_authority m.mint m.update_authority (as_i64 slot))
    save_collection x m.mint (as_i64 slot) m.collection
    save_creators m.mint (as_i64 slot) (unwrap_or m.creators [])

  unfoldable pub save_v1_asset : Metadata → ℕ → Exec (Option DownloadMetadataInfo)
  unfolding index_and_fetch_mint_data index_token_account_data owner_type_of searches_owner
      save_metadata is_non_fungible_standard upsert_asset_v1_account_attachments
  save_v1_asset m slot = do
    let uri = remove_nul (trim m.uri)
    token ← index_and_fetch_mint_data m.mint
    let supply = unwrap_or (map_option (λ (t : Token). t.supply) token) 1
    if searches_owner (owner_type_of m.mint m.token_standard supply)
        then index_token_account_data m.mint
        else pure tt
    transaction (save_metadata m uri supply slot)
    if unwrap_or (map_option is_non_fungible_standard m.token_standard) false
        then upsert_asset_v1_account_attachments c m.mint slot
        else pure tt
    pure (if is_empty uri then none else some (new_download m.mint uri))

  unfoldable pub handle_token_metadata_account :
      AccountInfo → TokenMetadataAccountData → Exec (Unit {0})
  unfolding burn_v1_asset save_v1_asset save_v1_master_edition save_v2_master_edition save_edition
      notify_some
  handle_token_metadata_account info TokenMetadataAccountData.empty_account =
      burn_v1_asset info.pubkey info.slot
  handle_token_metadata_account info (TokenMetadataAccountData.master_edition_v1 m) =
      transaction (save_v1_master_edition c info.pubkey info.slot m)
  handle_token_metadata_account info (TokenMetadataAccountData.metadata_v1 m) = do
    download ← save_v1_asset m info.slot
    notify_some x.notifier download
  handle_token_metadata_account info (TokenMetadataAccountData.master_edition_v2 m) =
      transaction (save_v2_master_edition c info.pubkey info.slot m)
  handle_token_metadata_account info (TokenMetadataAccountData.edition_v1 e) =
      transaction (save_edition c info.pubkey info.slot e)
  handle_token_metadata_account info TokenMetadataAccountData.edition_marker = raise not_implemented
  handle_token_metadata_account info TokenMetadataAccountData.use_authority_record =
      raise not_implemented
  handle_token_metadata_account info TokenMetadataAccountData.collection_authority_record =
      raise not_implemented
