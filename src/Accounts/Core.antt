-- ===== src/Accounts/Core.antt =====
-- program_transformers/src/mpl_core_program: v1_asset.rs, and the dispatch of mod.rs.
pub mod Plugins
pub mod Columns
pub mod Members
use digital_asset_rpc_infras.Base.{ℕ, Option, none, some, [], String, if◌then◌else◌, map_option}
use digital_asset_rpc_infras.Base.Int.{as_i64, as_i32}
use digital_asset_rpc_infras.Base.Text.{remove_nul, trim, is_empty}
use digital_asset_rpc_infras.Db.Schema.{Pubkey, OwnerType, SpecificationAssetClass, Db}
use digital_asset_rpc_infras.Db.Session.{
  Exec, DownloadMetadataInfo, new_download, storage_write_error, asset_index_error, not_implemented,
  execute_assets, transaction_beside, pure, raise, ◌>>=◌, ◌>>◌,
}
use digital_asset_rpc_infras.Bubblegum.Event.{Externals}
use digital_asset_rpc_infras.Accounts.Upserts.{
  AssetMetadataAccountColumns, upsert_assets_token_account_columns,
  upsert_assets_mint_account_columns, upsert_assets_metadata_account_columns,
}
use digital_asset_rpc_infras.Accounts.Token.{AccountInfo}
use digital_asset_rpc_infras.Accounts.Extensions.{notify_some}
use digital_asset_rpc_infras.Accounts.Metadata.{burn_v1_asset, save_creators}
use digital_asset_rpc_infras.Accounts.Metadata.Statements.{write_data, write_authority}
use digital_asset_rpc_infras.Accounts.Core.Members.{update_group_asset_authorities}
use digital_asset_rpc_infras.Accounts.Core.Columns.{
  IndexableAsset, MplCoreAccountData, resolve_authority, core_data, royalties_of, transfer_delegate,
  frozen_of, core_creators, save_core_group, known_plugins, unknown_plugins_column,
}

module _ (x : Externals) (to_snake_case : String → String) where
  unfoldable pub core_columns :
      Pubkey → IndexableAsset → SpecificationAssetClass → ℕ → AssetMetadataAccountColumns
  unfolding royalties_of known_plugins unknown_plugins_column
  core_columns id a class slot = record {
    mint = id;
    owner_type = OwnerType.single;
    specification_asset_class = some class;
    royalty_amount = (royalties_of a.royalties_plugin).0;
    asset_data = some id;
    slot_updated_metadata_account = slot;
    mpl_core_plugins = some (known_plugins to_snake_case "data" a.plugins);
    mpl_core_unknown_plugins = unknown_plugins_column to_snake_case a.unknown_plugins;
    mpl_core_collection_num_minted = map_option as_i32 a.num_minted;
    mpl_core_collection_current_size = map_option as_i32 a.current_size;
    mpl_core_plugins_json_version = some 1;
    mpl_core_external_plugins =
        some (known_plugins to_snake_case "adapter_config" a.external_plugins);
    mpl_core_unknown_external_plugins =
        unknown_plugins_column to_snake_case a.unknown_external_plugins;
  }

  -- The statements after those on authorities.
  unfoldable pub save_core :
      Pubkey
      → IndexableAsset
      → SpecificationAssetClass
      → Option Pubkey
      → Pubkey
      → String
      → ℕ
      → Exec (Unit {0})
  unfolding core_data write_data core_columns transfer_delegate frozen_of save_core_group
      core_creators save_creators upsert_assets_metadata_account_columns
      upsert_assets_mint_account_columns upsert_assets_token_account_columns
  save_core id a class owned authority uri slot = do
    execute_assets asset_index_error (write_data id (core_data x a uri (as_i64 slot)))
    upsert_assets_metadata_account_columns storage_write_error (core_columns id a class slot)
    upsert_assets_mint_account_columns storage_write_error (record {
      mint = id;
      supply = 1;
      slot_updated_mint_account = as_i64 slot;
      extensions = none;
    })
    upsert_assets_token_account_columns storage_write_error (record {
      mint = id;
      owner = owned;
      frozen = frozen_of a.freeze_delegate_plugin;
      delegate = transfer_delegate a.transfer_delegate_plugin owned authority;
      slot_updated_token_account = some (as_i64 slot);
    })
    save_core_group x id (as_i64 slot) a.update_authority
    save_creators id (as_i64 slot) (core_creators (royalties_of a.royalties_plugin).1)

  -- The owner and the class come with the kind of account; `beside` updates the members.
  unfoldable pub save_indexable :
      Pubkey
      → IndexableAsset
      → SpecificationAssetClass
      → (Pubkey → Option Pubkey)
      → (Pubkey → Exec (Unit {0}))
      → ℕ
      → Exec (Option DownloadMetadataInfo)
  unfolding resolve_authority write_authority save_core
  save_indexable id a class owner_by beside slot = do
    authority ← resolve_authority a.update_authority
    let uri = remove_nul (trim a.uri)
    transaction_beside asset_index_error
        (λ (d : Db). record d { assets = write_authority id authority (as_i64 slot) d.assets })
        (beside authority) (save_core id a class (owner_by authority) authority uri slot)
    pure (if is_empty uri then none else some (new_download id uri))

  unfoldable pub save_core_asset :
      Pubkey → MplCoreAccountData → ℕ → Exec (Option DownloadMetadataInfo)
  unfolding save_indexable update_group_asset_authorities
  save_core_asset id (MplCoreAccountData.asset a) slot =
      save_indexable id a SpecificationAssetClass.mpl_core_asset (λ _. a.owner) (λ _. pure tt) slot
  save_core_asset id (MplCoreAccountData.collection a) slot =
      save_indexable id a SpecificationAssetClass.mpl_core_collection (λ authority. some authority)
        (λ authority. update_group_asset_authorities (x.bs58_encode id) authority (as_i64 slot))
        slot
  save_core_asset id MplCoreAccountData.hashed_asset slot = raise not_implemented
  save_core_asset id MplCoreAccountData.empty_account slot = raise not_implemented

  unfoldable pub handle_mpl_core_account : AccountInfo → MplCoreAccountData → Exec (Unit {0})
  unfolding burn_v1_asset save_core_asset notify_some
  handle_mpl_core_account info MplCoreAccountData.empty_account =
      burn_v1_asset info.pubkey info.slot
  handle_mpl_core_account info (MplCoreAccountData.asset a) = do
    download ← save_core_asset info.pubkey (MplCoreAccountData.asset a) info.slot
    notify_some x.notifier download
  handle_mpl_core_account info (MplCoreAccountData.collection a) = do
    download ← save_core_asset info.pubkey (MplCoreAccountData.collection a) info.slot
    notify_some x.notifier download
  handle_mpl_core_account info MplCoreAccountData.hashed_asset = raise not_implemented
