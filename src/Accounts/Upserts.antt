-- ===== src/Accounts/Upserts.antt =====
-- program_transformers/src/asset_upserts.rs: the columns of `asset` that come from a token account,
-- from a mint and from a metadata account, each group guarded by a slot of its own.
use digital_asset_rpc_infras.Base.{ℕ, String, Bool, true, false, Option, none, some, if◌then◌else◌}
use digital_asset_rpc_infras.Base.Int.{ℤ, pos, leb_ℤ, as_i64}
use digital_asset_rpc_infras.Db.Json.{JsonValue}
use digital_asset_rpc_infras.Db.Versioned.{newer}
use digital_asset_rpc_infras.Db.Table.{upsert, nat_key}
use digital_asset_rpc_infras.Db.Schema.{
  Pubkey, OwnerType, RoyaltyTargetType, SpecificationVersions, SpecificationAssetClass, Asset,
  default_asset, AssetTables,
}
use digital_asset_rpc_infras.Db.Trigger.{update_slot_updated}
use digital_asset_rpc_infras.Db.Session.{Error, Exec, execute_assets}

pub record AssetTokenAccountColumns : Type 0 where
  pub mint : Pubkey
  pub owner : Option Pubkey
  pub frozen : Bool
  pub delegate : Option Pubkey
  pub slot_updated_token_account : Option ℤ

pub record AssetMintAccountColumns : Type 0 where
  pub mint : Pubkey
  pub supply : ℕ
  pub slot_updated_mint_account : ℤ
  pub extensions : Option JsonValue

pub record AssetMetadataAccountColumns : Type 0 where
  pub mint : Pubkey
  pub owner_type : OwnerType
  pub specification_asset_class : Option SpecificationAssetClass
  pub royalty_amount : ℕ
  pub asset_data : Option ℕ
  pub slot_updated_metadata_account : ℕ
  pub mpl_core_plugins : Option JsonValue
  pub mpl_core_unknown_plugins : Option JsonValue
  pub mpl_core_collection_num_minted : Option ℤ
  pub mpl_core_collection_current_size : Option ℤ
  pub mpl_core_plugins_json_version : Option ℕ
  pub mpl_core_external_plugins : Option JsonValue
  pub mpl_core_unknown_external_plugins : Option JsonValue

-- `excluded.slot >= slot OR slot IS NULL`, where the new slot may be NULL too.
unfoldable pub not_older : Option ℤ → Option ℤ → Bool
not_older new none = true
not_older none (some old) = false
not_older (some new) (some old) = leb_ℤ old new

unfoldable pub token_account_set : AssetTokenAccountColumns → Asset → Asset
token_account_set c r = record r {
  owner = c.owner;
  frozen = c.frozen;
  delegate = c.delegate;
  slot_updated_token_account = c.slot_updated_token_account;
}

unfoldable pub token_account_update : AssetTokenAccountColumns → Asset → Asset
unfolding token_account_set not_older
token_account_update c r =
    if not_older c.slot_updated_token_account r.slot_updated_token_account
    then update_slot_updated (token_account_set c r)
    else r

-- What a conflict sets; a fresh row gets the class of a fungible token besides.
unfoldable pub mint_account_set : AssetMintAccountColumns → Asset → Asset
mint_account_set c r = record r {
  supply = c.supply;
  slot_updated_mint_account = some c.slot_updated_mint_account;
  mint_extensions = c.extensions;
  slot_updated = some c.slot_updated_mint_account;
  asset_data = some c.mint;
}

unfoldable pub mint_account_new : AssetMintAccountColumns → Asset
unfolding mint_account_set
mint_account_new c = record (mint_account_set c default_asset) {
  supply_mint = some c.mint;
  specification_asset_class = some SpecificationAssetClass.fungible_token;
  owner_type = OwnerType.token;
}

unfoldable pub mint_account_update : AssetMintAccountColumns → Asset → Asset
unfolding mint_account_set
mint_account_update c r =
    if newer c.slot_updated_mint_account r.slot_updated_mint_account
    then update_slot_updated (mint_account_set c r)
    else r

unfoldable pub metadata_account_set : AssetMetadataAccountColumns → Asset → Asset
metadata_account_set c r = record r {
  owner_type = c.owner_type;
  specification_version = some SpecificationVersions.v1;
  specification_asset_class = c.specification_asset_class;
  tree_id = none;
  nonce = some (pos 0);
  seq = some (pos 0);
  leaf = none;
  data_hash = none;
  creator_hash = none;
  compressed = false;
  compressible = false;
  royalty_target_type = RoyaltyTargetType.creators;
  royalty_target = none;
  royalty_amount = c.royalty_amount;
  asset_data = c.asset_data;
  slot_updated_metadata_account = some (as_i64 c.slot_updated_metadata_account);
  burnt = false;
  mpl_core_plugins = c.mpl_core_plugins;
  mpl_core_unknown_plugins = c.mpl_core_unknown_plugins;
  mpl_core_collection_num_minted = c.mpl_core_collection_num_minted;
  mpl_core_collection_current_size = c.mpl_core_collection_current_size;
  mpl_core_plugins_json_version = c.mpl_core_plugins_json_version;
  mpl_core_external_plugins = c.mpl_core_external_plugins;
  mpl_core_unknown_external_plugins = c.mpl_core_unknown_external_plugins;
}

unfoldable pub metadata_account_update : AssetMetadataAccountColumns → Asset → Asset
unfolding metadata_account_set
metadata_account_update c r =
    if newer (as_i64 c.slot_updated_metadata_account) r.slot_updated_metadata_account
    then update_slot_updated (metadata_account_set c r)
    else r

-- The rows of `asset` after each statement.
unfoldable pub write_token_account : AssetTokenAccountColumns → AssetTables → AssetTables
unfolding token_account_set token_account_update
write_token_account c t = record t {
  asset = upsert c.mint (token_account_set c default_asset) (token_account_update c) t.asset;
}

unfoldable pub write_mint_account : AssetMintAccountColumns → AssetTables → AssetTables
unfolding mint_account_new mint_account_update
write_mint_account c t = record t {
  asset = upsert c.mint (mint_account_new c) (mint_account_update c) t.asset;
}

unfoldable pub write_metadata_account : AssetMetadataAccountColumns → AssetTables → AssetTables
unfolding metadata_account_set metadata_account_update
write_metadata_account c t = record t {
  asset = upsert c.mint (metadata_account_set c default_asset) (metadata_account_update c) t.asset;
}

-- The callers differ in the error that a `DbErr` becomes.
unfoldable pub upsert_assets_token_account_columns :
    (String → Error) → AssetTokenAccountColumns → Exec (Unit {0})
unfolding write_token_account
upsert_assets_token_account_columns wrap c = execute_assets wrap (write_token_account c)

unfoldable pub upsert_assets_mint_account_columns :
    (String → Error) → AssetMintAccountColumns → Exec (Unit {0})
unfolding write_mint_account
upsert_assets_mint_account_columns wrap c = execute_assets wrap (write_mint_account c)

unfoldable pub upsert_assets_metadata_account_columns :
    (String → Error) → AssetMetadataAccountColumns → Exec (Unit {0})
unfolding write_metadata_account
upsert_assets_metadata_account_columns wrap c = execute_assets wrap (write_metadata_account c)
