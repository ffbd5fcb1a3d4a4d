-- ===== src/Db/Schema.antt =====
-- The rows of digital_asset_types/src/dao/generated. A 32-byte key or hash is the number that its
-- bytes spell, so `[0; 32]` is 0. The columns `asset.created_at`, `cl_audits_v2.created_at` and the
-- serial `id` columns, which only the database fills, are left out.
use digital_asset_rpc_infras.Base.{ℕ, String, Bool, false, Option, none, List, []}
use digital_asset_rpc_infras.Base.Int.{ℤ}
use digital_asset_rpc_infras.Db.Json.{JsonValue}
use digital_asset_rpc_infras.Db.Table.{Table}
pub use digital_asset_rpc_infras.Db.Tokens.{Pubkey}
use digital_asset_rpc_infras.Db.Tokens.{TokenTables}

pub data OwnerType : Type 0 where
  unknown token single : OwnerType

pub data RoyaltyTargetType : Type 0 where
  unknown creators fanout single : RoyaltyTargetType

pub data SpecificationVersions : Type 0 where
  unknown v0 v1 v2 : SpecificationVersions

pub data SpecificationAssetClass : Type 0 where
  fungible_asset fungible_token identity_nft nft non_transferable_nft : SpecificationAssetClass
  print printable_nft programmable_nft transfer_restricted_nft unknown : SpecificationAssetClass
  mpl_core_asset mpl_core_collection : SpecificationAssetClass

pub data ChainMutability : Type 0 where
  unknown mutable immutable : ChainMutability

pub data Mutability : Type 0 where
  unknown mutable immutable : Mutability

pub record Asset : Type 0 where
  pub alt_id : Option ℕ
  pub specification_version : Option SpecificationVersions
  pub specification_asset_class : Option SpecificationAssetClass
  pub owner : Option Pubkey
  pub owner_type : OwnerType
  pub delegate : Option Pubkey
  pub frozen : Bool
  pub supply : ℕ
  pub supply_mint : Option Pubkey
  pub compressed : Bool
  pub compressible : Bool
  pub seq : Option ℤ
  pub tree_id : Option Pubkey
  pub leaf : Option ℕ
  pub nonce : Option ℤ
  pub royalty_target_type : RoyaltyTargetType
  pub royalty_target : Option Pubkey
  pub royalty_amount : ℕ
  pub asset_data : Option ℕ
  pub burnt : Bool
  pub slot_updated : Option ℤ
  pub slot_updated_metadata_account : Option ℤ
  pub slot_updated_mint_account : Option ℤ
  pub slot_updated_token_account : Option ℤ
  pub slot_updated_cnft_transaction : Option ℤ
  pub data_hash : Option String
  pub creator_hash : Option String
  pub owner_delegate_seq : Option ℤ
  pub leaf_seq : Option ℤ
  pub base_info_seq : Option ℤ
  pub mint_extensions : Option JsonValue
  pub mpl_core_plugins : Option JsonValue
  pub mpl_core_unknown_plugins : Option JsonValue
  pub mpl_core_collection_num_minted : Option ℤ
  pub mpl_core_collection_current_size : Option ℤ
  pub mpl_core_plugins_json_version : Option ℕ
  pub mpl_core_external_plugins : Option JsonValue
  pub mpl_core_unknown_external_plugins : Option JsonValue
  pub collection_hash : Option String
  pub asset_data_hash : Option String
  pub bubblegum_flags : Option ℕ
  pub non_transferable : Option Bool

-- A row of which no column is given: the defaults of init.sql and of the migrations.
abbrev pub default_asset : Asset
default_asset = record {
  alt_id = none;
  specification_version = none;
  specification_asset_class = none;
  owner = none;
  owner_type = OwnerType.single;
  delegate = none;
  frozen = false;
  supply = 1;
  supply_mint = none;
  compressed = false;
  compressible = false;
  seq = none;
  tree_id = none;
  leaf = none;
  nonce = none;
  royalty_target_type = RoyaltyTargetType.creators;
  royalty_target = none;
  royalty_amount = 0;
  asset_data = none;
  burnt = false;
  slot_updated = none;
  slot_updated_metadata_account = none;
  slot_updated_mint_account = none;
  slot_updated_token_account = none;
  slot_updated_cnft_transaction = none;
  data_hash = none;
  creator_hash = none;
  owner_delegate_seq = none;
  leaf_seq = none;
  base_info_seq = none;
  mint_extensions = none;
  mpl_core_plugins = none;
  mpl_core_unknown_plugins = none;
  mpl_core_collection_num_minted = none;
  mpl_core_collection_current_size = none;
  mpl_core_plugins_json_version = none;
  mpl_core_external_plugins = none;
  mpl_core_unknown_external_plugins = none;
  collection_hash = none;
  asset_data_hash = none;
  bubblegum_flags = none;
  non_transferable = none;
}

pub record AssetData : Type 0 where
  pub chain_data_mutability : ChainMutability
  pub chain_data : JsonValue
  pub metadata_url : String
  pub metadata_mutability : Mutability
  pub metadata : JsonValue
  pub slot_updated : ℤ
  pub reindex : Option Bool
  pub raw_name : Option String
  pub raw_symbol : Option String
  pub base_info_seq : Option ℤ

-- `creator` is `none` where the column holds no bytes.
pub record AssetCreator : Type 0 where
  pub creator : Option Pubkey
  pub share : ℕ
  pub verified : Bool
  pub seq : Option ℤ
  pub slot_updated : Option ℤ

pub record AssetGrouping : Type 0 where
  pub group_value : Option String
  pub seq : Option ℤ
  pub slot_updated : Option ℤ
  pub verified : Bool
  pub group_info_seq : Option ℤ

pub record AssetAuthority : Type 0 where
  pub scopes : Option String
  pub authority : Pubkey
  pub seq : ℤ
  pub slot_updated : ℤ

pub record ClItem : Type 0 where
  pub leaf_idx : Option ℤ
  pub seq : ℤ
  pub level : ℕ
  pub hash : ℕ

pub data Instruction : Type 0 where
  burn cancel_redeem compress decompress_v1 delegate mint_to_collection_v1 mint_v1 : Instruction
  redeem set_and_verify_collection transfer unknown unverify_collection : Instruction
  unverify_creator verify_collection verify_creator update_metadata : Instruction
  burn_v2 delegate_v2 delegate_and_freeze_v2 freeze_v2 mint_v2 set_collection_v2 : Instruction
  set_non_transferable_v2 thaw_v2 thaw_and_revoke_v2 transfer_v2 unverify_creator_v2 : Instruction
  verify_creator_v2 update_metadata_v2 update_asset_data_v2 : Instruction

pub record ClAudit : Type 0 where
  pub tx : List ℕ
  pub instruction : Instruction

pub record BackfillItem : Type 0 where
  pub tree : Pubkey
  pub seq : ℤ
  pub slot : ℤ
  pub force_chk : Bool
  pub backfilled : Bool
  pub failed : Bool
  pub locked : Bool

-- The tables that hold assets. `asset_creators` is keyed by asset and position, `asset_grouping` by
-- asset and group key.
pub record AssetTables : Type 0 where
  pub asset : Table ℕ Asset
  pub asset_data : Table ℕ AssetData
  pub asset_creators : Table (ℕ × ℤ) AssetCreator
  pub asset_grouping : Table (ℕ × String) AssetGrouping
  pub asset_authority : Table ℕ AssetAuthority

-- The tables of the re-built Merkle trees. `cl_items` is keyed by tree and node, `cl_audits_v2` by
-- tree, leaf and sequence number.
pub record TreeTables : Type 0 where
  pub cl_items : Table (Pubkey × ℕ) ClItem
  pub cl_audits_v2 : Table (Pubkey × (ℕ × ℤ)) ClAudit
  pub backfill_items : List BackfillItem

pub record Db : Type 0 where
  pub assets : AssetTables
  pub trees : TreeTables
  pub accounts : TokenTables

abbrev pub empty_db : Db
empty_db = record {
  assets = record {
    asset = [];
    asset_data = [];
    asset_creators = [];
    asset_grouping = [];
    asset_authority = [];
  };
  trees = record { cl_items = []; cl_audits_v2 = []; backfill_items = [] };
  accounts = record { tokens = []; token_accounts = []; asset_v1_account_attachments = [] };
}
