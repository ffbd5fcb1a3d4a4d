-- ===== src/Bubblegum/Metadata.antt =====
-- The handlers that write metadata: mint.rs and update_metadata.rs of
-- program_transformers/src/bubblegum. Both return the download that the caller hands on.
pub mod Makes
use digital_asset_rpc_infras.Base.{
  ℕ, Bool, true, false, Option, none, some, List, String, if◌then◌else◌, unwrap_or,
}
use digital_asset_rpc_infras.Base.Int.{ℤ, as_i64}
use digital_asset_rpc_infras.Base.Text.{remove_nul, is_empty}
use digital_asset_rpc_infras.Db.Json.{JsonValue}
use digital_asset_rpc_infras.Db.Schema.{
  Pubkey, OwnerType, RoyaltyTargetType, SpecificationVersions, SpecificationAssetClass,
  ChainMutability, Mutability,
}
use digital_asset_rpc_infras.Db.Session.{
  Exec, transaction, pure, DownloadMetadataInfo, new_download, ◌>>=◌, ◌>>◌,
}
use digital_asset_rpc_infras.Bubblegum.Event.{
  ChangeLogEventV1, LeafSchemaEvent, TokenStandard, MetadataArgs, UpdateArgs, Payload,
  BubblegumInstruction, InstructionBundle, ChainDataV1, sanitize, Externals, chain_data_value,
  NormalizedLeafFields, normalize, delegate_of,
}
use digital_asset_rpc_infras.Bubblegum.ChangeLog.{save_changelog_event}
use digital_asset_rpc_infras.Bubblegum.Writes.{BaseInfo}
use digital_asset_rpc_infras.Bubblegum.Upserts.{
  upsert_asset_with_leaf_info, upsert_asset_with_owner_and_delegate_info,
  upsert_asset_with_compression_info, upsert_asset_with_seq, upsert_asset_base_info,
  upsert_collection_info, upsert_asset_data, upsert_asset_creators, upsert_asset_authority,
}
use digital_asset_rpc_infras.Bubblegum.Handlers.{leaf_info, not_parsed}

unfoldable pub base_info : ℕ → ℤ → ℤ → BaseInfo
base_info seller_fee_basis_points slot seq = record {
  owner_type = OwnerType.single;
  specification_version = SpecificationVersions.v1;
  specification_asset_class = SpecificationAssetClass.nft;
  royalty_target_type = RoyaltyTargetType.creators;
  royalty_target = none;
  royalty_amount = seller_fee_basis_points;
  slot_updated = slot;
  seq = seq;
}

unfoldable pub chain_mutability : Bool → ChainMutability
chain_mutability true = ChainMutability.mutable
chain_mutability false = ChainMutability.immutable

-- `uses` goes through `bgum_use_method_to_token_metadata_use_method`, which keeps each method.
unfoldable pub chain_data : String → String → Bool → MetadataArgs → ChainDataV1
chain_data name symbol primary_sale_happened m = sanitize (record {
  name = name;
  symbol = symbol;
  edition_nonce = m.edition_nonce;
  primary_sale_happened = primary_sale_happened;
  token_standard = some TokenStandard.non_fungible;
  uses = m.uses;
})

-- Nothing is downloaded from an empty URI.
unfoldable pub download_of : ℕ → String → Option DownloadMetadataInfo
download_of id uri = if is_empty uri then none else some (new_download id uri)

module _ (x : Externals) (bundle : InstructionBundle) (instruction : String) where
  unfoldable pub mint_leaf :
      LeafSchemaEvent → ChangeLogEventV1 → Payload → Exec (Option DownloadMetadataInfo)
  mint_leaf le cl (Payload.mint args authority tree_id) = do
    seq ← save_changelog_event x cl bundle.slot bundle.txn_id instruction
    let leaf = normalize le.schema
    let slot = as_i64 bundle.slot
    let uri = remove_nul args.uri
    let data' = chain_data args.name args.symbol args.primary_sale_happened args
    transaction do
      upsert_asset_data leaf.id (chain_mutability args.is_mutable) (chain_data_value x data') uri
          Mutability.mutable (JsonValue.string "processing") slot (some true) args.name args.symbol
          (as_i64 seq)
      upsert_asset_base_info leaf.id (base_info args.seller_fee_basis_points slot (as_i64 seq))
      upsert_asset_with_compression_info leaf.id true false 1 none
      upsert_asset_with_leaf_info x leaf.id
          (leaf_info (as_i64 leaf.nonce) tree_id le.leaf_hash leaf (as_i64 seq))
      upsert_asset_with_owner_and_delegate_info leaf.id leaf.owner
          (delegate_of leaf.owner leaf.delegate) (as_i64 seq)
      upsert_asset_with_seq leaf.id (as_i64 seq)
      upsert_asset_creators leaf.id args.creators slot (as_i64 seq)
      upsert_asset_authority leaf.id authority (as_i64 seq) slot
      upsert_collection_info x leaf.id args.collection slot (as_i64 seq)
    pure (download_of leaf.id uri)
  mint_leaf le cl _ = not_parsed

  unfoldable pub mint_parts :
      Option LeafSchemaEvent
      → Option ChangeLogEventV1
      → Option Payload
      → Exec (Option DownloadMetadataInfo)
  unfolding mint_leaf
  mint_parts (some le) (some cl) (some payload) = mint_leaf le cl payload
  mint_parts _ _ _ = not_parsed

  -- The authority's sequence number and slot are passed in the order of mint.rs, lines 171 to 177.
  unfoldable pub mint : BubblegumInstruction → Exec (Option DownloadMetadataInfo)
  unfolding mint_parts
  mint ix = mint_parts ix.leaf_update ix.tree_update ix.payload

  update_leaf : LeafSchemaEvent → ChangeLogEventV1 → Payload → Exec (Option DownloadMetadataInfo)
  update_leaf le cl (Payload.update_metadata current args tree_id) = do
    seq ← save_changelog_event x cl bundle.slot bundle.txn_id instruction
    let leaf = normalize le.schema
    let slot = as_i64 bundle.slot
    let uri = remove_nul (unwrap_or args.uri current.uri)
    let name = unwrap_or args.name current.name
    let symbol = unwrap_or args.symbol current.symbol
    let sold = unwrap_or args.primary_sale_happened current.primary_sale_happened
    let data' = chain_data name symbol sold current
    transaction do
      upsert_asset_data leaf.id (chain_mutability (unwrap_or args.is_mutable current.is_mutable))
          (chain_data_value x data') uri Mutability.mutable (JsonValue.string "processing") slot
          (some true) name symbol (as_i64 seq)
      upsert_asset_base_info leaf.id (
          base_info (unwrap_or args.seller_fee_basis_points current.seller_fee_basis_points) slot
            (as_i64 seq))
      upsert_asset_with_leaf_info x leaf.id
          (leaf_info (as_i64 leaf.nonce) tree_id le.leaf_hash leaf (as_i64 seq))
      upsert_asset_with_seq leaf.id (as_i64 seq)
      upsert_asset_creators leaf.id (unwrap_or args.creators current.creators) slot (as_i64 seq)
    pure (download_of leaf.id uri)
  update_leaf le cl _ = not_parsed

  update_parts :
      Option LeafSchemaEvent
      → Option ChangeLogEventV1
      → Option Payload
      → Exec (Option DownloadMetadataInfo)
  unfolding update_leaf
  update_parts (some le) (some cl) (some payload) = update_leaf le cl payload
  update_parts _ _ _ = not_parsed

  pub update_metadata : BubblegumInstruction → Exec (Option DownloadMetadataInfo)
  unfolding update_parts
  update_metadata ix = update_parts ix.leaf_update ix.tree_update ix.payload
