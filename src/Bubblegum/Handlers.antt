-- ===== src/Bubblegum/Handlers.antt =====
-- The handlers of program_transformers/src/bubblegum that rewrite a leaf: transfer.rs, delegate.rs,
-- burn.rs, redeem.rs, cancel_redeem.rs, creator_verification.rs and collection_verification.rs. Each
-- saves the change log, and then writes the asset tables in one transaction.
pub mod Saved
pub mod Makes
pub mod Verifies
use digital_asset_rpc_infras.Base.{
  ℕ, Bool, true, false, Option, none, some, List, [], ◌∷◌, String, map, ◌==◌, if◌then◌else◌,
  unwrap_or,
}
use digital_asset_rpc_infras.Base.Int.{ℤ, pos, as_i64}
use digital_asset_rpc_infras.Base.Text.{remove_nul, is_empty}
use digital_asset_rpc_infras.Db.Json.{JsonValue}
use digital_asset_rpc_infras.Db.Schema.{
  Pubkey, OwnerType, RoyaltyTargetType, SpecificationVersions, SpecificationAssetClass,
  ChainMutability, Mutability,
}
use digital_asset_rpc_infras.Db.Session.{
  Exec, parsing_error, storage_write_error, execute_assets, transaction, raise, pure, notify,
  DownloadMetadataInfo, new_download, ◌>>=◌, ◌>>◌,
}
use digital_asset_rpc_infras.Bubblegum.Event.{
  ChangeLogEventV1, LeafSchema, LeafSchemaEvent, TokenStandard, Creator, Collection, MetadataArgs,
  UpdateArgs, Payload, InstructionName, BubblegumInstruction, InstructionBundle, ChainDataV1,
  sanitize, Externals, chain_data_value, NormalizedLeafFields, normalize, delegate_of,
  u32_to_u8_array,
}
use digital_asset_rpc_infras.Bubblegum.Instruction.{ix_str}
use digital_asset_rpc_infras.Bubblegum.ChangeLog.{save_changelog_event}
use digital_asset_rpc_infras.Bubblegum.Writes.{LeafInfo, BaseInfo, burn_write, upsert_asset}
use digital_asset_rpc_infras.Bubblegum.Upserts.{
  upsert_asset_with_leaf_info, upsert_asset_with_owner_and_delegate_info,
  upsert_asset_with_compression_info, upsert_asset_with_seq, upsert_asset_base_info,
  upsert_collection_info, upsert_asset_data, upsert_asset_creators, upsert_asset_authority,
}

unfoldable pub not_parsed : {A : Type 0} → Exec A
not_parsed = raise (parsing_error "Ix not parsed correctly")

-- The leaf columns of a normalized leaf.
unfoldable pub leaf_info : ℤ → Pubkey → ℕ → NormalizedLeafFields → ℤ → LeafInfo
leaf_info nonce tree_id leaf_hash leaf seq = record {
  nonce = nonce;
  tree_id = tree_id;
  leaf = leaf_hash;
  data_hash = leaf.data_hash;
  creator_hash = leaf.creator_hash;
  collection_hash = leaf.collection_hash;
  asset_data_hash = leaf.asset_data_hash;
  flags = leaf.flags;
  seq = seq;
}

-- The leaf of a redeemed asset is blank.
unfoldable pub redeemed_leaf : ChangeLogEventV1 → LeafInfo
redeemed_leaf cl = record {
  nonce = pos cl.index;
  tree_id = cl.id;
  leaf = 0;
  data_hash = 0;
  creator_hash = 0;
  collection_hash = none;
  asset_data_hash = none;
  flags = none;
  seq = as_i64 cl.seq;
}

unfoldable pub set_verified : Pubkey → Bool → Creator → Creator
set_verified creator verify c = if c.address == creator then record c { verified = verify } else c

-- The address of the asset that a change log without a leaf is about.
unfoldable pub asset_address : Externals → ChangeLogEventV1 → ℕ
asset_address x cl = x.find_asset_address cl.id (u32_to_u8_array cl.index)

-- The id of the Bubblegum program stands for no collection.
unfoldable pub collection_set : Externals → Pubkey → Bool → Option Collection
collection_set x collection verify =
    if collection == x.mpl_bubblegum_id
    then none
    else some (record { verified = verify; key = collection })

module _ (x : Externals) (bundle : InstructionBundle) (instruction : String) where
  unfoldable pub save : ChangeLogEventV1 → Exec ℕ
  save cl = save_changelog_event x cl bundle.slot bundle.txn_id instruction

  -- transfer.rs, and delegate.rs with the same statements
  unfoldable pub transfer_leaf : LeafSchemaEvent → ChangeLogEventV1 → Exec (Unit {0})
  unfolding save
  transfer_leaf le cl = do
    seq ← save cl
    let leaf = normalize le.schema
    transaction do
      upsert_asset_with_leaf_info x leaf.id
          (leaf_info (pos cl.index) cl.id le.leaf_hash leaf (as_i64 seq))
      upsert_asset_with_owner_and_delegate_info leaf.id leaf.owner
          (delegate_of leaf.owner leaf.delegate) (as_i64 seq)
      upsert_asset_with_seq leaf.id (as_i64 seq)

  unfoldable pub transfer_parts : Option LeafSchemaEvent → Option ChangeLogEventV1 → Exec (Unit {0})
  unfolding transfer_leaf
  transfer_parts (some le) (some cl) = transfer_leaf le cl
  transfer_parts _ _ = not_parsed

  unfoldable pub transfer : BubblegumInstruction → Exec (Unit {0})
  unfolding transfer_parts
  transfer ix = transfer_parts ix.leaf_update ix.tree_update

  pub delegation_freezing_nontransferability : BubblegumInstruction → Exec (Unit {0})
  unfolding transfer_parts
  delegation_freezing_nontransferability ix = transfer_parts ix.leaf_update ix.tree_update

  burn_parts : Option ChangeLogEventV1 → Exec (Unit {0})
  unfolding save
  burn_parts none = not_parsed
  burn_parts (some cl) = do
    seq ← save cl
    transaction do
      execute_assets storage_write_error (upsert_asset (asset_address x cl) burn_write)
      upsert_asset_with_seq (asset_address x cl) (as_i64 seq)

  pub burn : BubblegumInstruction → Exec (Unit {0})
  unfolding burn_parts
  burn ix = burn_parts ix.tree_update

  redeem_parts : Option ChangeLogEventV1 → Exec (Unit {0})
  unfolding save
  redeem_parts none = not_parsed
  redeem_parts (some cl) = do
    seq ← save cl
    transaction do
      upsert_asset_with_leaf_info x (asset_address x cl) (redeemed_leaf cl)
      upsert_asset_with_seq (asset_address x cl) (as_i64 seq)

  pub redeem : BubblegumInstruction → Exec (Unit {0})
  unfolding redeem_parts
  redeem ix = redeem_parts ix.tree_update

  cancel_redeem_leaf : LeafSchema → ℕ → ChangeLogEventV1 → Exec (Unit {0})
  unfolding transfer_leaf save
  cancel_redeem_leaf (LeafSchema.v1 id owner delegated nonce data_hash creator_hash) leaf_hash cl =
      transfer_leaf
        (record {
          schema = LeafSchema.v1 id owner delegated nonce data_hash creator_hash;
          leaf_hash = leaf_hash;
        })
        cl
  cancel_redeem_leaf (LeafSchema.v2 _ _ _ _ _ _ _ _ _) leaf_hash cl = do
    save cl
    raise (parsing_error "LeafSchema V2 not possible for ix")

  cancel_redeem_parts : Option LeafSchemaEvent → Option ChangeLogEventV1 → Exec (Unit {0})
  unfolding cancel_redeem_leaf
  cancel_redeem_parts (some le) (some cl) = cancel_redeem_leaf le.schema le.leaf_hash cl
  cancel_redeem_parts _ _ = not_parsed

  pub cancel_redeem : BubblegumInstruction → Exec (Unit {0})
  unfolding cancel_redeem_parts
  cancel_redeem ix = cancel_redeem_parts ix.leaf_update ix.tree_update

  creator_leaf : LeafSchemaEvent → ChangeLogEventV1 → Payload → Exec (Unit {0})
  unfolding save
  creator_leaf le cl (Payload.creator_verification metadata creator verify) = do
    seq ← save cl
    let leaf = normalize le.schema
    transaction do
      upsert_asset_with_leaf_info x leaf.id
          (leaf_info (pos cl.index) cl.id le.leaf_hash leaf (as_i64 seq))
      upsert_asset_with_owner_and_delegate_info leaf.id leaf.owner
          (delegate_of leaf.owner leaf.delegate) (as_i64 seq)
      upsert_asset_with_seq leaf.id (as_i64 seq)
      upsert_asset_creators leaf.id (map (set_verified creator verify) metadata.creators)
          (as_i64 bundle.slot) (as_i64 seq)
  creator_leaf le cl _ = not_parsed

  creator_parts :
      Option LeafSchemaEvent → Option ChangeLogEventV1 → Option Payload → Exec (Unit {0})
  unfolding creator_leaf
  creator_parts (some le) (some cl) (some payload) = creator_leaf le cl payload
  creator_parts _ _ _ = not_parsed

  -- `process` of creator_verification.rs
  pub creator_verification : BubblegumInstruction → Exec (Unit {0})
  unfolding creator_parts
  creator_verification ix = creator_parts ix.leaf_update ix.tree_update ix.payload

  collection_leaf : LeafSchemaEvent → ChangeLogEventV1 → Payload → Exec (Unit {0})
  unfolding save
  collection_leaf le cl (Payload.collection_verification collection verify) = do
    seq ← save cl
    let leaf = normalize le.schema
    transaction do
      upsert_asset_with_leaf_info x leaf.id
          (leaf_info (pos cl.index) cl.id le.leaf_hash leaf (as_i64 seq))
      upsert_asset_with_seq leaf.id (as_i64 seq)
      upsert_collection_info x leaf.id (collection_set x collection verify) (as_i64 bundle.slot)
          (as_i64 seq)
  collection_leaf le cl _ = not_parsed

  collection_parts :
      Option LeafSchemaEvent → Option ChangeLogEventV1 → Option Payload → Exec (Unit {0})
  unfolding collection_leaf
  collection_parts (some le) (some cl) (some payload) = collection_leaf le cl payload
  collection_parts _ _ _ = not_parsed

  -- `process` of collection_verification.rs
  pub collection_verification : BubblegumInstruction → Exec (Unit {0})
  unfolding collection_parts
  collection_verification ix = collection_parts ix.leaf_update ix.tree_update ix.payload
