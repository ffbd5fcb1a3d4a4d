-- ===== src/Bubblegum/Effects.antt =====
-- What a handled instruction writes, as a list of table writes: the specification that the handlers
-- are proved to implement.
use digital_asset_rpc_infras.Base.{
  ℕ, Bool, true, Option, none, some, List, [], ◌∷◌, String, map, unwrap_or,
}
use digital_asset_rpc_infras.Base.Int.{ℤ, pos, as_i64}
use digital_asset_rpc_infras.Base.Text.{remove_nul}
use digital_asset_rpc_infras.Db.Json.{JsonValue}
use digital_asset_rpc_infras.Db.Schema.{Pubkey, Mutability, AssetData, AssetTables}
use digital_asset_rpc_infras.Db.Session.{DownloadMetadataInfo}
use digital_asset_rpc_infras.Bubblegum.Event.{
  ChangeLogEventV1, LeafSchemaEvent, Collection, Creator, MetadataArgs, UpdateArgs, Payload,
  InstructionName, BubblegumInstruction, InstructionBundle, Externals, chain_data_value, normalize,
  delegate_of,
}
use digital_asset_rpc_infras.Bubblegum.Writes.{upsert_asset}
use digital_asset_rpc_infras.Bubblegum.Writes.Ops.{
  AssetOp, leaf, owner, seq, base, compressed, burn, write_of,
}
use digital_asset_rpc_infras.Bubblegum.Upserts.{
  group_columns, upsert_data, upsert_grouping, upsert_creators, insert_authority,
}
use digital_asset_rpc_infras.Bubblegum.Handlers.{
  leaf_info, redeemed_leaf, set_verified, collection_set, asset_address,
}
use digital_asset_rpc_infras.Bubblegum.Metadata.{
  base_info, chain_mutability, chain_data, download_of,
}

pub data TableOp : Type 0 where
  asset : ℕ → AssetOp → TableOp
  data_row : ℕ → AssetData → ℤ → TableOp
  creators : ℕ → List Creator → ℤ → ℤ → TableOp
  authority : ℕ → Pubkey → ℤ → ℤ → TableOp
  grouping : ℕ → Option Collection → ℤ → ℤ → TableOp

unfoldable pub apply_op : Externals → TableOp → AssetTables → AssetTables
apply_op x (asset id o) t = upsert_asset id (write_of x id o) t
apply_op x (data_row id r s) t = upsert_data id r s t
apply_op x (creators id cs slot s) t = upsert_creators id cs slot s t
apply_op x (authority id a slot s) t = insert_authority id a slot s t
apply_op x (grouping id c slot s) t =
    let (group_value, verified) = group_columns x c in
    upsert_grouping id group_value verified slot s t

-- The kinds of instructions that `handle_bubblegum_instruction` tells apart.
pub data Kind : Type 0 where
  moves burns redeems cancels verifies_creator verifies_collection mints updates nothing : Kind

unfoldable pub kind_of : InstructionName → Kind
kind_of InstructionName.transfer = moves
kind_of InstructionName.transfer_v2 = moves
kind_of InstructionName.delegate = moves
kind_of InstructionName.delegate_v2 = moves
kind_of InstructionName.delegate_and_freeze_v2 = moves
kind_of InstructionName.freeze_v2 = moves
kind_of InstructionName.set_non_transferable_v2 = moves
kind_of InstructionName.thaw_v2 = moves
kind_of InstructionName.thaw_and_revoke_v2 = moves
kind_of InstructionName.burn = burns
kind_of InstructionName.burn_v2 = burns
kind_of InstructionName.mint_v1 = mints
kind_of InstructionName.mint_to_collection_v1 = mints
kind_of InstructionName.mint_v2 = mints
kind_of InstructionName.redeem = redeems
kind_of InstructionName.cancel_redeem = cancels
kind_of InstructionName.verify_creator = verifies_creator
kind_of InstructionName.unverify_creator = verifies_creator
kind_of InstructionName.verify_creator_v2 = verifies_creator
kind_of InstructionName.unverify_creator_v2 = verifies_creator
kind_of InstructionName.verify_collection = verifies_collection
kind_of InstructionName.unverify_collection = verifies_collection
kind_of InstructionName.set_and_verify_collection = verifies_collection
kind_of InstructionName.set_collection_v2 = verifies_collection
kind_of InstructionName.update_metadata = updates
kind_of InstructionName.update_metadata_v2 = updates
kind_of _ = nothing

module _ (x : Externals) (slot : ℤ) where
  -- The three writes of an event that names owner and delegate.
  abbrev pub owned : LeafSchemaEvent → ChangeLogEventV1 → List TableOp → List TableOp
  owned le cl rest =
      let l = normalize le.schema in
      let s = as_i64 cl.seq in
      asset l.id (leaf (leaf_info (pos cl.index) cl.id le.leaf_hash l s))
      ∷ asset l.id (owner l.owner (delegate_of l.owner l.delegate) s)
      ∷ asset l.id (seq s)
      ∷ rest

  abbrev pub collection_writes : LeafSchemaEvent → ChangeLogEventV1 → Pubkey → Bool → List TableOp
  collection_writes le cl collection verify =
      let l = normalize le.schema in
      let s = as_i64 cl.seq in
      asset l.id (leaf (leaf_info (pos cl.index) cl.id le.leaf_hash l s))
      ∷ asset l.id (seq s)
      ∷ grouping l.id (collection_set x collection verify) slot s
      ∷ []

  abbrev pub metadata_row : Bool → String → String → String → Bool → MetadataArgs → ℤ → AssetData
  metadata_row is_mutable name symbol uri sold m s = record {
    chain_data_mutability = chain_mutability is_mutable;
    chain_data = chain_data_value x (chain_data name symbol sold m);
    metadata_url = remove_nul uri;
    metadata_mutability = Mutability.mutable;
    metadata = JsonValue.string "processing";
    slot_updated = slot;
    reindex = some true;
    raw_name = some name;
    raw_symbol = some symbol;
    base_info_seq = some s;
  }

  abbrev pub mint_writes :
      LeafSchemaEvent → ChangeLogEventV1 → MetadataArgs → Pubkey → Pubkey → List TableOp
  mint_writes le cl m auth tree_id =
      let l = normalize le.schema in
      let s = as_i64 cl.seq in
      data_row l.id (metadata_row m.is_mutable m.name m.symbol m.uri m.primary_sale_happened m s) s
      ∷ asset l.id (base (base_info m.seller_fee_basis_points slot s))
      ∷ asset l.id compressed
      ∷ asset l.id (leaf (leaf_info (as_i64 l.nonce) tree_id le.leaf_hash l s))
      ∷ asset l.id (owner l.owner (delegate_of l.owner l.delegate) s)
      ∷ asset l.id (seq s)
      ∷ creators l.id m.creators slot s
      ∷ authority l.id auth s slot
      ∷ grouping l.id m.collection slot s
      ∷ []

  abbrev pub update_writes :
      LeafSchemaEvent → ChangeLogEventV1 → MetadataArgs → UpdateArgs → Pubkey → List TableOp
  update_writes le cl m a tree_id =
      let l = normalize le.schema in
      let s = as_i64 cl.seq in
      data_row l.id
        (metadata_row (unwrap_or a.is_mutable m.is_mutable) (unwrap_or a.name m.name)
          (unwrap_or a.symbol m.symbol) (unwrap_or a.uri m.uri)
          (unwrap_or a.primary_sale_happened m.primary_sale_happened) m s)
        s
      ∷ asset l.id
          (base (base_info (unwrap_or a.seller_fee_basis_points m.seller_fee_basis_points) slot s))
      ∷ asset l.id (leaf (leaf_info (as_i64 l.nonce) tree_id le.leaf_hash l s))
      ∷ asset l.id (seq s)
      ∷ creators l.id (unwrap_or a.creators m.creators) slot s
      ∷ []

  -- What an event writes; an event that is refused writes nothing.
  unfoldable pub writes_by :
      Kind → Option LeafSchemaEvent → Option ChangeLogEventV1 → Option Payload → List TableOp
  writes_by moves (some le) (some cl) p = owned le cl []
  writes_by cancels (some le) (some cl) p = owned le cl []
  writes_by burns le (some cl) p =
      asset (asset_address x cl) burn ∷ asset (asset_address x cl) (seq (as_i64 cl.seq)) ∷ []
  writes_by redeems le (some cl) p =
      asset (asset_address x cl) (leaf (redeemed_leaf cl))
      ∷ asset (asset_address x cl) (seq (as_i64 cl.seq))
      ∷ []
  writes_by verifies_creator (some le) (some cl) (some (Payload.creator_verification m c v)) =
      owned le cl (
        creators (normalize le.schema).id (map (set_verified c v) m.creators) slot (as_i64 cl.seq)
        ∷ [])
  writes_by verifies_collection (some le) (some cl) (some (Payload.collection_verification c v)) =
      collection_writes le cl c v
  writes_by mints (some le) (some cl) (some (Payload.mint m a t)) = mint_writes le cl m a t
  writes_by updates (some le) (some cl) (some (Payload.update_metadata m a t)) =
      update_writes le cl m a t
  writes_by _ _ _ _ = []

-- What `mint` and `update_metadata` return.
unfoldable pub download_by : Option LeafSchemaEvent → Option Payload → Option DownloadMetadataInfo
download_by (some le) (some (Payload.mint m a t)) =
    download_of (normalize le.schema).id (remove_nul m.uri)
download_by (some le) (some (Payload.update_metadata m a t)) =
    download_of (normalize le.schema).id (remove_nul (unwrap_or a.uri m.uri))
download_by _ _ = none

-- The writes of a handled instruction.
unfoldable pub writes_of : Externals → InstructionBundle → BubblegumInstruction → List TableOp
unfolding writes_by kind_of
writes_of x b ix =
    writes_by x (as_i64 b.slot) (kind_of ix.instruction) ix.leaf_update ix.tree_update ix.payload
