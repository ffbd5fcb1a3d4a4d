-- ===== src/Bubblegum/Handlers/Verifies.antt =====
-- The handlers that verify a creator or a collection make the writes of their specification, and are
-- atomic.
use digital_asset_rpc_infras.Base.{Option, none, some, String}
use digital_asset_rpc_infras.Base.Int.{ℤ, as_i64}
use digital_asset_rpc_infras.Db.Session.Rules.{IsAtomic}
use digital_asset_rpc_infras.Bubblegum.Event.{
  ChangeLogEventV1, LeafSchemaEvent, Payload, BubblegumInstruction, InstructionBundle, Externals,
}
use digital_asset_rpc_infras.Bubblegum.Effects.{writes_by, verifies_creator, verifies_collection}
use digital_asset_rpc_infras.Bubblegum.Upserts.Statements.{
  Makes, then_more, last_one, leaf-Does, owner-Does, seq-Does, creators-Does, grouping-Does,
}
use digital_asset_rpc_infras.Bubblegum.Handlers.Saved.{
  saved-Makes, saved-IsAtomic, not_parsed-Makes, not_parsed-IsAtomic,
}
use digital_asset_rpc_infras.Bubblegum.Handlers.{
  save, creator_verification, collection_verification, creator_leaf, creator_parts, collection_leaf,
  collection_parts,
}

module _ (x : Externals) (b : InstructionBundle) (instruction : String) where
  abbrev slot : ℤ
  slot = as_i64 b.slot

  creator_leaf-Makes :
      (le : LeafSchemaEvent) (cl : ChangeLogEventV1) (p : Payload)
      → Makes x
          (writes_by x slot verifies_creator (some le) (some cl) (some p))
          tt
          (creator_leaf x b instruction le cl p)
  unfolding writes_by creator_leaf save
  creator_leaf-Makes le cl (Payload.creator_verification metadata creator verify) =
      saved-Makes x b instruction cl _ (
        then_more x _ (leaf-Does x _ _) (
          then_more x _ (owner-Does x _ _ _ _)
            (then_more x _ (seq-Does x _ _) (last_one x (creators-Does x _ _ _ _)))))
  creator_leaf-Makes le cl (Payload.collection_verification _ _) = not_parsed-Makes x _ tt
  creator_leaf-Makes le cl (Payload.mint _ _ _) = not_parsed-Makes x _ tt
  creator_leaf-Makes le cl (Payload.update_metadata _ _ _) = not_parsed-Makes x _ tt
  creator_leaf-Makes le cl Payload.unknown = not_parsed-Makes x _ tt
  creator_leaf-Makes le cl (Payload.decompress _) = not_parsed-Makes x _ tt
  creator_leaf-Makes le cl (Payload.cancel_redeem _) = not_parsed-Makes x _ tt

  creator_leaf-IsAtomic :
      (le : LeafSchemaEvent) (cl : ChangeLogEventV1) (p : Payload)
      → IsAtomic (creator_leaf x b instruction le cl p)
  unfolding creator_leaf save
  creator_leaf-IsAtomic le cl (Payload.creator_verification metadata creator verify) =
      saved-IsAtomic x b instruction cl _
  creator_leaf-IsAtomic le cl (Payload.collection_verification _ _) = not_parsed-IsAtomic
  creator_leaf-IsAtomic le cl (Payload.mint _ _ _) = not_parsed-IsAtomic
  creator_leaf-IsAtomic le cl (Payload.update_metadata _ _ _) = not_parsed-IsAtomic
  creator_leaf-IsAtomic le cl Payload.unknown = not_parsed-IsAtomic
  creator_leaf-IsAtomic le cl (Payload.decompress _) = not_parsed-IsAtomic
  creator_leaf-IsAtomic le cl (Payload.cancel_redeem _) = not_parsed-IsAtomic

  creator_parts-Makes :
      (le : Option LeafSchemaEvent) (cl : Option ChangeLogEventV1) (p : Option Payload)
      → Makes x
          (writes_by x slot verifies_creator le cl p)
          tt
          (creator_parts x b instruction le cl p)
  unfolding creator_parts
  creator_parts-Makes (some le) (some cl) (some p) = creator_leaf-Makes le cl p
  creator_parts-Makes (some le) (some cl) none = not_parsed-Makes x _ tt
  creator_parts-Makes (some le) none p = not_parsed-Makes x _ tt
  creator_parts-Makes none cl p = not_parsed-Makes x _ tt

  creator_parts-IsAtomic :
      (le : Option LeafSchemaEvent) (cl : Option ChangeLogEventV1) (p : Option Payload)
      → IsAtomic (creator_parts x b instruction le cl p)
  unfolding creator_parts
  creator_parts-IsAtomic (some le) (some cl) (some p) = creator_leaf-IsAtomic le cl p
  creator_parts-IsAtomic (some le) (some cl) none = not_parsed-IsAtomic
  creator_parts-IsAtomic (some le) none p = not_parsed-IsAtomic
  creator_parts-IsAtomic none cl p = not_parsed-IsAtomic

  collection_leaf-Makes :
      (le : LeafSchemaEvent) (cl : ChangeLogEventV1) (p : Payload)
      → Makes x
          (writes_by x slot verifies_collection (some le) (some cl) (some p))
          tt
          (collection_leaf x b instruction le cl p)
  unfolding writes_by collection_leaf save
  collection_leaf-Makes le cl (Payload.collection_verification collection verify) =
      saved-Makes x b instruction cl _ (
        then_more x _ (leaf-Does x _ _)
          (then_more x _ (seq-Does x _ _) (last_one x (grouping-Does x _ _ _ _))))
  collection_leaf-Makes le cl (Payload.creator_verification _ _ _) = not_parsed-Makes x _ tt
  collection_leaf-Makes le cl (Payload.mint _ _ _) = not_parsed-Makes x _ tt
  collection_leaf-Makes le cl (Payload.update_metadata _ _ _) = not_parsed-Makes x _ tt
  collection_leaf-Makes le cl Payload.unknown = not_parsed-Makes x _ tt
  collection_leaf-Makes le cl (Payload.decompress _) = not_parsed-Makes x _ tt
  collection_leaf-Makes le cl (Payload.cancel_redeem _) = not_parsed-Makes x _ tt

  collection_leaf-IsAtomic :
      (le : LeafSchemaEvent) (cl : ChangeLogEventV1) (p : Payload)
      → IsAtomic (collection_leaf x b instruction le cl p)
  unfolding collection_leaf save
  collection_leaf-IsAtomic le cl (Payload.collection_verification collection verify) =
      saved-IsAtomic x b instruction cl _
  collection_leaf-IsAtomic le cl (Payload.creator_verification _ _ _) = not_parsed-IsAtomic
  collection_leaf-IsAtomic le cl (Payload.mint _ _ _) = not_parsed-IsAtomic
  collection_leaf-IsAtomic le cl (Payload.update_metadata _ _ _) = not_parsed-IsAtomic
  collection_leaf-IsAtomic le cl Payload.unknown = not_parsed-IsAtomic
  collection_leaf-IsAtomic le cl (Payload.decompress _) = not_parsed-IsAtomic
  collection_leaf-IsAtomic le cl (Payload.cancel_redeem _) = not_parsed-IsAtomic

  collection_parts-Makes :
      (le : Option LeafSchemaEvent) (cl : Option ChangeLogEventV1) (p : Option Payload)
      → Makes x
          (writes_by x slot verifies_collection le cl p)
          tt
          (collection_parts x b instruction le cl p)
  unfolding collection_parts
  collection_parts-Makes (some le) (some cl) (some p) = collection_leaf-Makes le cl p
  collection_parts-Makes (some le) (some cl) none = not_parsed-Makes x _ tt
  collection_parts-Makes (some le) none p = not_parsed-Makes x _ tt
  collection_parts-Makes none cl p = not_parsed-Makes x _ tt

  collection_parts-IsAtomic :
      (le : Option LeafSchemaEvent) (cl : Option ChangeLogEventV1) (p : Option Payload)
      → IsAtomic (collection_parts x b instruction le cl p)
  unfolding collection_parts
  collection_parts-IsAtomic (some le) (some cl) (some p) = collection_leaf-IsAtomic le cl p
  collection_parts-IsAtomic (some le) (some cl) none = not_parsed-IsAtomic
  collection_parts-IsAtomic (some le) none p = not_parsed-IsAtomic
  collection_parts-IsAtomic none cl p = not_parsed-IsAtomic

  pub creator_verification-Makes :
      (ix : BubblegumInstruction)
      → Makes x
          (writes_by x slot verifies_creator ix.leaf_update ix.tree_update ix.payload)
          tt
          (creator_verification x b instruction ix)
  unfolding creator_verification
  creator_verification-Makes ix = creator_parts-Makes ix.leaf_update ix.tree_update ix.payload

  pub creator_verification-IsAtomic :
      (ix : BubblegumInstruction) → IsAtomic (creator_verification x b instruction ix)
  unfolding creator_verification
  creator_verification-IsAtomic ix = creator_parts-IsAtomic ix.leaf_update ix.tree_update ix.payload

  pub collection_verification-Makes :
      (ix : BubblegumInstruction)
      → Makes x
          (writes_by x slot verifies_collection ix.leaf_update ix.tree_update ix.payload)
          tt
          (collection_verification x b instruction ix)
  unfolding collection_verification
  collection_verification-Makes ix = collection_parts-Makes ix.leaf_update ix.tree_update ix.payload

  pub collection_verification-IsAtomic :
      (ix : BubblegumInstruction) → IsAtomic (collection_verification x b instruction ix)
  unfolding collection_verification
  collection_verification-IsAtomic ix =
      collection_parts-IsAtomic ix.leaf_update ix.tree_update ix.payload
