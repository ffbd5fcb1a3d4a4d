-- ===== src/Bubblegum/Handlers/Makes.antt =====
-- Each of the leaf handlers, if it succeeds, makes the writes of its specification; if it fails, it
-- has changed no asset table.
use digital_asset_rpc_infras.Base.{ℕ, Option, none, some, [], String}
use digital_asset_rpc_infras.Base.Int.{ℤ, as_i64}
use digital_asset_rpc_infras.Db.Session.Rules.{Does-bind, IsAtomic}
use digital_asset_rpc_infras.Bubblegum.Event.{
  ChangeLogEventV1, LeafSchema, LeafSchemaEvent, Payload, BubblegumInstruction, InstructionBundle,
  Externals,
}
use digital_asset_rpc_infras.Bubblegum.ChangeLog.Frame.{save_changelog_event-Does}
use digital_asset_rpc_infras.Bubblegum.Effects.{owned, writes_by, moves, burns, redeems, cancels}
use digital_asset_rpc_infras.Bubblegum.Upserts.Statements.{
  Makes, then_more, last_one, leaf-Does, owner-Does, seq-Does, burn-Does,
}
use digital_asset_rpc_infras.Bubblegum.Handlers.Saved.{
  raise-Makes, not_parsed-Makes, not_parsed-IsAtomic, saved-Makes, saved-IsAtomic, refused-IsAtomic,
}
use digital_asset_rpc_infras.Bubblegum.Handlers.{
  save, transfer, delegation_freezing_nontransferability, burn, redeem, cancel_redeem,
  cancel_redeem_leaf, transfer_leaf, transfer_parts, burn_parts, redeem_parts, cancel_redeem_leaf,
  cancel_redeem_parts,
}

module _ (x : Externals) (b : InstructionBundle) (instruction : String) where
  abbrev slot : ℤ
  slot = as_i64 b.slot

  transfer_leaf-Makes :
      (le : LeafSchemaEvent) (cl : ChangeLogEventV1)
      → Makes x (owned x slot le cl []) tt (transfer_leaf x b instruction le cl)
  unfolding transfer_leaf save
  transfer_leaf-Makes le cl = saved-Makes x b instruction cl _ (
      then_more x _ (leaf-Does x _ _)
        (then_more x _ (owner-Does x _ _ _ _) (last_one x (seq-Does x _ _))))

  transfer_leaf-IsAtomic :
      (le : LeafSchemaEvent) (cl : ChangeLogEventV1)
      → IsAtomic (transfer_leaf x b instruction le cl)
  unfolding transfer_leaf save
  transfer_leaf-IsAtomic le cl = saved-IsAtomic x b instruction cl _

  transfer_parts-Makes :
      (le : Option LeafSchemaEvent) (cl : Option ChangeLogEventV1) (p : Option Payload)
      → Makes x (writes_by x slot moves le cl p) tt (transfer_parts x b instruction le cl)
  unfolding writes_by transfer_parts
  transfer_parts-Makes (some le) (some cl) p = transfer_leaf-Makes le cl
  transfer_parts-Makes (some le) none p = not_parsed-Makes x _ tt
  transfer_parts-Makes none cl p = not_parsed-Makes x _ tt

  transfer_parts-IsAtomic :
      (le : Option LeafSchemaEvent) (cl : Option ChangeLogEventV1)
      → IsAtomic (transfer_parts x b instruction le cl)
  unfolding transfer_parts
  transfer_parts-IsAtomic (some le) (some cl) = transfer_leaf-IsAtomic le cl
  transfer_parts-IsAtomic (some le) none = not_parsed-IsAtomic
  transfer_parts-IsAtomic none cl = not_parsed-IsAtomic

  burn_parts-Makes :
      (le : Option LeafSchemaEvent) (cl : Option ChangeLogEventV1) (p : Option Payload)
      → Makes x (writes_by x slot burns le cl p) tt (burn_parts x b instruction cl)
  unfolding writes_by burn_parts save
  burn_parts-Makes le none p = not_parsed-Makes x _ tt
  burn_parts-Makes le (some cl) p =
      saved-Makes x b instruction cl _ (then_more x _ (burn-Does x _) (last_one x (seq-Does x _ _)))

  burn_parts-IsAtomic : (cl : Option ChangeLogEventV1) → IsAtomic (burn_parts x b instruction cl)
  unfolding burn_parts save
  burn_parts-IsAtomic none = not_parsed-IsAtomic
  burn_parts-IsAtomic (some cl) = saved-IsAtomic x b instruction cl _

  redeem_parts-Makes :
      (le : Option LeafSchemaEvent) (cl : Option ChangeLogEventV1) (p : Option Payload)
      → Makes x (writes_by x slot redeems le cl p) tt (redeem_parts x b instruction cl)
  unfolding writes_by redeem_parts save
  redeem_parts-Makes le none p = not_parsed-Makes x _ tt
  redeem_parts-Makes le (some cl) p =
      saved-Makes x b instruction cl _
        (then_more x _ (leaf-Does x _ _) (last_one x (seq-Does x _ _)))

  redeem_parts-IsAtomic :
      (cl : Option ChangeLogEventV1) → IsAtomic (redeem_parts x b instruction cl)
  unfolding redeem_parts save
  redeem_parts-IsAtomic none = not_parsed-IsAtomic
  redeem_parts-IsAtomic (some cl) = saved-IsAtomic x b instruction cl _

  cancel_redeem_leaf-Makes :
      (schema : LeafSchema) (hash : ℕ) (cl : ChangeLogEventV1)
      → Makes x
          (owned x slot (record { schema = schema; leaf_hash = hash }) cl [])
          tt
          (cancel_redeem_leaf x b instruction schema hash cl)
  unfolding cancel_redeem_leaf save
  cancel_redeem_leaf-Makes (LeafSchema.v1 _ _ _ _ _ _) hash cl = transfer_leaf-Makes _ cl
  cancel_redeem_leaf-Makes (LeafSchema.v2 _ _ _ _ _ _ _ _ _) hash cl = record {
    does =
        Does-bind _ (save_changelog_event-Does x cl b.slot b.txn_id instruction)
          (raise-Makes x _
            (owned x slot (record { schema = LeafSchema.v2 _ _ _ _ _ _ _ _ _; leaf_hash = hash }) cl
              [])
            tt).does;
  }

  cancel_redeem_leaf-IsAtomic :
      (schema : LeafSchema) (hash : ℕ) (cl : ChangeLogEventV1)
      → IsAtomic (cancel_redeem_leaf x b instruction schema hash cl)
  unfolding cancel_redeem_leaf save
  cancel_redeem_leaf-IsAtomic (LeafSchema.v1 _ _ _ _ _ _) hash cl = transfer_leaf-IsAtomic _ cl
  cancel_redeem_leaf-IsAtomic (LeafSchema.v2 _ _ _ _ _ _ _ _ _) hash cl =
      refused-IsAtomic x b instruction cl _

  cancel_redeem_parts-Makes :
      (le : Option LeafSchemaEvent) (cl : Option ChangeLogEventV1) (p : Option Payload)
      → Makes x (writes_by x slot cancels le cl p) tt (cancel_redeem_parts x b instruction le cl)
  unfolding writes_by cancel_redeem_parts
  cancel_redeem_parts-Makes (some le) (some cl) p =
      cancel_redeem_leaf-Makes le.schema le.leaf_hash cl
  cancel_redeem_parts-Makes (some le) none p = not_parsed-Makes x _ tt
  cancel_redeem_parts-Makes none cl p = not_parsed-Makes x _ tt

  cancel_redeem_parts-IsAtomic :
      (le : Option LeafSchemaEvent) (cl : Option ChangeLogEventV1)
      → IsAtomic (cancel_redeem_parts x b instruction le cl)
  unfolding cancel_redeem_parts
  cancel_redeem_parts-IsAtomic (some le) (some cl) =
      cancel_redeem_leaf-IsAtomic le.schema le.leaf_hash cl
  cancel_redeem_parts-IsAtomic (some le) none = not_parsed-IsAtomic
  cancel_redeem_parts-IsAtomic none cl = not_parsed-IsAtomic

  pub transfer-Makes :
      (ix : BubblegumInstruction)
      → Makes x
          (writes_by x slot moves ix.leaf_update ix.tree_update ix.payload)
          tt
          (transfer x b instruction ix)
  unfolding transfer
  transfer-Makes ix = transfer_parts-Makes ix.leaf_update ix.tree_update ix.payload

  pub transfer-IsAtomic : (ix : BubblegumInstruction) → IsAtomic (transfer x b instruction ix)
  unfolding transfer
  transfer-IsAtomic ix = transfer_parts-IsAtomic ix.leaf_update ix.tree_update

  pub delegation_freezing_nontransferability-Makes :
      (ix : BubblegumInstruction)
      → Makes x
          (writes_by x slot moves ix.leaf_update ix.tree_update ix.payload)
          tt
          (delegation_freezing_nontransferability x b instruction ix)
  unfolding delegation_freezing_nontransferability
  delegation_freezing_nontransferability-Makes ix =
      transfer_parts-Makes ix.leaf_update ix.tree_update ix.payload

  pub delegation_freezing_nontransferability-IsAtomic :
      (ix : BubblegumInstruction)
      → IsAtomic (delegation_freezing_nontransferability x b instruction ix)
  unfolding delegation_freezing_nontransferability
  delegation_freezing_nontransferability-IsAtomic ix =
      transfer_parts-IsAtomic ix.leaf_update ix.tree_update

  pub burn-Makes :
      (ix : BubblegumInstruction)
      → Makes x
          (writes_by x slot burns ix.leaf_update ix.tree_update ix.payload)
          tt
          (burn x b instruction ix)
  unfolding burn
  burn-Makes ix = burn_parts-Makes ix.leaf_update ix.tree_update ix.payload

  pub burn-IsAtomic : (ix : BubblegumInstruction) → IsAtomic (burn x b instruction ix)
  unfolding burn
  burn-IsAtomic ix = burn_parts-IsAtomic ix.tree_update

  pub redeem-Makes :
      (ix : BubblegumInstruction)
      → Makes x
          (writes_by x slot redeems ix.leaf_update ix.tree_update ix.payload)
          tt
          (redeem x b instruction ix)
  unfolding redeem
  redeem-Makes ix = redeem_parts-Makes ix.leaf_update ix.tree_update ix.payload

  pub redeem-IsAtomic : (ix : BubblegumInstruction) → IsAtomic (redeem x b instruction ix)
  unfolding redeem
  redeem-IsAtomic ix = redeem_parts-IsAtomic ix.tree_update

  pub cancel_redeem-Makes :
      (ix : BubblegumInstruction)
      → Makes x
          (writes_by x slot cancels ix.leaf_update ix.tree_update ix.payload)
          tt
          (cancel_redeem x b instruction ix)
  unfolding cancel_redeem
  cancel_redeem-Makes ix = cancel_redeem_parts-Makes ix.leaf_update ix.tree_update ix.payload

  pub cancel_redeem-IsAtomic :
      (ix : BubblegumInstruction) → IsAtomic (cancel_redeem x b instruction ix)
  unfolding cancel_redeem
  cancel_redeem-IsAtomic ix = cancel_redeem_parts-IsAtomic ix.leaf_update ix.tree_update
