-- ===== src/Bubblegum/Metadata/Makes.antt =====
-- `mint` and `update_metadata` make the writes of their specification, and are atomic.
use digital_asset_rpc_infras.Base.{ℕ, Option, none, some, List, String}
use digital_asset_rpc_infras.Base.Int.{ℤ, as_i64}
use digital_asset_rpc_infras.Db.Session.{Exec, transaction, pure, ◌>>=◌}
use digital_asset_rpc_infras.Db.Session.Rules.{
  Does-bind, Does-transaction, Does-pure, IsAtomic, IsAtomic-bind, IsAtomic-then_pure,
  IsAtomic-transaction,
}
use digital_asset_rpc_infras.Bubblegum.Event.{
  ChangeLogEventV1, LeafSchemaEvent, Payload, BubblegumInstruction, InstructionBundle, Externals,
}
use digital_asset_rpc_infras.Bubblegum.ChangeLog.{save_changelog_event}
use digital_asset_rpc_infras.Bubblegum.ChangeLog.Frame.{
  save_changelog_event-Does, save_changelog_event-KeepsAssets,
}
use digital_asset_rpc_infras.Bubblegum.Effects.{TableOp, writes_by, download_by, mints, updates}
use digital_asset_rpc_infras.Bubblegum.Upserts.Statements.{
  Makes, then_more, last_one, leaf-Does, owner-Does, seq-Does, base-Does, compressed-Does,
  data_row-Does, creators-Does, authority-Does, grouping-Does,
}
use digital_asset_rpc_infras.Bubblegum.Handlers.Saved.{not_parsed-Makes, not_parsed-IsAtomic}
use digital_asset_rpc_infras.Bubblegum.Metadata.{
  mint_leaf, mint_parts, mint, update_leaf, update_parts, update_metadata,
}

module _ (x : Externals) (b : InstructionBundle) (instruction : String) where
  abbrev slot : ℤ
  slot = as_i64 b.slot

  -- The change log, one transaction, and the download that is returned.
  saved_then :
      {A : Type 0} {ops : List TableOp} (cl : ChangeLogEventV1) (body : ℕ → Exec (Unit {0})) (a : A)
      → Makes x ops tt (body cl.seq)
      → Makes x ops a (
          save_changelog_event x cl b.slot b.txn_id instruction >>= λ s.
          (transaction (body s) >>= λ _. pure a))
  saved_then cl body a d = record {
    does =
        Does-bind _ (save_changelog_event-Does x cl b.slot b.txn_id instruction)
          (Does-bind (λ _. pure a) (Does-transaction d.does) (Does-pure a));
  }

  saved_then-IsAtomic :
      {A : Type 0} (cl : ChangeLogEventV1) (body : ℕ → Exec (Unit {0})) (a : A)
      → IsAtomic (
          save_changelog_event x cl b.slot b.txn_id instruction >>= λ s.
          (transaction (body s) >>= λ _. pure a))
  saved_then-IsAtomic cl body a =
      IsAtomic-bind (save_changelog_event-KeepsAssets x cl b.slot b.txn_id instruction)
        (λ s. IsAtomic-then_pure a (IsAtomic-transaction (body s)))

  mint_leaf-Makes :
      (le : LeafSchemaEvent) (cl : ChangeLogEventV1) (p : Payload)
      → Makes x
          (writes_by x slot mints (some le) (some cl) (some p))
          (download_by (some le) (some p))
          (mint_leaf x b instruction le cl p)
  unfolding writes_by download_by mint_leaf
  mint_leaf-Makes le cl (Payload.mint args a t) = saved_then cl _ _ (
      then_more x _ (data_row-Does x _ _ _ _ _ _ _ _ _ _ _) (
        then_more x _ (base-Does x _ _) (
          then_more x _ (compressed-Does x _) (
            then_more x _ (leaf-Does x _ _) (
              then_more x _ (owner-Does x _ _ _ _) (
                then_more x _ (seq-Does x _ _) (
                  then_more x _ (creators-Does x _ _ _ _) (
                    then_more x _ (authority-Does x _ _ _ _)
                      (last_one x (grouping-Does x _ _ _ _))))))))))
  mint_leaf-Makes le cl (Payload.creator_verification _ _ _) = not_parsed-Makes x _ _
  mint_leaf-Makes le cl (Payload.collection_verification _ _) = not_parsed-Makes x _ _
  mint_leaf-Makes le cl (Payload.update_metadata _ _ _) = not_parsed-Makes x _ _
  mint_leaf-Makes le cl Payload.unknown = not_parsed-Makes x _ _
  mint_leaf-Makes le cl (Payload.decompress _) = not_parsed-Makes x _ _
  mint_leaf-Makes le cl (Payload.cancel_redeem _) = not_parsed-Makes x _ _

  mint_leaf-IsAtomic :
      (le : LeafSchemaEvent) (cl : ChangeLogEventV1) (p : Payload)
      → IsAtomic (mint_leaf x b instruction le cl p)
  unfolding mint_leaf
  mint_leaf-IsAtomic le cl (Payload.mint args a t) = saved_then-IsAtomic cl _ _
  mint_leaf-IsAtomic le cl (Payload.creator_verification _ _ _) = not_parsed-IsAtomic
  mint_leaf-IsAtomic le cl (Payload.collection_verification _ _) = not_parsed-IsAtomic
  mint_leaf-IsAtomic le cl (Payload.update_metadata _ _ _) = not_parsed-IsAtomic
  mint_leaf-IsAtomic le cl Payload.unknown = not_parsed-IsAtomic
  mint_leaf-IsAtomic le cl (Payload.decompress _) = not_parsed-IsAtomic
  mint_leaf-IsAtomic le cl (Payload.cancel_redeem _) = not_parsed-IsAtomic

  mint_parts-Makes :
      (le : Option LeafSchemaEvent) (cl : Option ChangeLogEventV1) (p : Option Payload)
      → Makes x
          (writes_by x slot mints le cl p)
          (download_by le p)
          (mint_parts x b instruction le cl p)
  unfolding mint_parts
  mint_parts-Makes (some le) (some cl) (some p) = mint_leaf-Makes le cl p
  mint_parts-Makes (some le) (some cl) none = not_parsed-Makes x _ _
  mint_parts-Makes (some le) none p = not_parsed-Makes x _ _
  mint_parts-Makes none cl p = not_parsed-Makes x _ _

  mint_parts-IsAtomic :
      (le : Option LeafSchemaEvent) (cl : Option ChangeLogEventV1) (p : Option Payload)
      → IsAtomic (mint_parts x b instruction le cl p)
  unfolding mint_parts
  mint_parts-IsAtomic (some le) (some cl) (some p) = mint_leaf-IsAtomic le cl p
  mint_parts-IsAtomic (some le) (some cl) none = not_parsed-IsAtomic
  mint_parts-IsAtomic (some le) none p = not_parsed-IsAtomic
  mint_parts-IsAtomic none cl p = not_parsed-IsAtomic

  pub mint-Makes :
      (ix : BubblegumInstruction)
      → Makes x
          (writes_by x slot mints ix.leaf_update ix.tree_update ix.payload)
          (download_by ix.leaf_update ix.payload)
          (mint x b instruction ix)
  unfolding mint
  mint-Makes ix = mint_parts-Makes ix.leaf_update ix.tree_update ix.payload

  pub mint-IsAtomic : (ix : BubblegumInstruction) → IsAtomic (mint x b instruction ix)
  unfolding mint
  mint-IsAtomic ix = mint_parts-IsAtomic ix.leaf_update ix.tree_update ix.payload

  update_leaf-Makes :
      (le : LeafSchemaEvent) (cl : ChangeLogEventV1) (p : Payload)
      → Makes x
          (writes_by x slot updates (some le) (some cl) (some p))
          (download_by (some le) (some p))
          (update_leaf x b instruction le cl p)
  unfolding writes_by download_by update_leaf
  update_leaf-Makes le cl (Payload.update_metadata args a t) = saved_then cl _ _ (
      then_more x _ (data_row-Does x _ _ _ _ _ _ _ _ _ _ _) (
        then_more x _ (base-Does x _ _) (
          then_more x _ (leaf-Does x _ _)
            (then_more x _ (seq-Does x _ _) (last_one x (creators-Does x _ _ _ _))))))
  update_leaf-Makes le cl (Payload.creator_verification _ _ _) = not_parsed-Makes x _ _
  update_leaf-Makes le cl (Payload.collection_verification _ _) = not_parsed-Makes x _ _
  update_leaf-Makes le cl (Payload.mint _ _ _) = not_parsed-Makes x _ _
  update_leaf-Makes le cl Payload.unknown = not_parsed-Makes x _ _
  update_leaf-Makes le cl (Payload.decompress _) = not_parsed-Makes x _ _
  update_leaf-Makes le cl (Payload.cancel_redeem _) = not_parsed-Makes x _ _

  update_leaf-IsAtomic :
      (le : LeafSchemaEvent) (cl : ChangeLogEventV1) (p : Payload)
      → IsAtomic (update_leaf x b instruction le cl p)
  unfolding update_leaf
  update_leaf-IsAtomic le cl (Payload.update_metadata args a t) = saved_then-IsAtomic cl _ _
  update_leaf-IsAtomic le cl (Payload.creator_verification _ _ _) = not_parsed-IsAtomic
  update_leaf-IsAtomic le cl (Payload.collection_verification _ _) = not_parsed-IsAtomic
  update_leaf-IsAtomic le cl (Payload.mint _ _ _) = not_parsed-IsAtomic
  update_leaf-IsAtomic le cl Payload.unknown = not_parsed-IsAtomic
  update_leaf-IsAtomic le cl (Payload.decompress _) = not_parsed-IsAtomic
  update_leaf-IsAtomic le cl (Payload.cancel_redeem _) = not_parsed-IsAtomic

  update_parts-Makes :
      (le : Option LeafSchemaEvent) (cl : Option ChangeLogEventV1) (p : Option Payload)
      → Makes x
          (writes_by x slot updates le cl p)
          (download_by le p)
          (update_parts x b instruction le cl p)
  unfolding update_parts
  update_parts-Makes (some le) (some cl) (some p) = update_leaf-Makes le cl p
  update_parts-Makes (some le) (some cl) none = not_parsed-Makes x _ _
  update_parts-Makes (some le) none p = not_parsed-Makes x _ _
  update_parts-Makes none cl p = not_parsed-Makes x _ _

  update_parts-IsAtomic :
      (le : Option LeafSchemaEvent) (cl : Option ChangeLogEventV1) (p : Option Payload)
      → IsAtomic (update_parts x b instruction le cl p)
  unfolding update_parts
  update_parts-IsAtomic (some le) (some cl) (some p) = update_leaf-IsAtomic le cl p
  update_parts-IsAtomic (some le) (some cl) none = not_parsed-IsAtomic
  update_parts-IsAtomic (some le) none p = not_parsed-IsAtomic
  update_parts-IsAtomic none cl p = not_parsed-IsAtomic

  pub update_metadata-Makes :
      (ix : BubblegumInstruction)
      → Makes x
          (writes_by x slot updates ix.leaf_update ix.tree_update ix.payload)
          (download_by ix.leaf_update ix.payload)
          (update_metadata x b instruction ix)
  unfolding update_metadata
  update_metadata-Makes ix = update_parts-Makes ix.leaf_update ix.tree_update ix.payload

  pub update_metadata-IsAtomic :
      (ix : BubblegumInstruction) → IsAtomic (update_metadata x b instruction ix)
  unfolding update_metadata
  update_metadata-IsAtomic ix = update_parts-IsAtomic ix.leaf_update ix.tree_update ix.payload
