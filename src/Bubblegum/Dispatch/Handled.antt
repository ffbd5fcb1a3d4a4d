-- ===== src/Bubblegum/Dispatch/Handled.antt =====
-- What `handle_bubblegum_instruction` does, against its specification in Bubblegum/Effects.
use digital_asset_rpc_infras.Base.{
  ◌≡◌, refl, Bool, true, false, Option, none, some, List, [], String, arith,
}
use digital_asset_rpc_infras.Base.Int.{as_i64}
use digital_asset_rpc_infras.Base.Reorder.{run}
use digital_asset_rpc_infras.Db.Session.{
  Exec, Session, Error, Result, ok, err, download_metadata_notify, pure, notify, continue,
  DownloadMetadataInfo, ◌>>=◌,
}
use digital_asset_rpc_infras.Db.Session.Rules.{
  Does, Does-bind, Does-pure, IsAtomic, KeepsAssets-pure,
}
use digital_asset_rpc_infras.Bubblegum.Event.{
  InstructionName, BubblegumInstruction, InstructionBundle, Externals,
}
use digital_asset_rpc_infras.Bubblegum.Instruction.{ix_str}
use digital_asset_rpc_infras.Bubblegum.Effects.{
  TableOp, apply_op, Kind, moves, burns, redeems, cancels, verifies_creator, verifies_collection,
  mints, updates, nothing, kind_of, writes_by, writes_of,
}
use digital_asset_rpc_infras.Bubblegum.Upserts.Statements.{Makes}
use digital_asset_rpc_infras.Bubblegum.Handlers.Makes.{
  transfer-Makes, transfer-IsAtomic, delegation_freezing_nontransferability-Makes,
  delegation_freezing_nontransferability-IsAtomic, burn-Makes, burn-IsAtomic, redeem-Makes,
  redeem-IsAtomic, cancel_redeem-Makes, cancel_redeem-IsAtomic,
}
use digital_asset_rpc_infras.Bubblegum.Handlers.Verifies.{
  creator_verification-Makes, creator_verification-IsAtomic, collection_verification-Makes,
  collection_verification-IsAtomic,
}
use digital_asset_rpc_infras.Bubblegum.Metadata.Makes.{
  mint-Makes, mint-IsAtomic, update_metadata-Makes, update_metadata-IsAtomic,
}
use digital_asset_rpc_infras.Bubblegum.Handlers.{
  transfer, delegation_freezing_nontransferability, burn, redeem, cancel_redeem,
  creator_verification, collection_verification,
}
use digital_asset_rpc_infras.Bubblegum.Metadata.{mint, update_metadata}
use digital_asset_rpc_infras.Bubblegum.Dispatch.{notify_of, dispatch, handle_bubblegum_instruction}

-- The notifier is called after the commit: its refusal is the one error that leaves writes.
abbrev pub from_notifier : Error → Bool
from_notifier (download_metadata_notify _) = true
from_notifier _ = false

-- `m` makes the writes `ops` if it succeeds, and none if a handler fails.
pub record IsHandled (x : Externals) (ops : List TableOp) (m : Exec (Unit {0})) : Type 0 where
  pub makes : Makes x ops tt m
  pub undone :
      (s : Session) (e : Error)
      → (m s).0 ≡ err e
      → from_notifier e ≡ false
      → (m s).1.db.assets ≡ s.db.assets

module _ (x : Externals) where
  atomic-IsHandled :
      {ops : List TableOp} {m : Exec (Unit {0})} → Makes x ops tt m → IsAtomic m → IsHandled x ops m
  atomic-IsHandled d a = record { makes = d; undone = λ s e h _. a.on_err s e h }

  notify_of-Does : (i : Option DownloadMetadataInfo) → Does (λ t. t) tt (notify_of x i)
  unfolding notify_of notify
  notify_of-Does none = Does-pure tt
  notify_of-Does (some info) = record { on_ok = λ s b h. ground arith }

  notify_of-fails :
      (i : Option DownloadMetadataInfo) (s : Session) (e : Error)
      → (notify_of x i s).0 ≡ err e
      → from_notifier e ≡ true
  unfolding notify_of notify pure
  notify_of-fails none s e h = ground arith
  notify_of-fails (some info) s e h = ground arith

  continue-undone :
      (r : Result (Option DownloadMetadataInfo)) (t s : Session) (e : Error)
      → ((e : Error) → r ≡ err e → t.db.assets ≡ s.db.assets)
      → (continue r (λ i. notify_of x i) t).0 ≡ err e
      → from_notifier e ≡ false
      → (continue r (λ i. notify_of x i) t).1.db.assets ≡ s.db.assets
  continue-undone (ok i) t s e a h n = ground (arith, notify_of-fails i t e)
  continue-undone (err y) t s e a h n = a y refl

  -- The download that a handler returns is handed to the notifier.
  notified-IsHandled :
      {ops : List TableOp} {i : Option DownloadMetadataInfo}
      {m : Exec (Option DownloadMetadataInfo)}
      → Makes x ops i m
      → IsAtomic m
      → IsHandled x ops (m >>= λ j. notify_of x j)
  unfolding ◌>>=◌
  notified-IsHandled {i} {m} d a = record {
    makes = record { does = Does-bind (λ j. notify_of x j) d.does (notify_of-Does i) };
    undone = λ s e h n. continue-undone (m s).0 (m s).1 s e (a.on_err s) h n;
  }

  pure-IsHandled : IsHandled x [] (pure tt)
  pure-IsHandled = record {
    makes = record { does = Does-pure tt };
    undone = λ s e h n. (KeepsAssets-pure tt).assets s;
  }

  module _ (b : InstructionBundle) (s : String) (ix : BubblegumInstruction) where
    -- The writes that the specification has for an instruction of the kind `k`.
    abbrev writes_as : Kind → List TableOp
    writes_as k = writes_by x (as_i64 b.slot) k ix.leaf_update ix.tree_update ix.payload

    transfer-IsHandled : IsHandled x (writes_as moves) (transfer x b s ix)
    transfer-IsHandled = atomic-IsHandled (transfer-Makes x b s ix) (transfer-IsAtomic x b s ix)

    delegation_freezing_nontransferability-IsHandled :
        IsHandled x (writes_as moves) (delegation_freezing_nontransferability x b s ix)
    delegation_freezing_nontransferability-IsHandled =
        atomic-IsHandled (delegation_freezing_nontransferability-Makes x b s ix)
          (delegation_freezing_nontransferability-IsAtomic x b s ix)

    burn-IsHandled : IsHandled x (writes_as burns) (burn x b s ix)
    burn-IsHandled = atomic-IsHandled (burn-Makes x b s ix) (burn-IsAtomic x b s ix)

    redeem-IsHandled : IsHandled x (writes_as redeems) (redeem x b s ix)
    redeem-IsHandled = atomic-IsHandled (redeem-Makes x b s ix) (redeem-IsAtomic x b s ix)

    cancel_redeem-IsHandled : IsHandled x (writes_as cancels) (cancel_redeem x b s ix)
    cancel_redeem-IsHandled =
        atomic-IsHandled (cancel_redeem-Makes x b s ix) (cancel_redeem-IsAtomic x b s ix)

    creator_verification-IsHandled :
        IsHandled x (writes_as verifies_creator) (creator_verification x b s ix)
    creator_verification-IsHandled =
        atomic-IsHandled (creator_verification-Makes x b s ix)
          (creator_verification-IsAtomic x b s ix)

    collection_verification-IsHandled :
        IsHandled x (writes_as verifies_collection) (collection_verification x b s ix)
    collection_verification-IsHandled =
        atomic-IsHandled (collection_verification-Makes x b s ix)
          (collection_verification-IsAtomic x b s ix)

    mint-IsHandled : IsHandled x (writes_as mints) (mint x b s ix >>= λ i. notify_of x i)
    mint-IsHandled = notified-IsHandled (mint-Makes x b s ix) (mint-IsAtomic x b s ix)

    update_metadata-IsHandled :
        IsHandled x (writes_as updates) (update_metadata x b s ix >>= λ i. notify_of x i)
    update_metadata-IsHandled =
        notified-IsHandled (update_metadata-Makes x b s ix) (update_metadata-IsAtomic x b s ix)

    nothing-IsHandled : IsHandled x (writes_as nothing) (pure tt)
    unfolding writes_by
    nothing-IsHandled = pure-IsHandled

    dispatch-IsHandled :
        (n : InstructionName) → IsHandled x (writes_as (kind_of n)) (dispatch x n b s ix)
    unfolding kind_of dispatch
    dispatch-IsHandled InstructionName.unknown = nothing-IsHandled
    dispatch-IsHandled InstructionName.mint_v1 = mint-IsHandled
    dispatch-IsHandled InstructionName.mint_to_collection_v1 = mint-IsHandled
    dispatch-IsHandled InstructionName.redeem = redeem-IsHandled
    dispatch-IsHandled InstructionName.cancel_redeem = cancel_redeem-IsHandled
    dispatch-IsHandled InstructionName.transfer = transfer-IsHandled
    dispatch-IsHandled InstructionName.delegate = delegation_freezing_nontransferability-IsHandled
    dispatch-IsHandled InstructionName.decompress_v1 = nothing-IsHandled
    dispatch-IsHandled InstructionName.compress = nothing-IsHandled
    dispatch-IsHandled InstructionName.burn = burn-IsHandled
    dispatch-IsHandled InstructionName.create_tree = nothing-IsHandled
    dispatch-IsHandled InstructionName.verify_creator = creator_verification-IsHandled
    dispatch-IsHandled InstructionName.unverify_creator = creator_verification-IsHandled
    dispatch-IsHandled InstructionName.verify_collection = collection_verification-IsHandled
    dispatch-IsHandled InstructionName.unverify_collection = collection_verification-IsHandled
    dispatch-IsHandled InstructionName.set_and_verify_collection = collection_verification-IsHandled
    dispatch-IsHandled InstructionName.set_decompressible_state = nothing-IsHandled
    dispatch-IsHandled InstructionName.update_metadata = update_metadata-IsHandled
    dispatch-IsHandled InstructionName.burn_v2 = burn-IsHandled
    dispatch-IsHandled InstructionName.collect_v2 = nothing-IsHandled
    dispatch-IsHandled InstructionName.create_tree_v2 = nothing-IsHandled
    dispatch-IsHandled InstructionName.delegate_and_freeze_v2 =
        delegation_freezing_nontransferability-IsHandled
    dispatch-IsHandled InstructionName.delegate_v2 =
        delegation_freezing_nontransferability-IsHandled
    dispatch-IsHandled InstructionName.freeze_v2 = delegation_freezing_nontransferability-IsHandled
    dispatch-IsHandled InstructionName.mint_v2 = mint-IsHandled
    dispatch-IsHandled InstructionName.set_collection_v2 = collection_verification-IsHandled
    dispatch-IsHandled InstructionName.set_non_transferable_v2 =
        delegation_freezing_nontransferability-IsHandled
    dispatch-IsHandled InstructionName.thaw_and_revoke_v2 =
        delegation_freezing_nontransferability-IsHandled
    dispatch-IsHandled InstructionName.thaw_v2 = delegation_freezing_nontransferability-IsHandled
    dispatch-IsHandled InstructionName.transfer_v2 = transfer-IsHandled
    dispatch-IsHandled InstructionName.unverify_creator_v2 = creator_verification-IsHandled
    dispatch-IsHandled InstructionName.update_asset_data_v2 = nothing-IsHandled
    dispatch-IsHandled InstructionName.update_metadata_v2 = update_metadata-IsHandled
    dispatch-IsHandled InstructionName.verify_creator_v2 = creator_verification-IsHandled

  handled :
      (b : InstructionBundle) (ix : BubblegumInstruction)
      → IsHandled x (writes_of x b ix) (handle_bubblegum_instruction x b ix)
  unfolding writes_of handle_bubblegum_instruction
  handled b ix = dispatch-IsHandled b (ix_str ix.instruction) ix ix.instruction

  -- If handling an instruction succeeds, the asset tables are changed by exactly the writes that its
  -- specification lists, in that order.
  pub refines :
      (b : InstructionBundle) (ix : BubblegumInstruction) (s : Session)
      → (handle_bubblegum_instruction x b ix s).0 ≡ ok tt
      → (handle_bubblegum_instruction x b ix s).1.db.assets
        ≡ run (apply_op x) (writes_of x b ix) s.db.assets
  refines b ix s h = ((handled b ix).makes.does.on_ok s tt h).1

  -- If handling an instruction fails with any error but that of the download notifier, whatever the
  -- database did, the asset tables are as they were.
  pub atomic :
      (b : InstructionBundle) (ix : BubblegumInstruction) (s : Session) (e : Error)
      → (handle_bubblegum_instruction x b ix s).0 ≡ err e
      → from_notifier e ≡ false
      → (handle_bubblegum_instruction x b ix s).1.db.assets ≡ s.db.assets
  atomic b ix s e h n = (handled b ix).undone s e h n
