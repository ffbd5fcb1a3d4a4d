-- ===== src/Bubblegum/Handlers/Saved.antt =====
-- Refusals, and the change log followed by one transaction: what they write, and that they are atomic.
use digital_asset_rpc_infras.Base.{ℕ, List, String}
use digital_asset_rpc_infras.Db.Session.{Exec, Error, raise, transaction, ◌>>=◌}
use digital_asset_rpc_infras.Db.Session.Rules.{
  Does-bind, Does-transaction, IsAtomic, IsAtomic-bind, IsAtomic-keeps, IsAtomic-transaction,
  KeepsAssets-raise,
}
use digital_asset_rpc_infras.Bubblegum.Event.{ChangeLogEventV1, InstructionBundle, Externals}
use digital_asset_rpc_infras.Bubblegum.ChangeLog.{save_changelog_event}
use digital_asset_rpc_infras.Bubblegum.ChangeLog.Frame.{
  save_changelog_event-Does, save_changelog_event-KeepsAssets,
}
use digital_asset_rpc_infras.Bubblegum.Effects.{TableOp}
use digital_asset_rpc_infras.Bubblegum.Upserts.Statements.{Makes}
use digital_asset_rpc_infras.Bubblegum.Handlers.{not_parsed}

module _ {A : Type 0} (x : Externals) where
  -- What is refused makes no writes, since it never succeeds.
  pub raise-Makes : (e : Error) (ops : List TableOp) (a : A) → Makes x ops a (raise e)
  unfolding raise
  raise-Makes e ops a = record { does = record { on_ok = λ s b h. cc } }

  pub not_parsed-Makes : (ops : List TableOp) (a : A) → Makes x ops a not_parsed
  unfolding not_parsed
  not_parsed-Makes ops a = raise-Makes _ ops a

pub not_parsed-IsAtomic : {A : Type 0} → IsAtomic {A = A} not_parsed
unfolding not_parsed
not_parsed-IsAtomic = IsAtomic-keeps (KeepsAssets-raise _)

module _ (x : Externals) (b : InstructionBundle) (instruction : String) where
  -- The change log first, then one transaction.
  pub saved-Makes :
      {A : Type 0} {ops : List TableOp} {a : A} (cl : ChangeLogEventV1) (body : ℕ → Exec A)
      → Makes x ops a (body cl.seq)
      → Makes x ops a
          (save_changelog_event x cl b.slot b.txn_id instruction >>= λ s. transaction (body s))
  saved-Makes cl body d = record {
    does =
        Does-bind _ (save_changelog_event-Does x cl b.slot b.txn_id instruction)
          (Does-transaction d.does);
  }

  pub saved-IsAtomic :
      {A : Type 0} (cl : ChangeLogEventV1) (body : ℕ → Exec A)
      → IsAtomic
          (save_changelog_event x cl b.slot b.txn_id instruction >>= λ s. transaction (body s))
  saved-IsAtomic cl body =
      IsAtomic-bind (save_changelog_event-KeepsAssets x cl b.slot b.txn_id instruction)
        (λ s. IsAtomic-transaction (body s))

  -- A second leaf schema is refused only after the change log is saved.
  pub refused-IsAtomic :
      {A : Type 0} (cl : ChangeLogEventV1) (e : Error)
      → IsAtomic {A = A} (save_changelog_event x cl b.slot b.txn_id instruction >>= λ _. raise e)
  refused-IsAtomic cl e =
      IsAtomic-bind (save_changelog_event-KeepsAssets x cl b.slot b.txn_id instruction)
        (λ _. IsAtomic-keeps (KeepsAssets-raise e))
