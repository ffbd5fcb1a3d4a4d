-- ===== src/Bubblegum/ChangeLog/Frame.antt =====
-- What saving a change log does outside the tables of trees.
use digital_asset_rpc_infras.Base.{ℕ, ◌+◌, Option, none, some, List, [], ◌∷◌, String}
use digital_asset_rpc_infras.Db.Session.Rules.{
  KeepsAssets, KeepsAssets-pure, KeepsAssets-raise, KeepsAssets-query, KeepsAssets-execute,
  KeepsAssets-ignore_error, KeepsAssets-bind, KeepsAssets-if, Does, Does-then_pure,
}
use digital_asset_rpc_infras.Bubblegum.Event.{PathNode, ChangeLogEventV1, Externals}
use digital_asset_rpc_infras.Bubblegum.ChangeLog.{
  insert_nodes, add_backfill, decode_tx, insert_change_log, save_changelog_event,
}

insert_nodes-KeepsAssets :
    (e : ChangeLogEventV1) (i : ℕ) (ps : List PathNode) → KeepsAssets (insert_nodes e i ps)
unfolding insert_nodes
insert_nodes-KeepsAssets e i [] = KeepsAssets-pure i
insert_nodes-KeepsAssets e i (p ∷ ps) =
    KeepsAssets-bind (KeepsAssets-execute _ _) (λ _. insert_nodes-KeepsAssets e (i + 1) ps)

add_backfill-KeepsAssets : (e : ChangeLogEventV1) (slot : ℕ) → KeepsAssets (add_backfill e slot)
unfolding add_backfill
add_backfill-KeepsAssets e slot =
    KeepsAssets-bind (KeepsAssets-query _ _) (λ _. KeepsAssets-execute _ _)

decode_tx-KeepsAssets : (o : Option (List ℕ)) → KeepsAssets (decode_tx o)
unfolding decode_tx
decode_tx-KeepsAssets none = KeepsAssets-raise _
decode_tx-KeepsAssets (some tx) = KeepsAssets-pure tx

module _ (x : Externals) (e : ChangeLogEventV1) (slot : ℕ) (txn_id instruction : String) where
  insert_change_log-KeepsAssets : KeepsAssets (insert_change_log x e slot txn_id instruction)
  unfolding insert_change_log
  insert_change_log-KeepsAssets = KeepsAssets-bind (insert_nodes-KeepsAssets e _ e.path) λ i.
      KeepsAssets-bind (decode_tx-KeepsAssets (x.bs58_decode txn_id)) λ tx.
        KeepsAssets-bind (KeepsAssets-ignore_error (KeepsAssets-execute _ _))
          λ _. KeepsAssets-if _ (add_backfill-KeepsAssets e slot) (KeepsAssets-pure tt)

  pub save_changelog_event-KeepsAssets :
      KeepsAssets (save_changelog_event x e slot txn_id instruction)
  unfolding save_changelog_event
  save_changelog_event-KeepsAssets =
      KeepsAssets-bind insert_change_log-KeepsAssets (λ _. KeepsAssets-pure e.seq)

pub save_changelog_event-Does :
    (x : Externals) (e : ChangeLogEventV1) (slot : ℕ) (txn_id instruction : String)
    → Does (λ t. t) e.seq (save_changelog_event x e slot txn_id instruction)
unfolding save_changelog_event
save_changelog_event-Does x e slot txn_id instruction =
    Does-then_pure e.seq (insert_change_log-KeepsAssets x e slot txn_id instruction)
