-- ===== src/Accounts/Retry.antt =====
-- program_transformers/src/lib.rs: `find_model_with_retry`. A wait and a query for each interval;
-- a session has no other writer, so here a retry differs from the first query in its outcome only.
use digital_asset_rpc_infras.Base.{ℕ, Option, none, some, List, [], ◌∷◌, String}
use digital_asset_rpc_infras.Db.Schema.{Db}
use digital_asset_rpc_infras.Db.Session.{Error, Exec, query, pure, ◌>>=◌}

module _ {A : Type 0} where
  unfoldable pub or_retry : Exec (Option A) → Option A → Exec (Option A)
  or_retry rest none = rest
  or_retry rest (some m) = pure (some m)

  unfoldable pub find_model_with_retry :
      (String → Error) → (Db → Option A) → List ℕ → Exec (Option A)
  unfolding or_retry
  find_model_with_retry wrap select [] = pure none
  find_model_with_retry wrap select (interval ∷ retry_intervals) = do
    model ← query wrap select
    or_retry (find_model_with_retry wrap select retry_intervals) model
