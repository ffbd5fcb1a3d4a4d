-- ===== src/Accounts/Close.antt =====
-- program_transformers/src/lib.rs: `handle_token_program_close_ix`. `tokio::join!` polls its futures
-- in their order, and the two statements touch different tables; their outcomes are only logged.
pub mod Closed
use digital_asset_rpc_infras.Base.{ℕ, Bool, true, false, Option, none, some, if◌then◌else◌, is_some}
use digital_asset_rpc_infras.Db.Table.{find, delete, update, nat_key}
use digital_asset_rpc_infras.Db.Tokens.{Pubkey, Token, TokenTables}
use digital_asset_rpc_infras.Db.Schema.{Db, Asset, AssetTables}
use digital_asset_rpc_infras.Db.Trigger.{update_slot_updated}
use digital_asset_rpc_infras.Db.Session.{
  Exec, Result, ok, err, Session, storage_write_error, execute_tokens, execute_assets, query,
  ignore_error, pure, continue, ◌>>=◌, ◌>>◌,
}

-- `.await.ok().flatten()`
unfoldable pub ok_flatten : {A : Type 0} → Exec (Option A) → Exec (Option A)
ok_flatten m s = elim (m s).0 [ ok o ↦ (ok o, (m s).1) | err _ ↦ (ok none, (m s).1) ]

unfoldable pub delete_token : Pubkey → TokenTables → TokenTables
delete_token key t = record t { tokens = delete key t.tokens }

unfoldable pub delete_token_account : Pubkey → TokenTables → TokenTables
delete_token_account key t = record t { token_accounts = delete key t.token_accounts }

unfoldable pub burn_asset : Pubkey → AssetTables → AssetTables
burn_asset key t = record t {
  asset = update key (λ r. update_slot_updated (record r { burnt = true })) t.asset;
}

unfoldable pub handle_token_program_close_ix : Pubkey → Exec (Unit {0})
unfolding ok_flatten delete_token delete_token_account burn_asset
handle_token_program_close_ix acc_to_close = do
  mint ← ok_flatten (query storage_write_error (λ (d : Db). find acc_to_close d.accounts.tokens))
  if is_some mint
      then (do
        ignore_error (execute_tokens storage_write_error (delete_token acc_to_close))
        ignore_error (execute_assets storage_write_error (burn_asset acc_to_close)))
      else ignore_error (execute_tokens storage_write_error (delete_token_account acc_to_close))
