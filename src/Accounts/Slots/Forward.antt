-- ===== src/Accounts/Slots/Forward.antt =====
-- Blocks of statements that move no slot back, whatever fails.
use digital_asset_rpc_infras.Base.{String, Bool, if◌then◌else◌}
use digital_asset_rpc_infras.Db.Tokens.{TokenTables}
use digital_asset_rpc_infras.Db.Schema.{Db, AssetTables}
use digital_asset_rpc_infras.Db.Session.{
  Error, Exec, execute_assets, execute_tokens, query, pure, raise, transaction, ◌>>=◌,
}
use digital_asset_rpc_infras.Db.Session.Monotone.{
  Moves, Moves-pure, Moves-raise, Moves-query, Moves-execute, Moves-transaction, Moves-bind,
  Moves-if,
}
use digital_asset_rpc_infras.Accounts.Upserts.{
  AssetTokenAccountColumns, AssetMintAccountColumns, AssetMetadataAccountColumns,
  upsert_assets_token_account_columns, upsert_assets_mint_account_columns,
  upsert_assets_metadata_account_columns,
}
use digital_asset_rpc_infras.Accounts.Slots.{SlotsGrow, SlotsGrow-refl, SlotsGrow-trans}
use digital_asset_rpc_infras.Accounts.Slots.Writes.{
  write_token_account-SlotsGrow, write_mint_account-SlotsGrow, write_metadata_account-SlotsGrow,
}

-- The block moves no slot back.
abbrev pub IsForward : {A : Type 0} → Exec A → Type 0
IsForward m = Moves SlotsGrow SlotsGrow-refl SlotsGrow-trans m

module _ {A : Type 0} where
  pub IsForward-pure : (a : A) → IsForward (pure a)
  IsForward-pure a = Moves-pure SlotsGrow SlotsGrow-refl SlotsGrow-trans a

  pub IsForward-raise : (e : Error) → IsForward {A = A} (raise e)
  IsForward-raise e = Moves-raise SlotsGrow SlotsGrow-refl SlotsGrow-trans e

  pub IsForward-query : (w : String → Error) (f : Db → A) → IsForward (query w f)
  IsForward-query w f = Moves-query SlotsGrow SlotsGrow-refl SlotsGrow-trans w f

  pub IsForward-transaction : {m : Exec A} → IsForward m → IsForward (transaction m)
  IsForward-transaction {m} h = Moves-transaction SlotsGrow SlotsGrow-refl SlotsGrow-trans m h

  pub IsForward-if :
      (b : Bool) {m n : Exec A} → IsForward m → IsForward n → IsForward (if b then m else n)
  IsForward-if b {m} {n} h g = Moves-if SlotsGrow SlotsGrow-refl SlotsGrow-trans b m n h g

pub IsForward-bind :
    {A B : Type 0} {m : Exec A} {k : A → Exec B}
    → IsForward m
    → ((a : A) → IsForward (k a))
    → IsForward (m >>= k)
IsForward-bind {m} {k} h g = Moves-bind SlotsGrow SlotsGrow-refl SlotsGrow-trans m k h g

pub IsForward-assets :
    (w : String → Error) (f : AssetTables → AssetTables)
    → ((d : Db) → SlotsGrow d (record d { assets = f d.assets }))
    → IsForward (execute_assets w f)
IsForward-assets w f h = Moves-execute SlotsGrow SlotsGrow-refl SlotsGrow-trans w _ h

pub IsForward-tokens :
    (w : String → Error) (f : TokenTables → TokenTables)
    → ((d : Db) → SlotsGrow d (record d { accounts = f d.accounts }))
    → IsForward (execute_tokens w f)
IsForward-tokens w f h = Moves-execute SlotsGrow SlotsGrow-refl SlotsGrow-trans w _ h

-- The three upserts of asset_upserts.rs.
pub owner_columns-IsForward :
    (w : String → Error) (c : AssetTokenAccountColumns)
    → IsForward (upsert_assets_token_account_columns w c)
unfolding upsert_assets_token_account_columns
owner_columns-IsForward w c = IsForward-assets w _ (write_token_account-SlotsGrow c)

pub mint_columns-IsForward :
    (w : String → Error) (c : AssetMintAccountColumns)
    → IsForward (upsert_assets_mint_account_columns w c)
unfolding upsert_assets_mint_account_columns
mint_columns-IsForward w c = IsForward-assets w _ (write_mint_account-SlotsGrow c)

pub metadata_columns-IsForward :
    (w : String → Error) (c : AssetMetadataAccountColumns)
    → IsForward (upsert_assets_metadata_account_columns w c)
unfolding upsert_assets_metadata_account_columns
metadata_columns-IsForward w c = IsForward-assets w _ (write_metadata_account-SlotsGrow c)
