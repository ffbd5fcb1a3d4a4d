-- ===== src/Accounts/Token.antt =====
-- program_transformers/src/token/mod.rs: the updates of SPL token accounts and mints.
pub mod Owner
pub mod Lost
pub mod Order
use digital_asset_rpc_infras.Base.{ℕ, Bool, true, false, Option, none, some, if◌then◌else◌}
use digital_asset_rpc_infras.Base.Int.{ℤ, ltb_ℤ, leb_ℤ, as_i64}
use digital_asset_rpc_infras.Db.Table.{find, upsert, nat_key}
use digital_asset_rpc_infras.Db.Tokens.{Pubkey, Token, TokenAccount, TokenTables, is_non_fungible}
use digital_asset_rpc_infras.Db.Schema.{Db}
use digital_asset_rpc_infras.Db.Session.{
  Exec, storage_write_error, not_implemented, execute_tokens, query, transaction, pure, raise,
  ◌>>=◌, ◌>>◌,
}
use digital_asset_rpc_infras.Accounts.Upserts.{
  AssetTokenAccountColumns, AssetMintAccountColumns, upsert_assets_token_account_columns,
  upsert_assets_mint_account_columns,
}

-- program_transformers/src/lib.rs, without the bytes, which the parser has read.
pub record AccountInfo : Type 0 where
  pub slot : ℕ
  pub pubkey : Pubkey
  pub owner : Pubkey

-- What spl_token unpacks.
pub data AccountState : Type 0 where
  uninitialized initialized frozen : AccountState

pub record SplAccount : Type 0 where
  pub mint : Pubkey
  pub owner : Pubkey
  pub amount : ℕ
  pub delegate : Option Pubkey
  pub state : AccountState
  pub delegated_amount : ℕ

pub record SplMint : Type 0 where
  pub mint_authority : Option Pubkey
  pub supply : ℕ
  pub decimals : ℕ
  pub freeze_authority : Option Pubkey

-- blockbuster/src/programs/token_account/mod.rs
pub data TokenProgramEntity : Type 0 where
  mint : SplMint → TokenProgramEntity
  token_account : SplAccount → TokenProgramEntity
  close_ix : Pubkey → TokenProgramEntity

unfoldable pub is_frozen : AccountState → Bool
is_frozen AccountState.frozen = true
is_frozen AccountState.uninitialized = false
is_frozen AccountState.initialized = false

unfoldable pub token_account_row : AccountInfo → SplAccount → TokenAccount
unfolding is_frozen
token_account_row info ta = record {
  mint = ta.mint;
  amount = as_i64 ta.amount;
  owner = ta.owner;
  frozen = is_frozen ta.state;
  close_authority = none;
  delegate = ta.delegate;
  delegated_amount = as_i64 ta.delegated_amount;
  slot_updated = as_i64 info.slot;
  token_program = info.owner;
  extensions = none;
}

-- On a conflict every column but `extensions` is set, if the slot is greater.
unfoldable pub token_account_conflict : TokenAccount → TokenAccount → TokenAccount
token_account_conflict new old =
    if ltb_ℤ old.slot_updated new.slot_updated
    then record new { extensions = old.extensions }
    else old

unfoldable pub write_token_accounts : Pubkey → TokenAccount → TokenTables → TokenTables
unfolding token_account_conflict
write_token_accounts key new t = record t {
  token_accounts = upsert key new (token_account_conflict new) t.token_accounts;
}

unfoldable pub token_row : AccountInfo → SplMint → Token
token_row info m = record {
  supply = m.supply;
  decimals = m.decimals;
  token_program = info.owner;
  mint_authority = m.mint_authority;
  freeze_authority = m.freeze_authority;
  close_authority = none;
  extension_data = none;
  slot_updated = as_i64 info.slot;
  extensions = none;
}

-- On a conflict every column but `extensions` is set, unless the slot is smaller.
unfoldable pub token_conflict : Token → Token → Token
token_conflict new old =
    if leb_ℤ old.slot_updated new.slot_updated
    then record new { extensions = old.extensions }
    else old

unfoldable pub write_tokens : Pubkey → Token → TokenTables → TokenTables
unfolding token_conflict
write_tokens key new t = record t { tokens = upsert key new (token_conflict new) t.tokens }

-- `token.map(|t| t.is_non_fungible()).unwrap_or(false)`
unfoldable pub found_non_fungible : Option Token → Bool
unfolding is_non_fungible
found_non_fungible none = false
found_non_fungible (some t) = is_non_fungible t

-- The query for the mint, and the owner's columns of `asset` if it is that of an NFT.
unfoldable pub update_owner : AccountInfo → SplAccount → Exec (Unit {0})
unfolding found_non_fungible is_frozen upsert_assets_token_account_columns
update_owner info ta = do
  token ← query storage_write_error (λ (d : Db). find ta.mint d.accounts.tokens)
  if found_non_fungible token
      then transaction (
          upsert_assets_token_account_columns storage_write_error (record {
            mint = ta.mint;
            owner = some ta.owner;
            frozen = is_frozen ta.state;
            delegate = ta.delegate;
            slot_updated_token_account = some (as_i64 info.slot);
          }))
      else pure tt

unfoldable pub handle_token_program_account : AccountInfo → TokenProgramEntity → Exec (Unit {0})
unfolding token_account_row write_token_accounts update_owner token_row write_tokens
    upsert_assets_mint_account_columns
handle_token_program_account info (TokenProgramEntity.token_account ta) = do
  execute_tokens storage_write_error (write_token_accounts info.pubkey (token_account_row info ta))
  update_owner info ta
handle_token_program_account info (TokenProgramEntity.mint m) = do
  execute_tokens storage_write_error (write_tokens info.pubkey (token_row info m))
  transaction (
      upsert_assets_mint_account_columns storage_write_error (record {
        mint = info.pubkey;
        supply = m.supply;
        slot_updated_mint_account = as_i64 info.slot;
        extensions = none;
      }))
handle_token_program_account info (TokenProgramEntity.close_ix _) = raise not_implemented
