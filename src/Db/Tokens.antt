-- ===== src/Db/Tokens.antt =====
-- The rows of the token program and of the accounts attached to a mint: tokens.rs,
-- token_accounts.rs and asset_v1_account_attachments.rs of digital_asset_types/src/dao/generated.
use digital_asset_rpc_infras.Base.{ℕ, Bool, ◌&&◌, ◌==◌, Option}
use digital_asset_rpc_infras.Base.Int.{ℤ}
use digital_asset_rpc_infras.Db.Json.{JsonValue}
use digital_asset_rpc_infras.Db.Table.{Table}

abbrev pub Pubkey : Type 0
Pubkey = ℕ

-- The supply is a `Decimal` without fraction.
pub record Token : Type 0 where
  pub supply : ℕ
  pub decimals : ℕ
  pub token_program : Pubkey
  pub mint_authority : Option Pubkey
  pub freeze_authority : Option Pubkey
  pub close_authority : Option Pubkey
  pub extension_data : Option ℕ
  pub slot_updated : ℤ
  pub extensions : Option JsonValue

unfoldable pub is_non_fungible : Token → Bool
is_non_fungible t = t.decimals == 0 && t.supply == 1

pub record TokenAccount : Type 0 where
  pub mint : Pubkey
  pub amount : ℤ
  pub owner : Pubkey
  pub frozen : Bool
  pub close_authority : Option Pubkey
  pub delegate : Option Pubkey
  pub delegated_amount : ℤ
  pub slot_updated : ℤ
  pub token_program : Pubkey
  pub extensions : Option JsonValue

pub data V1AccountAttachments : Type 0 where
  edition edition_marker master_edition_v1 master_edition_v2 : V1AccountAttachments
  token_inscription unknown : V1AccountAttachments

pub record Attachment : Type 0 where
  pub asset_id : Option ℕ
  pub attachment_type : V1AccountAttachments
  pub initialized : Bool
  pub data_column : Option JsonValue
  pub slot_updated : ℤ

-- Keyed by the mint, by the address of the account, and by the address of the edition.
pub record TokenTables : Type 0 where
  pub tokens : Table Pubkey Token
  pub token_accounts : Table Pubkey TokenAccount
  pub asset_v1_account_attachments : Table Pubkey Attachment
