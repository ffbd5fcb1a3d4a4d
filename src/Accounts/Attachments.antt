-- ===== src/Accounts/Attachments.antt =====
-- The statements on `asset_v1_account_attachments`: master_edition.rs and the end of v1_asset.rs in
-- program_transformers/src/token_metadata, and program_transformers/src/token_inscription/mod.rs.
use digital_asset_rpc_infras.Base.{ℕ, true, false, Option, none, some, String, if◌then◌else◌}
use digital_asset_rpc_infras.Base.Int.{ℤ, ltb_ℤ, leb_ℤ, as_i64}
use digital_asset_rpc_infras.Db.Json.{JsonValue}
use digital_asset_rpc_infras.Db.Table.{upsert, insert_or_keep, nat_key}
use digital_asset_rpc_infras.Db.Tokens.{Pubkey, V1AccountAttachments, Attachment, TokenTables}
use digital_asset_rpc_infras.Db.Session.{
  Exec, storage_write_error, parsing_error, execute_tokens, raise,
}
use digital_asset_rpc_infras.Accounts.Token.{AccountInfo}

-- The accounts that mpl_token_metadata unpacks; `key` is the number of the account's kind.
pub record MasterEdition : Type 0 where
  pub key : ℕ
  pub supply : ℕ
  pub max_supply : Option ℕ

pub record DeprecatedMasterEditionV1 : Type 0 where
  pub supply : ℕ
  pub max_supply : Option ℕ
  pub printing_mint : Pubkey
  pub one_time_printing_authorization_mint : Pubkey

pub record Edition : Type 0 where
  pub parent : Pubkey
  pub edition : ℕ

-- What other crates supply: the number of `Key::MasterEditionV1`, the serde forms, the address of
-- a mint's master edition, and `Pubkey::from_str`.
pub record AttachmentExternals : Type 0 where
  pub master_edition_v1_key : ℕ
  pub master_edition_value : MasterEdition → JsonValue
  pub edition_value : Edition → JsonValue
  pub find_pda : Pubkey → Pubkey
  pub pubkey_from_str : String → Option Pubkey
  pub parse_error : String

unfoldable pub new_attachment : V1AccountAttachments → Option JsonValue → ℤ → Attachment
new_attachment version value slot = record {
  asset_id = none;
  attachment_type = version;
  initialized = false;
  data_column = value;
  slot_updated = slot;
}

-- A conflict keeps `asset_id` and `initialized`.
unfoldable pub edition_conflict : V1AccountAttachments → JsonValue → ℤ → Attachment → Attachment
edition_conflict version value slot old =
    if leb_ℤ old.slot_updated slot
    then record old { attachment_type = version; data_column = some value; slot_updated = slot }
    else old

unfoldable pub write_edition :
    V1AccountAttachments → Pubkey → JsonValue → ℤ → TokenTables → TokenTables
unfolding new_attachment edition_conflict
write_edition version id value slot t = record t {
  asset_v1_account_attachments =
      upsert id (new_attachment version (some value) slot) (edition_conflict version value slot)
        t.asset_v1_account_attachments;
}

module _ (c : AttachmentExternals) where
  unfoldable pub save_master_edition :
      V1AccountAttachments → Pubkey → ℕ → MasterEdition → Exec (Unit {0})
  unfolding write_edition
  save_master_edition version id slot me_data =
      execute_tokens storage_write_error
        (write_edition version id (c.master_edition_value me_data) (as_i64 slot))

  unfoldable pub save_v2_master_edition : Pubkey → ℕ → MasterEdition → Exec (Unit {0})
  unfolding save_master_edition
  save_v2_master_edition id slot me_data =
      save_master_edition V1AccountAttachments.master_edition_v2 id slot me_data

  unfoldable pub save_v1_master_edition : Pubkey → ℕ → DeprecatedMasterEditionV1 → Exec (Unit {0})
  unfolding save_master_edition
  save_v1_master_edition id slot me_data =
      save_master_edition V1AccountAttachments.master_edition_v1 id slot (record {
        key = c.master_edition_v1_key;
        supply = me_data.supply;
        max_supply = me_data.max_supply;
      })

  unfoldable pub save_edition : Pubkey → ℕ → Edition → Exec (Unit {0})
  unfolding write_edition
  save_edition id slot e_data =
      execute_tokens storage_write_error
        (write_edition V1AccountAttachments.edition id (c.edition_value e_data) (as_i64 slot))

  -- The row that is there before its account is seen.
  unfoldable pub insert_attachment : Pubkey → ℤ → TokenTables → TokenTables
  unfolding new_attachment
  insert_attachment mint slot t = record t {
    asset_v1_account_attachments =
        insert_or_keep (c.find_pda mint)
          (new_attachment V1AccountAttachments.master_edition_v2 none slot)
          t.asset_v1_account_attachments;
  }

  -- A conflict sets `asset_id` only.
  unfoldable pub attach_asset : Pubkey → ℤ → TokenTables → TokenTables
  unfolding new_attachment
  attach_asset mint slot t = record t {
    asset_v1_account_attachments =
        upsert (c.find_pda mint)
          (record (new_attachment V1AccountAttachments.master_edition_v2 none slot) {
            asset_id = some mint;
          })
          (λ old. record old { asset_id = some mint }) t.asset_v1_account_attachments;
  }

  unfoldable pub upsert_asset_v1_account_attachments : Pubkey → ℕ → Exec (Unit {0})
  unfolding attach_asset
  upsert_asset_v1_account_attachments mint_pubkey slot =
      execute_tokens storage_write_error (attach_asset mint_pubkey (as_i64 slot))

-- token_inscription/mod.rs; `value` is what the account serializes to, and `root` the text of the
-- key of the asset.
pub record InscriptionData : Type 0 where
  pub root : String
  pub value : JsonValue

unfoldable pub write_inscription : Pubkey → Pubkey → JsonValue → ℤ → TokenTables → TokenTables
write_inscription key asset value slot t = record t {
  asset_v1_account_attachments =
      upsert key
        (record {
          asset_id = some asset;
          attachment_type = V1AccountAttachments.token_inscription;
          initialized = true;
          data_column = some value;
          slot_updated = slot;
        })
        (λ old.
          if ltb_ℤ old.slot_updated slot
          then record old { data_column = some value; slot_updated = slot }
          else old)
        t.asset_v1_account_attachments;
}

module _ (c : AttachmentExternals) (info : AccountInfo) where
  -- `Pubkey::from_str(&data.root)`
  unfoldable pub upsert_inscription : JsonValue → Option Pubkey → Exec (Unit {0})
  unfolding write_inscription
  upsert_inscription value none = raise (parsing_error c.parse_error)
  upsert_inscription value (some asset) =
      execute_tokens storage_write_error
        (write_inscription info.pubkey asset value (as_i64 info.slot))

  unfoldable pub handle_token_inscription_program_update : InscriptionData → Exec (Unit {0})
  unfolding upsert_inscription
  handle_token_inscription_program_update i = upsert_inscription i.value (c.pubkey_from_str i.root)
