-- ===== src/Accounts/Extensions.antt =====
-- program_transformers/src/token_extensions/mod.rs: the updates of Token-2022 accounts and mints,
-- with the extensions that blockbuster/src/programs/token_extensions/mod.rs parses. An extension is
-- here the JSON that its type serializes to.
pub mod Stored
use digital_asset_rpc_infras.Base.{
  ℕ, Bool, true, false, ◌||◌, Option, none, some, String, if◌then◌else◌, is_some, map_option,
}
use digital_asset_rpc_infras.Base.Int.{ℤ, pos, ltb_ℤ, leb_ℤ, as_i64}
use digital_asset_rpc_infras.Base.Text.{is_empty}
use digital_asset_rpc_infras.Db.Json.{JsonValue, JsonFields, null, object, end, field}
use digital_asset_rpc_infras.Db.Versioned.{newer}
use digital_asset_rpc_infras.Db.Table.{upsert, nat_key}
use digital_asset_rpc_infras.Db.Tokens.{Pubkey, Token, TokenAccount, TokenTables}
use digital_asset_rpc_infras.Db.Schema.{
  ChainMutability, Mutability, Asset, default_asset, AssetData, AssetTables,
}
use digital_asset_rpc_infras.Db.Trigger.{update_slot_updated}
use digital_asset_rpc_infras.Db.Session.{
  Exec, DownloadMetadataInfo, storage_write_error, not_implemented, execute_tokens, execute_assets,
  transaction, pure, raise, notify, ◌>>=◌, ◌>>◌,
}
use digital_asset_rpc_infras.Accounts.Upserts.{
  AssetMintAccountColumns, upsert_assets_mint_account_columns,
}
use digital_asset_rpc_infras.Accounts.Json.{filter_non_null_fields}
use digital_asset_rpc_infras.Accounts.Token.{
  AccountInfo, SplAccount, SplMint, token_account_row, token_row, update_owner,
}

-- `value` is what the whole serializes to.
pub record ShadowMetadata : Type 0 where
  pub name : String
  pub symbol : String
  pub uri : String
  pub value : JsonValue

pub record MintAccountExtensions : Type 0 where
  pub default_account_state : Option JsonValue
  pub confidential_transfer_mint : Option JsonValue
  pub confidential_transfer_fee_config : Option JsonValue
  pub interest_bearing_config : Option JsonValue
  pub transfer_fee_config : Option JsonValue
  pub mint_close_authority : Option JsonValue
  pub permanent_delegate : Option JsonValue
  pub metadata_pointer : Option JsonValue
  pub metadata : Option ShadowMetadata
  pub transfer_hook : Option JsonValue
  pub group_pointer : Option JsonValue
  pub token_group : Option JsonValue
  pub group_member_pointer : Option JsonValue
  pub token_group_member : Option JsonValue
  pub non_transferable : Option Bool
  pub immutable_owner : Option Bool

unfoldable pub mint_extensions_is_some : MintAccountExtensions → Bool
mint_extensions_is_some e =
    is_some e.default_account_state
    || is_some e.confidential_transfer_mint
    || is_some e.confidential_transfer_fee_config
    || is_some e.interest_bearing_config
    || is_some e.transfer_fee_config
    || is_some e.mint_close_authority
    || is_some e.permanent_delegate
    || is_some e.metadata_pointer
    || is_some e.metadata
    || is_some e.transfer_hook
    || is_some e.group_pointer
    || is_some e.token_group
    || is_some e.group_member_pointer
    || is_some e.token_group_member

pub record TokenAccountExtensions : Type 0 where
  pub confidential_transfer : Option JsonValue
  pub cpi_guard : Option JsonValue
  pub memo_transfer : Option JsonValue
  pub transfer_fee_amount : Option JsonValue
  pub immutable_owner : Option Bool
  pub non_transferable_account : Option Bool

unfoldable pub account_extensions_is_some : TokenAccountExtensions → Bool
account_extensions_is_some e =
    is_some e.confidential_transfer
    || is_some e.cpi_guard
    || is_some e.memo_transfer
    || is_some e.transfer_fee_amount

-- The derived `Serialize` writes a field that is `None` as null.
abbrev pub or_null : Option JsonValue → JsonValue
or_null none = null
or_null (some v) = v

abbrev pub flag : Option Bool → JsonValue
flag b = or_null (map_option JsonValue.bool b)

unfoldable pub mint_extensions_value : MintAccountExtensions → JsonFields
mint_extensions_value e = field "default_account_state" (or_null e.default_account_state) (
    field "confidential_transfer_mint" (or_null e.confidential_transfer_mint) (
      field "confidential_transfer_fee_config" (or_null e.confidential_transfer_fee_config) (
        field "interest_bearing_config" (or_null e.interest_bearing_config) (
          field "transfer_fee_config" (or_null e.transfer_fee_config) (
            field "mint_close_authority" (or_null e.mint_close_authority) (
              field "permanent_delegate" (or_null e.permanent_delegate) (
                field "metadata_pointer" (or_null e.metadata_pointer) (
                  field "metadata" (or_null (map_option (λ m. m.value) e.metadata)) (
                    field "transfer_hook" (or_null e.transfer_hook) (
                      field "group_pointer" (or_null e.group_pointer) (
                        field "token_group" (or_null e.token_group) (
                          field "group_member_pointer" (or_null e.group_member_pointer) (
                            field "token_group_member" (or_null e.token_group_member) (
                              field "non_transferable" (flag e.non_transferable)
                                (field "immutable_owner" (flag e.immutable_owner) end)))))))))))))))

unfoldable pub account_extensions_value : TokenAccountExtensions → JsonFields
account_extensions_value e = field "confidential_transfer" (or_null e.confidential_transfer) (
    field "cpi_guard" (or_null e.cpi_guard) (
      field "memo_transfer" (or_null e.memo_transfer) (
        field "transfer_fee_amount" (or_null e.transfer_fee_amount) (
          field "immutable_owner" (flag e.immutable_owner)
            (field "non_transferable_account" (flag e.non_transferable_account) end)))))

-- The extensions columns.
unfoldable pub mint_extensions_column : MintAccountExtensions → Option JsonValue
unfolding mint_extensions_is_some mint_extensions_value
mint_extensions_column e =
    if mint_extensions_is_some e
    then filter_non_null_fields (object (mint_extensions_value e))
    else none

unfoldable pub account_extensions_column : TokenAccountExtensions → Option JsonValue
unfolding account_extensions_is_some account_extensions_value
account_extensions_column e =
    if account_extensions_is_some e
    then filter_non_null_fields (object (account_extensions_value e))
    else none

-- On a conflict every column is set.
unfoldable pub write_extended_account : Pubkey → TokenAccount → TokenTables → TokenTables
write_extended_account key new t = record t {
  token_accounts =
      upsert key new (λ old. if ltb_ℤ old.slot_updated new.slot_updated then new else old)
        t.token_accounts;
}

unfoldable pub write_extended_token : Pubkey → Token → TokenTables → TokenTables
write_extended_token key new t = record t {
  tokens =
      upsert key new (λ old. if leb_ℤ old.slot_updated new.slot_updated then new else old) t.tokens;
}

-- A fresh row takes the defaults of the table for `metadata_mutability` and `reindex`.
unfoldable pub shadow_data : ShadowMetadata → ℤ → AssetData
shadow_data m slot = record {
  chain_data_mutability = ChainMutability.mutable;
  chain_data = m.value;
  metadata_url = m.uri;
  metadata_mutability = Mutability.mutable;
  metadata = JsonValue.string "processing";
  slot_updated = slot;
  reindex = some false;
  raw_name = some m.name;
  raw_symbol = some m.symbol;
  base_info_seq = some (pos 0);
}

unfoldable pub write_shadow_data : ℕ → ShadowMetadata → ℤ → AssetTables → AssetTables
unfolding shadow_data
write_shadow_data id m slot t =
    let new = shadow_data m slot in
    record t {
      asset_data =
          upsert id new
            (λ old.
              if leb_ℤ old.slot_updated slot
              then record new {
                metadata = old.metadata;
                metadata_mutability = old.metadata_mutability;
                reindex = old.reindex;
              }
              else old)
            t.asset_data;
    }

-- `upsert_assets_metadata_cols`: only the slot.
unfoldable pub write_metadata_slot : ℕ → ℤ → AssetTables → AssetTables
write_metadata_slot mint slot t =
    let set = λ (r : Asset). record r { slot_updated_metadata_account = some slot } in
    record t {
      asset =
          upsert mint (set default_asset)
            (λ r.
              if newer slot r.slot_updated_metadata_account then update_slot_updated (set r) else r)
            t.asset;
    }

unfoldable pub upsert_shadow_data : ShadowMetadata → ℕ → ℤ → Exec (Option DownloadMetadataInfo)
unfolding write_shadow_data write_metadata_slot
upsert_shadow_data m key slot = do
  execute_assets storage_write_error (write_shadow_data key m slot)
  transaction (execute_assets storage_write_error (write_metadata_slot key slot))
  pure (if is_empty m.uri then none else some (record { asset_data_id = key; uri = m.uri }))

pub data TokenExtensionsProgramEntity : Type 0 where
  token_account : SplAccount → TokenAccountExtensions → TokenExtensionsProgramEntity
  mint_account : SplMint → MintAccountExtensions → TokenExtensionsProgramEntity
  close_ix : Pubkey → TokenExtensionsProgramEntity

-- `if let Some(info) = .. { download_metadata_notifier(info) }`
unfoldable pub notify_some :
    (DownloadMetadataInfo → Option String) → Option DownloadMetadataInfo → Exec (Unit {0})
notify_some notifier none = pure tt
notify_some notifier (some info) = notify notifier info

module _ (notifier : DownloadMetadataInfo → Option String) (info : AccountInfo) where
  unfoldable pub index_shadow_data : Option ShadowMetadata → Exec (Unit {0})
  unfolding upsert_shadow_data notify_some
  index_shadow_data none = pure tt
  index_shadow_data (some m) = do
    download ← upsert_shadow_data m info.pubkey (as_i64 info.slot)
    notify_some notifier download

  unfoldable pub handle_token_extensions_program_account :
      TokenExtensionsProgramEntity → Exec (Unit {0})
  unfolding mint_extensions_column account_extensions_column write_extended_account
      write_extended_token index_shadow_data
  handle_token_extensions_program_account (TokenExtensionsProgramEntity.token_account ta e) = do
    execute_tokens storage_write_error (
        write_extended_account info.pubkey
          (record (token_account_row info ta) { extensions = account_extensions_column e }))
    update_owner info ta
  handle_token_extensions_program_account (TokenExtensionsProgramEntity.mint_account m e) = do
    execute_tokens storage_write_error (
        write_extended_token info.pubkey
          (record (token_row info m) { extensions = mint_extensions_column e }))
    transaction (
        upsert_assets_mint_account_columns storage_write_error (record {
          mint = info.pubkey;
          supply = m.supply;
          slot_updated_mint_account = as_i64 info.slot;
          extensions = mint_extensions_column e;
        }))
    index_shadow_data e.metadata
  handle_token_extensions_program_account (TokenExtensionsProgramEntity.close_ix _) =
      raise not_implemented
