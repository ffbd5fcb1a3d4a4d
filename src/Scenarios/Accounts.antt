-- ===== src/Scenarios/Accounts.antt =====
-- The accounts of one NFT and of a collection: what their updates do.
use mathlib.Core.List.{Permᴰ, Memᴰ}
use digital_asset_rpc_infras.Base.{
  ◌≡◌, ◌≢◌, refl, ap, true, false, none, some, [], ◌∷◌, arith, inr, if◌then◌else◌, map_option, ◌==◌,
  ◌↔◌, ℕ,
}
use digital_asset_rpc_infras.Base.Int.{pos, as_i64, ◌≤ℤ◌, pos_part}
use digital_asset_rpc_infras.Db.Json.{JsonValue}
use digital_asset_rpc_infras.Db.Table.{find, nat_key}
use digital_asset_rpc_infras.Db.Tokens.{TokenAccount, is_non_fungible}
use digital_asset_rpc_infras.Db.Schema.{OwnerType, empty_db}
use digital_asset_rpc_infras.Db.Session.{ok, query, transaction, commit, execute, pure, ◌>>=◌}
use digital_asset_rpc_infras.Scenarios.Transfers.{ext}
use digital_asset_rpc_infras.Accounts.Upserts.{upsert_assets_token_account_columns}
use digital_asset_rpc_infras.Accounts.Json.{is_null}
use digital_asset_rpc_infras.Accounts.Json.Kept.{HasField, fields_of}
use digital_asset_rpc_infras.Accounts.Retry.{or_retry, find_model_with_retry}
use digital_asset_rpc_infras.Accounts.Token.{
  TokenProgramEntity, found_non_fungible, update_owner, handle_token_program_account,
}
use digital_asset_rpc_infras.Accounts.Token.Owner.{IsOwned, owner_columns, owner_current}
use digital_asset_rpc_infras.Accounts.Token.Lost.{owner_at, owner_lost}
use digital_asset_rpc_infras.Accounts.Token.Order.{Update, handle_all, rows_of, accounts_order_free}
use digital_asset_rpc_infras.Accounts.Extensions.{
  MintAccountExtensions, TokenAccountExtensions, mint_extensions_is_some, mint_extensions_column,
  account_extensions_is_some, account_extensions_column,
}
use digital_asset_rpc_infras.Accounts.Extensions.Stored.{
  IsExtension, named_of_mint, named_of_account, stored_exactly,
}
use digital_asset_rpc_infras.Accounts.Close.{handle_token_program_close_ix}
use digital_asset_rpc_infras.Accounts.Close.Closed.{
  sound_on, burnt_row, rows_at, close_mint, close_frame,
}
use digital_asset_rpc_infras.Accounts.Metadata.{
  holds, index_token_account_data, upsert_found_account, newest_holder, later_account,
  save_v1_asset,
}
use digital_asset_rpc_infras.Accounts.Metadata.Class.{owner_type_of, class_of}
use digital_asset_rpc_infras.Accounts.Metadata.Class.Agree.{is_fungible, HasNoOwner, class_agrees}
use digital_asset_rpc_infras.Accounts.Metadata.Holder.{IsHolder, found_columns, owner_indexed}
use digital_asset_rpc_infras.Accounts.Metadata.Whole.{AllOrNone, save_v1_asset-AllOrNone}
use digital_asset_rpc_infras.Accounts.Dispatch.{ProgramParseResult}
use digital_asset_rpc_infras.Accounts.Dispatch.Forward.{update_all, slots_forward}
use digital_asset_rpc_infras.Accounts.Slots.{SlotsGrow}
use digital_asset_rpc_infras.Scenarios.Nft.{
  mint_info, account_info, nft_mint, nft_account, nft_token, held, known, metadata, attachments,
  broken,
}

slots_forward_example :
    SlotsGrow known
      (update_all ext attachments
        (λ s. s)
        ((
          mint_info,
          some (ok (ProgramParseResult.token_program_entity (TokenProgramEntity.mint nft_mint))),
        )
          ∷ (
            account_info,
            some (
                ok (
                  ProgramParseResult.token_program_entity
                    (TokenProgramEntity.token_account nft_account))),
          )
          ∷ [])
        broken).db
slots_forward_example =
    slots_forward ext attachments (λ s. s)
      ((
        mint_info,
        some (ok (ProgramParseResult.token_program_entity (TokenProgramEntity.mint nft_mint))),
      )
        ∷ (
          account_info,
          some (
              ok (
                ProgramParseResult.token_program_entity
                  (TokenProgramEntity.token_account nft_account))),
        )
        ∷ [])
      broken

save_v1_asset-AllOrNone_example :
    AllOrNone ext metadata 7 known (save_v1_asset ext attachments metadata 7 broken)
save_v1_asset-AllOrNone_example = save_v1_asset-AllOrNone ext attachments metadata 7 broken

is_nft : found_non_fungible (find 50 known.accounts.tokens) ≡ true
unfolding found_non_fungible is_non_fungible find
is_nft = refl

account_ok :
    (handle_token_program_account account_info
      (TokenProgramEntity.token_account nft_account)
      (sound_on known)).0
    ≡ ok tt
unfolding handle_token_program_account update_owner upsert_assets_token_account_columns query
    transaction commit execute pure ◌>>=◌ found_non_fungible is_non_fungible find
account_ok = refl

owner_current_example : IsOwned (owner_columns account_info nft_account) (as_i64 6) (
    find 50
      (handle_token_program_account account_info
        (TokenProgramEntity.token_account nft_account)
        (sound_on known)).1.db.assets.asset)
owner_current_example = owner_current account_info nft_account (sound_on known) is_nft account_ok

index_ok : (index_token_account_data 50 (sound_on known)).0 ≡ ok tt
unfolding index_token_account_data upsert_found_account newest_holder holds later_account
    find_model_with_retry or_retry query upsert_assets_token_account_columns execute pure ◌>>=◌
index_ok = refl

held-holds : holds 50 held ≡ true
unfolding holds
held-holds = refl

owner_indexed_example :
    (a : TokenAccount) × IsHolder 50 known.accounts.token_accounts a
    × (pos 6 ≤ℤ a.slot_updated)
    × IsOwned
        (found_columns 50 a)
        a.slot_updated
        (find 50 (index_token_account_data 50 (sound_on known)).1.db.assets.asset)
owner_indexed_example =
    owner_indexed 50 60 held (sound_on known) (Memᴰ.head refl) held-holds index_ok

not_nft : found_non_fungible (find 50 empty_db.accounts.tokens) ≡ false
unfolding found_non_fungible find
not_nft = refl

owner_lost_example :
    owner_at (
      find 50
        (handle_token_program_account mint_info
          (TokenProgramEntity.mint nft_mint)
          (handle_token_program_account account_info
            (TokenProgramEntity.token_account nft_account)
            (sound_on empty_db)).1).1.db.assets.asset)
    ≡ owner_at (find 50 empty_db.assets.asset)
owner_lost_example =
    owner_lost account_info mint_info nft_account nft_mint (sound_on empty_db) 50 not_nft

abbrev first_sale : Update
first_sale = (account_info, TokenProgramEntity.token_account nft_account)

abbrev second_sale : Update
second_sale = (
  record account_info { slot = 8 },
  TokenProgramEntity.token_account (record nft_account { owner = 78 }),
)

six_eight : as_i64 6 ≢ as_i64 8
unfolding as_i64
six_eight h = absurd (let p = ap pos_part h in omega arith)

accounts_order_free_example :
    rows_of 60 (handle_all (first_sale ∷ second_sale ∷ []) (sound_on empty_db)).db
    ≡ rows_of 60 (handle_all (second_sale ∷ first_sale ∷ []) (sound_on empty_db)).db
accounts_order_free_example =
    accounts_order_free {us = first_sale ∷ second_sale ∷ []} {vs = second_sale ∷ first_sale ∷ []}
      (Permᴰ.swap refl refl) ((inr six_eight, tt), (tt, tt)) 60 (sound_on empty_db) refl

mint_known : find 50 known.accounts.tokens ≡ some nft_token
unfolding find
mint_known = refl

close_mint_example :
    let e = (handle_token_program_close_ix 50 (sound_on known)).1.db in
    (find 50 e.accounts.tokens ≡ (if 50 == 50 then none else find 50 known.accounts.tokens))
    × (find 50 e.assets.asset ≡ (
        if 50 == 50
        then map_option burnt_row (find 50 known.assets.asset)
        else find 50 known.assets.asset))
    × (e.accounts.token_accounts ≡ known.accounts.token_accounts)
close_mint_example = close_mint 50 nft_token known 50 mint_known

fifty_sixty : ◌≢◌ {A = ℕ} 50 60
fifty_sixty h = absurd (omega arith)

close_frame_example :
    ((handle_token_program_close_ix 50 broken).0 ≡ ok tt)
    × (rows_at 60 (handle_token_program_close_ix 50 broken).1.db ≡ rows_at 60 known)
close_frame_example = close_frame 50 60 broken fifty_sixty

class_agrees_example :
    ((owner_type_of 50 none 1000 ≡ OwnerType.token) ↔ (is_fungible (class_of 50 none 1000) ≡ true))
    × ((owner_type_of 50 none 1000 ≡ OwnerType.unknown) ↔ HasNoOwner 50 none 1000)
class_agrees_example = class_agrees 50 none 1000

-- A mint of which nothing may be transferred, and nothing else.
abbrev soulbound : MintAccountExtensions
soulbound = record {
  default_account_state = none;
  confidential_transfer_mint = none;
  confidential_transfer_fee_config = none;
  interest_bearing_config = none;
  transfer_fee_config = none;
  mint_close_authority = none;
  permanent_delegate = none;
  metadata_pointer = none;
  metadata = none;
  transfer_hook = none;
  group_pointer = none;
  token_group = none;
  group_member_pointer = none;
  token_group_member = none;
  non_transferable = some true;
  immutable_owner = none;
}

abbrev guarded : TokenAccountExtensions
guarded = record {
  confidential_transfer = none;
  cpi_guard = some (JsonValue.bool true);
  memo_transfer = none;
  transfer_fee_amount = none;
  immutable_owner = none;
  non_transferable_account = none;
}

stored_exactly_example :
    (HasField "non_transferable"
        (JsonValue.bool true)
        (fields_of (mint_extensions_column soulbound))
      ↔ ((mint_extensions_is_some soulbound ≡ true)
          × IsExtension "non_transferable" (JsonValue.bool true) (named_of_mint soulbound)
          × (is_null (JsonValue.bool true) ≡ false)))
    × (HasField "non_transferable"
          (JsonValue.bool true)
          (fields_of (account_extensions_column guarded))
        ↔ ((account_extensions_is_some guarded ≡ true)
            × IsExtension "non_transferable" (JsonValue.bool true) (named_of_account guarded)
            × (is_null (JsonValue.bool true) ≡ false)))
stored_exactly_example = stored_exactly soulbound guarded "non_transferable" (JsonValue.bool true)
