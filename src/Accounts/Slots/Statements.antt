-- ===== src/Accounts/Slots/Statements.antt =====
-- The statements of the handlers of editions, inscriptions, metadata and Token-2022 accounts move no
-- slot back.
use digital_asset_rpc_infras.Base.{ℕ, some, List}
use digital_asset_rpc_infras.Base.Int.{ℤ}
use digital_asset_rpc_infras.Db.Json.{JsonValue}
use digital_asset_rpc_infras.Db.Table.{nat_key}
use digital_asset_rpc_infras.Db.Tokens.{Pubkey, Token, TokenAccount, V1AccountAttachments}
use digital_asset_rpc_infras.Db.Schema.{Db, Asset, AssetData}
use digital_asset_rpc_infras.Bubblegum.Event.{Externals, Creator, Collection}
use digital_asset_rpc_infras.Db.Trigger.{update_slot_updated}
use digital_asset_rpc_infras.Accounts.Attachments.{
  AttachmentExternals, edition_conflict, write_edition, insert_attachment, attach_asset,
  write_inscription,
}
use digital_asset_rpc_infras.Accounts.Extensions.{
  ShadowMetadata, shadow_data, write_extended_account, write_extended_token, write_shadow_data,
  write_metadata_slot,
}
use digital_asset_rpc_infras.Accounts.Metadata.Statements.{
  strictly_newer, burn_set, write_burn, write_data, write_authority, write_collection,
  write_creators,
}
use digital_asset_rpc_infras.Accounts.Slots.{
  Later-refl, Grows-upsert, SlotsGrow, SlotsGrow-refl, token_slot, account_slot, attachment_slot,
  data_slot, owner_slot, mint_slot, metadata_slot,
}
use digital_asset_rpc_infras.Accounts.Slots.Writes.{
  SlotsGrow-asset, guarded_grows, ltb-Later, leb-Later, newer-Later,
}

pub write_extended_account-SlotsGrow :
    (key : Pubkey) (new : TokenAccount) (d : Db)
    → SlotsGrow d (record d { accounts = write_extended_account key new d.accounts })
unfolding write_extended_account
write_extended_account-SlotsGrow key new d =
    let same = SlotsGrow-refl d in
    record {
      tokens = same.tokens;
      token_accounts =
          Grows-upsert account_slot key new _ _
            (λ r. guarded_grows account_slot _ r new (ltb-Later r.slot_updated new.slot_updated));
      attachments = same.attachments;
      data_rows = same.data_rows;
      owners = same.owners;
      mints = same.mints;
      metadata_rows = same.metadata_rows;
    }

pub write_extended_token-SlotsGrow :
    (key : Pubkey) (new : Token) (d : Db)
    → SlotsGrow d (record d { accounts = write_extended_token key new d.accounts })
unfolding write_extended_token
write_extended_token-SlotsGrow key new d =
    let same = SlotsGrow-refl d in
    record {
      tokens =
          Grows-upsert token_slot key new _ _
            (λ r. guarded_grows token_slot _ r new (leb-Later r.slot_updated new.slot_updated));
      token_accounts = same.token_accounts;
      attachments = same.attachments;
      data_rows = same.data_rows;
      owners = same.owners;
      mints = same.mints;
      metadata_rows = same.metadata_rows;
    }

pub write_edition-SlotsGrow :
    (version : V1AccountAttachments) (id : Pubkey) (value : JsonValue) (slot : ℤ) (d : Db)
    → SlotsGrow d (record d { accounts = write_edition version id value slot d.accounts })
unfolding write_edition edition_conflict
write_edition-SlotsGrow version id value slot d =
    let same = SlotsGrow-refl d in
    record {
      tokens = same.tokens;
      token_accounts = same.token_accounts;
      attachments =
          Grows-upsert attachment_slot id _ (edition_conflict version value slot) _
            (λ r. guarded_grows attachment_slot _ r _ (leb-Later r.slot_updated slot));
      data_rows = same.data_rows;
      owners = same.owners;
      mints = same.mints;
      metadata_rows = same.metadata_rows;
    }

pub insert_attachment-SlotsGrow :
    (c : AttachmentExternals) (mint : Pubkey) (slot : ℤ) (d : Db)
    → SlotsGrow d (record d { accounts = insert_attachment c mint slot d.accounts })
unfolding insert_attachment
insert_attachment-SlotsGrow c mint slot d =
    let same = SlotsGrow-refl d in
    record {
      tokens = same.tokens;
      token_accounts = same.token_accounts;
      attachments =
          Grows-upsert attachment_slot (c.find_pda mint) _ (λ r. r) _
            (λ r. Later-refl (attachment_slot r));
      data_rows = same.data_rows;
      owners = same.owners;
      mints = same.mints;
      metadata_rows = same.metadata_rows;
    }

pub attach_asset-SlotsGrow :
    (c : AttachmentExternals) (mint : Pubkey) (slot : ℤ) (d : Db)
    → SlotsGrow d (record d { accounts = attach_asset c mint slot d.accounts })
unfolding attach_asset
attach_asset-SlotsGrow c mint slot d =
    let same = SlotsGrow-refl d in
    record {
      tokens = same.tokens;
      token_accounts = same.token_accounts;
      attachments =
          Grows-upsert attachment_slot (c.find_pda mint) _ (λ r. record r { asset_id = some mint })
            _ (λ r. Later-refl (attachment_slot r));
      data_rows = same.data_rows;
      owners = same.owners;
      mints = same.mints;
      metadata_rows = same.metadata_rows;
    }

pub write_inscription-SlotsGrow :
    (key asset : Pubkey) (value : JsonValue) (slot : ℤ) (d : Db)
    → SlotsGrow d (record d { accounts = write_inscription key asset value slot d.accounts })
unfolding write_inscription
write_inscription-SlotsGrow key asset value slot d =
    let same = SlotsGrow-refl d in
    record {
      tokens = same.tokens;
      token_accounts = same.token_accounts;
      attachments = Grows-upsert attachment_slot key _ _ _ (λ r.
          guarded_grows attachment_slot _ r
            (record r { data_column = some value; slot_updated = slot })
            (ltb-Later r.slot_updated slot));
      data_rows = same.data_rows;
      owners = same.owners;
      mints = same.mints;
      metadata_rows = same.metadata_rows;
    }

pub write_data-SlotsGrow :
    (id : ℕ) (new : AssetData) (d : Db)
    → SlotsGrow d (record d { assets = write_data id new d.assets })
unfolding write_data
write_data-SlotsGrow id new d =
    let same = SlotsGrow-refl d in
    record {
      tokens = same.tokens;
      token_accounts = same.token_accounts;
      attachments = same.attachments;
      data_rows = Grows-upsert data_slot id new _ _ (λ r.
          guarded_grows data_slot _ r (record new { metadata = r.metadata })
            (ltb-Later r.slot_updated new.slot_updated));
      owners = same.owners;
      mints = same.mints;
      metadata_rows = same.metadata_rows;
    }

pub write_shadow_data-SlotsGrow :
    (id : ℕ) (m : ShadowMetadata) (slot : ℤ) (d : Db)
    → SlotsGrow d (record d { assets = write_shadow_data id m slot d.assets })
unfolding write_shadow_data shadow_data
write_shadow_data-SlotsGrow id m slot d =
    let same = SlotsGrow-refl d in
    record {
      tokens = same.tokens;
      token_accounts = same.token_accounts;
      attachments = same.attachments;
      data_rows = Grows-upsert data_slot id _ _ _ (λ r.
          guarded_grows data_slot _ r
            (record (shadow_data m slot) {
              metadata = r.metadata;
              metadata_mutability = r.metadata_mutability;
              reindex = r.reindex;
            })
            (leb-Later r.slot_updated slot));
      owners = same.owners;
      mints = same.mints;
      metadata_rows = same.metadata_rows;
    }

pub write_authority-SlotsGrow :
    (id : ℕ) (authority : Pubkey) (slot : ℤ) (d : Db)
    → SlotsGrow d (record d { assets = write_authority id authority slot d.assets })
unfolding write_authority
write_authority-SlotsGrow id authority slot d =
    let same = SlotsGrow-refl d in
    record {
      tokens = same.tokens;
      token_accounts = same.token_accounts;
      attachments = same.attachments;
      data_rows = same.data_rows;
      owners = same.owners;
      mints = same.mints;
      metadata_rows = same.metadata_rows;
    }

pub write_collection-SlotsGrow :
    (x : Externals) (id : ℕ) (slot : ℤ) (c : Collection) (d : Db)
    → SlotsGrow d (record d { assets = write_collection x id slot c d.assets })
unfolding write_collection
write_collection-SlotsGrow x id slot c d =
    let same = SlotsGrow-refl d in
    record {
      tokens = same.tokens;
      token_accounts = same.token_accounts;
      attachments = same.attachments;
      data_rows = same.data_rows;
      owners = same.owners;
      mints = same.mints;
      metadata_rows = same.metadata_rows;
    }

pub write_creators-SlotsGrow :
    (id : ℕ) (slot : ℤ) (cs : List Creator) (d : Db)
    → SlotsGrow d (record d { assets = write_creators id slot cs d.assets })
unfolding write_creators
write_creators-SlotsGrow id slot cs d =
    let same = SlotsGrow-refl d in
    record {
      tokens = same.tokens;
      token_accounts = same.token_accounts;
      attachments = same.attachments;
      data_rows = same.data_rows;
      owners = same.owners;
      mints = same.mints;
      metadata_rows = same.metadata_rows;
    }

pub write_burn-SlotsGrow :
    (id : ℕ) (slot : ℤ) (d : Db) → SlotsGrow d (record d { assets = write_burn id slot d.assets })
unfolding write_burn burn_set
write_burn-SlotsGrow id slot d =
    SlotsGrow-asset _ _ id d
      (λ r.
        guarded_grows owner_slot (strictly_newer slot r.slot_updated) r
          (update_slot_updated (burn_set slot r)) (λ _. Later-refl (owner_slot r)))
      (λ r.
        guarded_grows mint_slot (strictly_newer slot r.slot_updated) r
          (update_slot_updated (burn_set slot r)) (λ _. Later-refl (mint_slot r)))
      (λ r.
        guarded_grows metadata_slot (strictly_newer slot r.slot_updated) r
          (update_slot_updated (burn_set slot r)) (λ _. Later-refl (metadata_slot r)))

pub write_metadata_slot-SlotsGrow :
    (mint : ℕ) (slot : ℤ) (d : Db)
    → SlotsGrow d (record d { assets = write_metadata_slot mint slot d.assets })
unfolding write_metadata_slot
write_metadata_slot-SlotsGrow mint slot d =
    let set = λ (r : Asset). record r { slot_updated_metadata_account = some slot } in
    SlotsGrow-asset _ _ mint d
      (λ r.
        guarded_grows owner_slot _ r (update_slot_updated (set r)) (λ _. Later-refl (owner_slot r)))
      (λ r.
        guarded_grows mint_slot _ r (update_slot_updated (set r)) (λ _. Later-refl (mint_slot r)))
      (λ r.
        guarded_grows metadata_slot _ r (update_slot_updated (set r))
          (newer-Later slot r.slot_updated_metadata_account))
