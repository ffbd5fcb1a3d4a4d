-- ===== src/Accounts/Slots/Writes.antt =====
-- The statements of the account handlers move no slot back.
use digital_asset_rpc_infras.Base.{
  ◌≡◌, refl, Bool, true, false, Option, none, some, if◌then◌else◌, arith,
}
use digital_asset_rpc_infras.Base.Int.{ℤ, leb_ℤ, ltb_ℤ}
use digital_asset_rpc_infras.Db.Versioned.{newer}
use digital_asset_rpc_infras.Db.Table.{upsert, nat_key}
use digital_asset_rpc_infras.Db.Tokens.{Pubkey, Token, TokenAccount}
use digital_asset_rpc_infras.Db.Schema.{Db, Asset}
use digital_asset_rpc_infras.Db.Trigger.{update_slot_updated}
use digital_asset_rpc_infras.Accounts.Upserts.{
  AssetTokenAccountColumns, AssetMintAccountColumns, AssetMetadataAccountColumns, not_older,
  token_account_set, token_account_update, mint_account_set, mint_account_update,
  metadata_account_set, metadata_account_update, write_token_account, write_mint_account,
  write_metadata_account,
}
use digital_asset_rpc_infras.Accounts.Token.{
  token_account_conflict, token_conflict, write_token_accounts, write_tokens,
}
use digital_asset_rpc_infras.Accounts.Slots.{
  Later, Later-refl, Grows-upsert, SlotsGrow, SlotsGrow-refl, token_slot, account_slot, owner_slot,
  mint_slot, metadata_slot,
}

-- A change of the `asset` table that moves back none of its slots.
pub SlotsGrow-asset :
    (new : Asset) (set : Asset → Asset) (id : Pubkey) (d : Db)
    → ((r : Asset) → Later (owner_slot r) (owner_slot (set r)))
    → ((r : Asset) → Later (mint_slot r) (mint_slot (set r)))
    → ((r : Asset) → Later (metadata_slot r) (metadata_slot (set r)))
    → SlotsGrow d
        (record d { assets = record d.assets { asset = upsert id new set d.assets.asset } })
SlotsGrow-asset new set id d ho hm hd =
    let same = SlotsGrow-refl d in
    record {
      tokens = same.tokens;
      token_accounts = same.token_accounts;
      attachments = same.attachments;
      data_rows = same.data_rows;
      owners = Grows-upsert owner_slot id new set _ ho;
      mints = Grows-upsert mint_slot id new set _ hm;
      metadata_rows = Grows-upsert metadata_slot id new set _ hd;
    }

pub not_older-Later : (new old : Option ℤ) → not_older new old ≡ true → Later old new
unfolding not_older
not_older-Later new none h = tt
not_older-Later none (some t) h = cc
not_older-Later (some s) (some t) h = ground arith

pub newer-Later : (s : ℤ) (old : Option ℤ) → newer s old ≡ true → Later old (some s)
newer-Later s none h = tt
newer-Later s (some t) h = ground arith

-- A guarded write keeps the slot or moves it on.
pub guarded_grows :
    {R : Type 0} (slot : R → Option ℤ) (b : Bool) (r s : R)
    → (b ≡ true → Later (slot r) (slot s))
    → Later (slot r) (slot (if b then s else r))
guarded_grows slot true r s h = h refl
guarded_grows slot false r s h = Later-refl (slot r)

pub write_token_account-SlotsGrow :
    (c : AssetTokenAccountColumns) (d : Db)
    → SlotsGrow d (record d { assets = write_token_account c d.assets })
unfolding write_token_account token_account_update token_account_set
write_token_account-SlotsGrow c d =
    SlotsGrow-asset _ (token_account_update c) c.mint d
      (λ r.
        guarded_grows owner_slot _ r (update_slot_updated (token_account_set c r))
          (not_older-Later _ _))
      (λ r.
        guarded_grows mint_slot _ r (update_slot_updated (token_account_set c r))
          (λ _. Later-refl (mint_slot r)))
      (λ r.
        guarded_grows metadata_slot _ r (update_slot_updated (token_account_set c r))
          (λ _. Later-refl (metadata_slot r)))

pub write_mint_account-SlotsGrow :
    (c : AssetMintAccountColumns) (d : Db)
    → SlotsGrow d (record d { assets = write_mint_account c d.assets })
unfolding write_mint_account mint_account_update mint_account_set
write_mint_account-SlotsGrow c d =
    SlotsGrow-asset _ (mint_account_update c) c.mint d
      (λ r.
        guarded_grows owner_slot _ r (update_slot_updated (mint_account_set c r))
          (λ _. Later-refl (owner_slot r)))
      (λ r.
        guarded_grows mint_slot _ r (update_slot_updated (mint_account_set c r)) (newer-Later _ _))
      (λ r.
        guarded_grows metadata_slot _ r (update_slot_updated (mint_account_set c r))
          (λ _. Later-refl (metadata_slot r)))

pub write_metadata_account-SlotsGrow :
    (c : AssetMetadataAccountColumns) (d : Db)
    → SlotsGrow d (record d { assets = write_metadata_account c d.assets })
unfolding write_metadata_account metadata_account_update metadata_account_set
write_metadata_account-SlotsGrow c d =
    SlotsGrow-asset _ (metadata_account_update c) c.mint d
      (λ r.
        guarded_grows owner_slot _ r (update_slot_updated (metadata_account_set c r))
          (λ _. Later-refl (owner_slot r)))
      (λ r.
        guarded_grows mint_slot _ r (update_slot_updated (metadata_account_set c r))
          (λ _. Later-refl (mint_slot r)))
      (λ r.
        guarded_grows metadata_slot _ r (update_slot_updated (metadata_account_set c r))
          (newer-Later _ _))

pub ltb-Later : (s t : ℤ) → ltb_ℤ s t ≡ true → Later (some s) (some t)
ltb-Later s t h = ground arith

pub leb-Later : (s t : ℤ) → leb_ℤ s t ≡ true → Later (some s) (some t)
leb-Later s t h = ground arith

pub write_token_accounts-SlotsGrow :
    (key : Pubkey) (new : TokenAccount) (d : Db)
    → SlotsGrow d (record d { accounts = write_token_accounts key new d.accounts })
unfolding write_token_accounts token_account_conflict
write_token_accounts-SlotsGrow key new d =
    let same = SlotsGrow-refl d in
    record {
      tokens = same.tokens;
      token_accounts =
          Grows-upsert account_slot key new (token_account_conflict new) _
            (λ r. guarded_grows account_slot _ r _ (ltb-Later r.slot_updated new.slot_updated));
      attachments = same.attachments;
      data_rows = same.data_rows;
      owners = same.owners;
      mints = same.mints;
      metadata_rows = same.metadata_rows;
    }

pub write_tokens-SlotsGrow :
    (key : Pubkey) (new : Token) (d : Db)
    → SlotsGrow d (record d { accounts = write_tokens key new d.accounts })
unfolding write_tokens token_conflict
write_tokens-SlotsGrow key new d =
    let same = SlotsGrow-refl d in
    record {
      tokens =
          Grows-upsert token_slot key new (token_conflict new) _
            (λ r. guarded_grows token_slot _ r _ (leb-Later r.slot_updated new.slot_updated));
      token_accounts = same.token_accounts;
      attachments = same.attachments;
      data_rows = same.data_rows;
      owners = same.owners;
      mints = same.mints;
      metadata_rows = same.metadata_rows;
    }
