-- ===== src/Accounts/Token/Lost.antt =====
-- The owner of an NFT whose mint is seen after its token account.
use digital_asset_rpc_infras.Base.{◌≡◌, refl, ap, ◌∙◌, false, Option, none, some, arith, ==_iff}
use digital_asset_rpc_infras.Db.Table.{find, nat_key, upserted, find-upsert}
use digital_asset_rpc_infras.Db.Tokens.{Pubkey}
use digital_asset_rpc_infras.Db.Schema.{Db, Asset}
use digital_asset_rpc_infras.Db.Session.{Session, query, execute, later, pure, ◌>>=◌}
use digital_asset_rpc_infras.Db.Session.Monotone.{
  Moves, Moves-bind, Moves-execute, Moves-transaction,
}
use digital_asset_rpc_infras.Accounts.Upserts.{
  AssetMintAccountColumns, mint_account_set, mint_account_new, mint_account_update,
  write_mint_account, upsert_assets_mint_account_columns,
}
use digital_asset_rpc_infras.Accounts.Token.{
  AccountInfo, SplAccount, SplMint, TokenProgramEntity, token_account_row, write_token_accounts,
  found_non_fungible, update_owner, handle_token_program_account,
}

-- The owner column; an asset without a row has no owner.
abbrev pub owner_at : Option Asset → Option Pubkey
owner_at none = none
owner_at (some r) = r.owner

abbrev SameOwner : Pubkey → Db → Db → Type 0
SameOwner id d e = owner_at (find id e.assets.asset) ≡ owner_at (find id d.assets.asset)

mint_owner :
    (c : AssetMintAccountColumns) (o : Option Asset)
    → owner_at (some (upserted (mint_account_new c) (mint_account_update c) o)) ≡ owner_at o
unfolding mint_account_new mint_account_update mint_account_set
mint_owner c none = refl
mint_owner c (some r) = ground arith

write_mint-SameOwner :
    (id : Pubkey) (c : AssetMintAccountColumns) (d : Db)
    → SameOwner id d (record d { assets = write_mint_account c d.assets })
unfolding write_mint_account
write_mint-SameOwner id c d =
    ap owner_at (find-upsert c.mint id (mint_account_new c) (mint_account_update c) d.assets.asset)
    ∙ ground (arith, ==_iff c.mint id, mint_owner c (find c.mint d.assets.asset))

mint_keeps :
    (id : Pubkey) (info : AccountInfo) (m : SplMint)
    → Moves
        (SameOwner id)
        (λ d. refl)
        (λ d e f p q. q ∙ p)
        (handle_token_program_account info (TokenProgramEntity.mint m))
unfolding handle_token_program_account upsert_assets_mint_account_columns
mint_keeps id info m =
    Moves-bind (SameOwner id) _ _ _ _ (Moves-execute (SameOwner id) _ _ _ _ (λ d. refl)) (λ _.
      Moves-transaction (SameOwner id) _ _ _
        (Moves-execute (SameOwner id) _ _ _ _ (write_mint-SameOwner id _)))

no_update :
    (info : AccountInfo) (ta : SplAccount) (s : Session)
    → found_non_fungible (find ta.mint s.db.accounts.tokens) ≡ false
    → (update_owner info ta s).1.db ≡ s.db
unfolding update_owner query ◌>>=◌ pure
no_update info ta s h = ground arith

account_keeps :
    (info : AccountInfo) (ta : SplAccount) (s : Session)
    → found_non_fungible (find ta.mint s.db.accounts.tokens) ≡ false
    → (handle_token_program_account info (TokenProgramEntity.token_account ta) s).1.db.assets
      ≡ s.db.assets
unfolding handle_token_program_account execute ◌>>=◌ write_token_accounts
account_keeps info ta s h =
    let t : Session = record s {
      db = record s.db {
        accounts = write_token_accounts info.pubkey (token_account_row info ta) s.db.accounts;
      };
      faults = later s.faults;
    } in
    ground (arith, ap (λ (d : Db). d.assets) (no_update info ta t h))

-- Where the mint is not known to be an NFT's when its token account is updated, the update writes no
-- owner, and the later update of the mint writes none either: after both, whatever the database
-- does, every asset has the owner that it had before, and an asset without a row has none.
pub owner_lost :
    (info info' : AccountInfo) (ta : SplAccount) (m : SplMint) (s : Session) (id : Pubkey)
    → found_non_fungible (find ta.mint s.db.accounts.tokens) ≡ false
    → let t = (handle_token_program_account info (TokenProgramEntity.token_account ta) s).1 in
      let u = (handle_token_program_account info' (TokenProgramEntity.mint m) t).1 in
      owner_at (find id u.db.assets.asset) ≡ owner_at (find id s.db.assets.asset)
owner_lost info info' ta m s id h =
    let t = (handle_token_program_account info (TokenProgramEntity.token_account ta) s).1 in
    (mint_keeps id info' m).step t
    ∙ ap (λ a. owner_at (find id a.asset)) (account_keeps info ta s h)
