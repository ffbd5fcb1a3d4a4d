-- ===== src/Accounts/Token/Owner.antt =====
-- Whose an NFT is after the update of a token account.
use digital_asset_rpc_infras.Base.{
  ◌≡◌, refl, sym, ap, ◌∙◌, subst, Bool, true, false, Option, none, some, if◌then◌else◌, arith,
  Bool-cases, inl, inr,
}
use digital_asset_rpc_infras.Base.Int.{ℤ, ◌≤ℤ◌, as_i64}
use digital_asset_rpc_infras.Db.Table.{find, nat_key, upserted, find-upsert_self}
use digital_asset_rpc_infras.Db.Schema.{Db, Asset, default_asset}
use digital_asset_rpc_infras.Db.Trigger.{update_slot_updated}
use digital_asset_rpc_infras.Db.Session.{
  Session, Exec, Result, ok, storage_write_error, query, transaction, execute_tokens, later, pure,
}
use digital_asset_rpc_infras.Db.Session.Rules.{transaction-keeps}
use digital_asset_rpc_infras.Db.Session.Inversion.{bind-ok, query-ok, execute-ok}
use digital_asset_rpc_infras.Accounts.Upserts.{
  AssetTokenAccountColumns, not_older, token_account_set, token_account_update, write_token_account,
  upsert_assets_token_account_columns,
}
use digital_asset_rpc_infras.Accounts.Token.{
  AccountInfo, SplAccount, TokenProgramEntity, is_frozen, token_account_row, write_token_accounts,
  found_non_fungible, update_owner, handle_token_program_account,
}

-- The columns that the update of a token account writes to the asset.
abbrev pub owner_columns : AccountInfo → SplAccount → AssetTokenAccountColumns
owner_columns info ta = record {
  mint = ta.mint;
  owner = some ta.owner;
  frozen = is_frozen ta.state;
  delegate = ta.delegate;
  slot_updated_token_account = some (as_i64 info.slot);
}

-- The row is as new as the columns, and has them if it is not newer.
pub record IsOwned (c : AssetTokenAccountColumns) (slot : ℤ) (o : Option Asset) : Type 0 where
  pub row : Asset
  pub found : o ≡ some row
  pub version : ℤ
  pub slot_of : row.slot_updated_token_account ≡ some version
  pub as_new : slot ≤ℤ version
  pub owner_of :
      version ≤ℤ slot
      → (row.owner ≡ c.owner) × (row.frozen ≡ c.frozen) × (row.delegate ≡ c.delegate)

written-IsOwned :
    (c : AssetTokenAccountColumns) (slot : ℤ) (r : Asset)
    → c.slot_updated_token_account ≡ some slot
    → IsOwned c slot (some (token_account_set c r))
unfolding token_account_set
written-IsOwned c slot r h = record {
  row = token_account_set c r;
  found = refl;
  version = slot;
  slot_of = h;
  as_new = omega arith;
  owner_of = λ _. (refl, refl, refl);
}

-- The trigger changes none of these columns.
updated-IsOwned :
    (c : AssetTokenAccountColumns) (slot : ℤ) (r : Asset)
    → c.slot_updated_token_account ≡ some slot
    → IsOwned c slot (some (update_slot_updated (token_account_set c r)))
unfolding token_account_set
updated-IsOwned c slot r h = record {
  row = update_slot_updated (token_account_set c r);
  found = refl;
  version = slot;
  slot_of = h;
  as_new = omega arith;
  owner_of = λ _. (refl, refl, refl);
}

kept-IsOwned :
    (c : AssetTokenAccountColumns) (slot : ℤ) (r : Asset) (o : Option ℤ)
    → r.slot_updated_token_account ≡ o
    → not_older (some slot) o ≡ false
    → IsOwned c slot (some r)
unfolding not_older
kept-IsOwned c slot r none e h = absurd cc
kept-IsOwned c slot r (some t) e h = record {
  row = r;
  found = refl;
  version = t;
  slot_of = e;
  as_new = ground arith;
  owner_of = λ k. absurd (ground arith);
}

upserted-IsOwned :
    (c : AssetTokenAccountColumns) (slot : ℤ) (o : Option Asset)
    → c.slot_updated_token_account ≡ some slot
    → IsOwned c slot
        (some (upserted (token_account_set c default_asset) (token_account_update c) o))
unfolding token_account_update
upserted-IsOwned c slot none h = written-IsOwned c slot default_asset h
upserted-IsOwned c slot (some r) h =
    elim (Bool-cases (not_older c.slot_updated_token_account r.slot_updated_token_account)) [
      | inl newer' ↦ rw newer' (updated-IsOwned c slot r h)
      | inr older ↦
          rw older (kept-IsOwned c slot r r.slot_updated_token_account refl (rw (sym h) older))
    ]

pub write-IsOwned :
    (c : AssetTokenAccountColumns) (slot : ℤ) (d : Db)
    → c.slot_updated_token_account ≡ some slot
    → IsOwned c slot (find c.mint (write_token_account c d.assets).asset)
unfolding write_token_account
write-IsOwned c slot d h =
    subst (IsOwned c slot) (sym (find-upsert_self c.mint _ (token_account_update c) d.assets.asset))
      (upserted-IsOwned c slot (find c.mint d.assets.asset) h)

transaction-IsOwned :
    (c : AssetTokenAccountColumns) (slot : ℤ) (s : Session)
    → c.slot_updated_token_account ≡ some slot
    → let m : Exec (Unit {0}) =
        transaction (upsert_assets_token_account_columns storage_write_error c) in
      (m s).0 ≡ ok tt → IsOwned c slot (find c.mint (m s).1.db.assets.asset)
unfolding upsert_assets_token_account_columns
transaction-IsOwned c slot s hc h =
    let m : Exec (Unit {0}) = upsert_assets_token_account_columns storage_write_error c in
    let t : Session = record s { faults = later s.faults } in
    let (done, kept) = transaction-keeps m s tt h in
    subst (λ (d : Db). IsOwned c slot (find c.mint d.assets.asset))
      (sym (kept ∙ execute-ok storage_write_error _ t tt done)) (write-IsOwned c slot s.db hc)

branch-IsOwned :
    (c : AssetTokenAccountColumns) (slot : ℤ) (s : Session) (b : Bool)
    → c.slot_updated_token_account ≡ some slot
    → b ≡ true
    → let m : Exec (Unit {0}) =
        if b
        then transaction (upsert_assets_token_account_columns storage_write_error c)
        else pure tt in
      (m s).0 ≡ ok tt → IsOwned c slot (find c.mint (m s).1.db.assets.asset)
branch-IsOwned c slot s true hc hb h = transaction-IsOwned c slot s hc h
branch-IsOwned c slot s false hc hb h = absurd cc

-- If the mint is known to be an NFT's and the query and the transaction succeed.
update_owner-IsOwned :
    (info : AccountInfo) (ta : SplAccount) (s : Session)
    → found_non_fungible (find ta.mint s.db.accounts.tokens) ≡ true
    → (update_owner info ta s).0 ≡ ok tt
    → IsOwned
        (owner_columns info ta)
        (as_i64 info.slot)
        (find ta.mint (update_owner info ta s).1.db.assets.asset)
unfolding update_owner
update_owner-IsOwned info ta s hn h =
    let (token, asked, same) = bind-ok (query storage_write_error _) _ s tt h in
    let (answer, kept) = query-ok storage_write_error _ s token asked in
    subst
      (λ (r : Result (Unit {0}) × Session).
        IsOwned (owner_columns info ta) (as_i64 info.slot) (find ta.mint r.1.db.assets.asset))
      (sym same)
      (branch-IsOwned (owner_columns info ta) (as_i64 info.slot) _ (found_non_fungible token) refl
        (ap found_non_fungible answer ∙ hn) (ap (λ r. r.0) (sym same) ∙ h))

-- If the update of a token account succeeds, and its mint is known to be an NFT's (no decimals, a
-- supply of 1), the NFT's asset has a row that is at least as new as the update, and, unless it is
-- newer, it has the owner, the delegate and the frozen state of the token account.
pub owner_current :
    (info : AccountInfo) (ta : SplAccount) (s : Session)
    → found_non_fungible (find ta.mint s.db.accounts.tokens) ≡ true
    → let h = handle_token_program_account info (TokenProgramEntity.token_account ta) in
      (h s).0 ≡ ok tt
      → IsOwned (owner_columns info ta) (as_i64 info.slot) (find ta.mint (h s).1.db.assets.asset)
unfolding handle_token_program_account write_token_accounts
owner_current info ta s hn h =
    let m : Exec (Unit {0}) =
      execute_tokens storage_write_error
        (write_token_accounts info.pubkey (token_account_row info ta)) in
    let (u, done, same) = bind-ok m (λ _. update_owner info ta) s tt h in
    subst
      (λ (r : Result (Unit {0}) × Session).
        IsOwned (owner_columns info ta) (as_i64 info.slot) (find ta.mint r.1.db.assets.asset))
      (sym same)
      (update_owner-IsOwned info ta (m s).1
        (ap (λ (d : Db). found_non_fungible (find ta.mint d.accounts.tokens))
            (execute-ok storage_write_error _ s u done)
          ∙ hn)
        (ap (λ r. r.0) (sym same) ∙ h))
