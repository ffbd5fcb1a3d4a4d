-- ===== src/Accounts/Token/Order.antt =====
-- Updates of token accounts and mints that arrive in another order leave the same rows.
use mathlib.Core.List.{Permᴰ}
use digital_asset_rpc_infras.Base.{
  ◌≡◌, ◌≢◌, refl, sym, ap, ◌∙◌, ◌⊎◌, inl, inr, Option, none, some, List, [], ◌∷◌, if◌then◌else◌,
  arith, ==_iff, ◌==◌,
}
use digital_asset_rpc_infras.Base.Int.{as_i64, eq_of_parts}
use digital_asset_rpc_infras.Base.Reorder.{AllPairs, run, run-perm}
use digital_asset_rpc_infras.Db.Table.{find, nat_key, upserted, find-upsert}
use digital_asset_rpc_infras.Db.Tokens.{Pubkey, Token, TokenAccount}
use digital_asset_rpc_infras.Db.Schema.{Db}
use digital_asset_rpc_infras.Db.Session.{
  Session, execute, query, transaction, commit, pure, raise, ◌>>=◌,
}
use digital_asset_rpc_infras.Accounts.Token.{
  AccountInfo, SplAccount, SplMint, TokenProgramEntity, token_account_row, token_account_conflict,
  write_token_accounts, token_row, token_conflict, write_tokens, update_owner,
  handle_token_program_account,
}

-- An update that was handled.
abbrev pub Update : Type 0
Update = AccountInfo × TokenProgramEntity

abbrev pub handle_all : List Update → Session → Session
handle_all [] s = s
handle_all ((info, p) ∷ us) s = handle_all us (handle_token_program_account info p s).1

-- What an update does to the rows of `key` in `token_accounts` and `tokens`.
abbrev Rows : Type 0
Rows = Option TokenAccount × Option Token

abbrev pub rows_of : Pubkey → Db → Rows
rows_of key d = (find key d.accounts.token_accounts, find key d.accounts.tokens)

abbrev row_step : Pubkey → Update → Rows → Rows
row_step key (info, TokenProgramEntity.token_account ta) (a, t) =
    let new = token_account_row info ta in
    (if info.pubkey == key then some (upserted new (token_account_conflict new) a) else a, t)
row_step key (info, TokenProgramEntity.mint m) (a, t) =
    let new = token_row info m in
    (a, if info.pubkey == key then some (upserted new (token_conflict new) t) else t)
row_step key (info, TokenProgramEntity.close_ix k) (a, t) = (a, t)

abbrev IsSound : Session → Type 0
IsSound s = s.faults ≡ []

owner_tokens :
    (info : AccountInfo) (ta : SplAccount) (s : Session)
    → s.faults ≡ []
    → ((update_owner info ta s).1.db.accounts ≡ s.db.accounts)
      × ((update_owner info ta s).1.faults ≡ [])
unfolding update_owner query transaction commit execute pure ◌>>=◌
owner_tokens info ta s h = ground arith

handled_account :
    (key : Pubkey) (info : AccountInfo) (ta : SplAccount) (s : Session)
    → s.faults ≡ []
    → let t = (handle_token_program_account info (TokenProgramEntity.token_account ta) s).1 in
      (rows_of key t.db
        ≡ row_step key (info, TokenProgramEntity.token_account ta) (rows_of key s.db))
      × (t.faults ≡ [])
unfolding handle_token_program_account execute ◌>>=◌ write_token_accounts
handled_account key info ta s h =
    let new = token_account_row info ta in
    let t : Session = record s {
      db = record s.db { accounts = write_token_accounts info.pubkey new s.db.accounts };
      faults = [];
    } in
    let facts = owner_tokens info ta t refl in
    let found =
      find-upsert info.pubkey key new (token_account_conflict new) s.db.accounts.token_accounts in
    ground (arith, facts.0, facts.1, found)

handled_mint :
    (key : Pubkey) (info : AccountInfo) (m : SplMint) (s : Session)
    → s.faults ≡ []
    → let t = (handle_token_program_account info (TokenProgramEntity.mint m) s).1 in
      (rows_of key t.db ≡ row_step key (info, TokenProgramEntity.mint m) (rows_of key s.db))
      × (t.faults ≡ [])
unfolding handle_token_program_account transaction commit execute ◌>>=◌ write_tokens
handled_mint key info m s h =
    let new = token_row info m in
    let found = find-upsert info.pubkey key new (token_conflict new) s.db.accounts.tokens in
    ground (arith, found)

handled_step :
    (key : Pubkey) (info : AccountInfo) (p : TokenProgramEntity) (s : Session)
    → s.faults ≡ []
    → (rows_of key (handle_token_program_account info p s).1.db
        ≡ row_step key (info, p) (rows_of key s.db))
      × ((handle_token_program_account info p s).1.faults ≡ [])
unfolding handle_token_program_account raise
handled_step key info (TokenProgramEntity.token_account ta) s h = handled_account key info ta s h
handled_step key info (TokenProgramEntity.mint m) s h = handled_mint key info m s h
handled_step key info (TokenProgramEntity.close_ix k) s h = (refl, h)

handled_run :
    (key : Pubkey) (us : List Update) (s : Session)
    → s.faults ≡ []
    → rows_of key (handle_all us s).db ≡ run (row_step key) us (rows_of key s.db)
handled_run key [] s h = refl
handled_run key ((info, p) ∷ us) s h =
    let facts = handled_step key info p s h in
    handled_run key us (handle_token_program_account info p s).1 facts.1
    ∙ ap (run (row_step key) us) facts.0

-- Two updates that may be made in either order: of different accounts, or of different slots.
abbrev pub IsApart : Update → Update → Type 0
IsApart (i, p) (j, q) = (i.pubkey ≢ j.pubkey) ⊎ (as_i64 i.slot ≢ as_i64 j.slot)

IsApart-symm : (u v : Update) → IsApart u v → IsApart v u
IsApart-symm (i, p) (j, q) (inl ne) = inl (λ e. ne (sym e))
IsApart-symm (i, p) (j, q) (inr ne) = inr (λ e. ne (sym e))

accounts_commute :
    (i j : AccountInfo) (ta tb : SplAccount) (r : Option TokenAccount)
    → as_i64 i.slot ≢ as_i64 j.slot
    → let a = token_account_row i ta in
      let b = token_account_row j tb in
      upserted b (token_account_conflict b) (some (upserted a (token_account_conflict a) r))
      ≡ upserted a (token_account_conflict a) (some (upserted b (token_account_conflict b) r))
unfolding token_account_conflict token_account_row
accounts_commute i j ta tb none ne = ground (arith, eq_of_parts (as_i64 i.slot) (as_i64 j.slot))
accounts_commute i j ta tb (some r) ne = ground (arith, eq_of_parts (as_i64 i.slot) (as_i64 j.slot))

mints_commute :
    (i j : AccountInfo) (m n : SplMint) (r : Option Token)
    → as_i64 i.slot ≢ as_i64 j.slot
    → let a = token_row i m in
      let b = token_row j n in
      upserted b (token_conflict b) (some (upserted a (token_conflict a) r))
      ≡ upserted a (token_conflict a) (some (upserted b (token_conflict b) r))
unfolding token_conflict token_row
mints_commute i j m n none ne = ground (arith, eq_of_parts (as_i64 i.slot) (as_i64 j.slot))
mints_commute i j m n (some r) ne = ground (arith, eq_of_parts (as_i64 i.slot) (as_i64 j.slot))

steps_commute :
    (key : Pubkey) (u v : Update)
    → IsApart u v
    → (r : Rows) → row_step key v (row_step key u r) ≡ row_step key u (row_step key v r)
steps_commute key (i, TokenProgramEntity.token_account ta) (j, TokenProgramEntity.token_account tb)
      (inl ne) (a, t) =
    ground (arith, ==_iff i.pubkey key, ==_iff j.pubkey key)
steps_commute key (i, TokenProgramEntity.token_account ta) (j, TokenProgramEntity.token_account tb)
      (inr ne) (a, t) =
    ground (arith, accounts_commute i j ta tb a ne)
steps_commute key (i, TokenProgramEntity.mint m) (j, TokenProgramEntity.mint n) (inl ne) (a, t) =
    ground (arith, ==_iff i.pubkey key, ==_iff j.pubkey key)
steps_commute key (i, TokenProgramEntity.mint m) (j, TokenProgramEntity.mint n) (inr ne) (a, t) =
    ground (arith, mints_commute i j m n t ne)
steps_commute key (i, TokenProgramEntity.token_account ta) (j, TokenProgramEntity.mint n) h r = refl
steps_commute key (i, TokenProgramEntity.mint m) (j, TokenProgramEntity.token_account tb) h r = refl
steps_commute key (i, TokenProgramEntity.close_ix k) (j, q) h r = refl
steps_commute key (i, TokenProgramEntity.token_account ta) (j, TokenProgramEntity.close_ix k) h r =
    refl
steps_commute key (i, TokenProgramEntity.mint m) (j, TokenProgramEntity.close_ix k) h r = refl

-- On a database that fails nothing, the same updates of token accounts and mints in another order
-- leave the same rows of every key in `token_accounts` and `tokens`, if any two updates of one
-- account carry different slots.
pub accounts_order_free :
    {us vs : List Update}
    → Permᴰ us vs
    → AllPairs IsApart us
    → (key : Pubkey) (s : Session) → s.faults ≡ []
    → rows_of key (handle_all us s).db ≡ rows_of key (handle_all vs s).db
accounts_order_free {us} {vs} p h key s hs =
    handled_run key us s hs
    ∙ run-perm (row_step key) IsApart IsApart-symm (steps_commute key) p h (rows_of key s.db)
    ∙ sym (handled_run key vs s hs)
