-- ===== src/Accounts/Metadata/Holder.antt =====
-- The owner that `index_token_account_data` finds.
use mathlib.Core.List.{Memᴰ}
use digital_asset_rpc_infras.Base.{
  ℕ, ◌≡◌, refl, sym, ap, ◌∙◌, subst, true, Option, none, some, List, [], ◌∷◌, String, arith,
  Bool-cases, inl, inr, ◌⊎◌,
}
use digital_asset_rpc_infras.Base.Int.{◌≤ℤ◌, ltb_ℤ}
use digital_asset_rpc_infras.Db.Table.{Table, find, nat_key}
use digital_asset_rpc_infras.Db.Tokens.{Pubkey, TokenAccount}
use digital_asset_rpc_infras.Db.Schema.{Db}
use digital_asset_rpc_infras.Db.Session.{
  Error, Session, Exec, Result, ok, query, pure, database_error, asset_index_error,
}
use digital_asset_rpc_infras.Db.Session.Inversion.{bind-ok, query-ok, execute-ok}
use digital_asset_rpc_infras.Accounts.Retry.{or_retry, find_model_with_retry}
use digital_asset_rpc_infras.Accounts.Upserts.{
  AssetTokenAccountColumns, upsert_assets_token_account_columns,
}
use digital_asset_rpc_infras.Accounts.Token.Owner.{IsOwned, write-IsOwned}
use digital_asset_rpc_infras.Accounts.Metadata.{
  retry_intervals, holds, later_account, newest_holder, upsert_found_account,
  index_token_account_data,
}

-- A row of the table that holds the mint.
abbrev pub IsHolder : Pubkey → Table Pubkey TokenAccount → TokenAccount → Type 0
IsHolder mint t a = (holds mint a ≡ true) × ((k : Pubkey) × Memᴰ (k, a) t)

-- `a` holds the mint and is at least as new as `r`.
abbrev pub IsNewest : Pubkey → TokenAccount → Option TokenAccount → Type 0
IsNewest mint r o =
    (a : TokenAccount) × (o ≡ some a) × (holds mint a ≡ true) × (r.slot_updated ≤ℤ a.slot_updated)

later-IsNewest :
    (mint : Pubkey) (q r : TokenAccount) (o : Option TokenAccount)
    → IsNewest mint r o
    → holds mint q ≡ true
    → IsNewest mint r (some (later_account q o))
unfolding later_account
later-IsNewest mint q r none (a, e, h, l) hq = absurd cc
later-IsNewest mint q r (some b) (a, e, h, l) hq =
    elim (Bool-cases (ltb_ℤ q.slot_updated b.slot_updated)) [
      | inl less ↦ (b, rw less refl, ground arith, ground arith)
      | inr more ↦ (q, rw more refl, hq, ground arith)
    ]

same-IsNewest :
    (mint : Pubkey) (q : TokenAccount) (o : Option TokenAccount)
    → ((b : TokenAccount) → o ≡ some b → holds mint b ≡ true)
    → holds mint q ≡ true
    → IsNewest mint q (some (later_account q o))
unfolding later_account
same-IsNewest mint q none hb hq = (q, refl, hq, ground arith)
same-IsNewest mint q (some b) hb hq = elim (Bool-cases (ltb_ℤ q.slot_updated b.slot_updated)) [
  | inl less ↦ (b, rw less refl, hb b refl, ground arith)
  | inr more ↦ (q, rw more refl, hq, ground arith)
]

newest-holds :
    (mint : Pubkey) (t : Table Pubkey TokenAccount) (b : TokenAccount)
    → newest_holder mint t ≡ some b
    → holds mint b ≡ true
unfolding newest_holder later_account
newest-holds mint [] b h = absurd cc
newest-holds mint ((k, r) ∷ t) b h = elim (Bool-cases (holds mint r)) [
  | inl held ↦
      let (a, found, ha, l) =
        same-IsNewest mint r (newest_holder mint t) (newest-holds mint t) held in
      let same : a ≡ b = ground (arith, sym found, rw held at h) in
      subst (λ z. holds mint z ≡ true) same ha
  | inr other ↦ newest-holds mint t b (rw other at h)
]

later-cases :
    (r b : TokenAccount) (o : Option TokenAccount) → later_account r o ≡ b → (r ≡ b) ⊎ (o ≡ some b)
unfolding later_account
later-cases r b none h = inl h
later-cases r b (some q) h = elim (Bool-cases (ltb_ℤ r.slot_updated q.slot_updated)) [
  | inl less ↦ inr (ap some (rw less at h))
  | inr more ↦ inl (rw more at h)
]

-- What is found is a row of the table.
newest-Memᴰ :
    (mint : Pubkey) (t : Table Pubkey TokenAccount) (b : TokenAccount)
    → newest_holder mint t ≡ some b
    → (k : Pubkey) × Memᴰ (k, b) t
unfolding newest_holder
newest-Memᴰ mint [] b h = absurd cc
newest-Memᴰ mint ((k, r) ∷ t) b h = elim (Bool-cases (holds mint r)) [
  | inl held ↦
      let found : some (later_account r (newest_holder mint t)) ≡ some b = rw held at h in
      elim (later-cases r b (newest_holder mint t) cc) [
        | inl same ↦ (k, Memᴰ.head (ap (λ a. (k, a)) (sym same)))
        | inr below ↦ let (j, m) = newest-Memᴰ mint t b below in (j, Memᴰ.tail m)
      ]
  | inr other ↦ let (j, m) = newest-Memᴰ mint t b (rw other at h) in (j, Memᴰ.tail m)
]

-- A row with the mint and an amount above 0 is found, or one that is as new.
newest_holder-IsNewest :
    (mint k : Pubkey) (r : TokenAccount) (t : Table Pubkey TokenAccount)
    → Memᴰ (k, r) t
    → holds mint r ≡ true
    → IsNewest mint r (newest_holder mint t)
unfolding newest_holder
newest_holder-IsNewest mint k r [] m h = elim m [ ]
newest_holder-IsNewest mint k r ((j, q) ∷ t) (Memᴰ.head e) h =
    let same : r ≡ q = ap (λ (p : Pubkey × TokenAccount). p.1) e in
    subst (λ z. IsNewest mint z (newest_holder mint ((j, q) ∷ t))) (sym same)
      (let held : holds mint q ≡ true = subst (λ z. holds mint z ≡ true) same h in
        rw held (same-IsNewest mint q (newest_holder mint t) (newest-holds mint t) held))
newest_holder-IsNewest mint k r ((j, q) ∷ t) (Memᴰ.tail m) h = elim (Bool-cases (holds mint q)) [
  | inl held ↦
      rw held (
        later-IsNewest mint q r (newest_holder mint t) (newest_holder-IsNewest mint k r t m h) held)
  | inr other ↦ rw other (newest_holder-IsNewest mint k r t m h)
]

retried :
    {A : Type 0} (rest : Exec (Option A)) (o p : Option A) (a : A) (t : Session)
    → o ≡ some a
    → (or_retry rest o t).0 ≡ ok p
    → (p ≡ some a) × ((or_retry rest o t).1 ≡ t)
unfolding or_retry pure
retried rest none p a t e h = absurd cc
retried rest (some b) p a t e h = (cc, refl)

-- What is there is found by the first query, if that succeeds.
found_at_once :
    {A : Type 0} (w : String → Error) (f : Db → Option A) (i : ℕ) (is : List ℕ) (s : Session)
    (o : Option A) (a : A)
    → f s.db ≡ some a
    → (find_model_with_retry w f (i ∷ is) s).0 ≡ ok o
    → (o ≡ some a) × ((find_model_with_retry w f (i ∷ is) s).1.db ≡ s.db)
unfolding find_model_with_retry
found_at_once w f i is s o a e h =
    let rest = find_model_with_retry w f is in
    let (p, asked, same) = bind-ok (query w f) (or_retry rest) s o h in
    let (answer, kept) = query-ok w f s p asked in
    let (done, left) =
      retried rest p o a (query w f s).1 (answer ∙ e) (ap (λ r. r.0) (sym same) ∙ h) in
    (done, ap (λ r. r.1.db) same ∙ ap (λ (t : Session). t.db) left ∙ kept)

-- The columns that the asset takes from a token account that was found.
abbrev pub found_columns : Pubkey → TokenAccount → AssetTokenAccountColumns
found_columns mint a = record {
  mint = mint;
  owner = some a.owner;
  frozen = a.frozen;
  delegate = a.delegate;
  slot_updated_token_account = some a.slot_updated;
}

found-IsOwned :
    (mint : Pubkey) (a : TokenAccount) (o : Option TokenAccount) (s : Session)
    → o ≡ some a
    → (upsert_found_account mint o s).0 ≡ ok tt
    → IsOwned
        (found_columns mint a)
        a.slot_updated
        (find mint (upsert_found_account mint o s).1.db.assets.asset)
unfolding upsert_found_account upsert_assets_token_account_columns
found-IsOwned mint a none s e h = absurd cc
found-IsOwned mint a (some b) s e h =
    let same : b ≡ a = cc in
    subst
      (λ z.
        IsOwned (found_columns mint z) z.slot_updated
          (find mint (upsert_found_account mint (some b) s).1.db.assets.asset))
      same
      (subst (λ (d : Db). IsOwned (found_columns mint b) b.slot_updated (find mint d.assets.asset))
        (sym (execute-ok asset_index_error _ s tt h))
        (write-IsOwned (found_columns mint b) b.slot_updated s.db refl))

-- If some token account holds the mint (with an amount above 0) and the owner is looked up without
-- an error, then a row of `token_accounts` that holds it and is at least as new was found, and the
-- asset has a row that is as new as that account, and has its owner, delegate and frozen state unless
-- the row is newer.
pub owner_indexed :
    (mint k : Pubkey) (r : TokenAccount) (s : Session)
    → Memᴰ (k, r) s.db.accounts.token_accounts
    → holds mint r ≡ true
    → (index_token_account_data mint s).0 ≡ ok tt
    → (a : TokenAccount) × IsHolder mint s.db.accounts.token_accounts a
      × (r.slot_updated ≤ℤ a.slot_updated)
      × IsOwned
          (found_columns mint a)
          a.slot_updated
          (find mint (index_token_account_data mint s).1.db.assets.asset)
unfolding index_token_account_data
owner_indexed mint k r s m hr h =
    let (a, found, ha, newer') =
      newest_holder-IsNewest mint k r s.db.accounts.token_accounts m hr in
    let f : Db → Option TokenAccount = λ d. newest_holder mint d.accounts.token_accounts in
    let (o, asked, same) =
      bind-ok (find_model_with_retry database_error f retry_intervals) (upsert_found_account mint) s
        tt h in
    let (is_found, kept) = found_at_once database_error f _ _ s o a found asked in
    (
      a,
      (ha, newest-Memᴰ mint s.db.accounts.token_accounts a found),
      newer',
      subst
          (λ (q : Result (Unit {0}) × Session).
            IsOwned (found_columns mint a) a.slot_updated (find mint q.1.db.assets.asset))
          (sym same) (found-IsOwned mint a o _ is_found (ap (λ q. q.0) (sym same) ∙ h)),
    )
