-- ===== src/Accounts/Metadata/Whole.antt =====
-- `save_v1_asset` leaves all the rows of a metadata account or none.
use digital_asset_rpc_infras.Base.{
  ℕ, ◌≡◌, refl, ap, ◌∙◌, ◌⊎◌, inl, inr, Option, none, some, List, [], ◌∷◌, String,
}
use digital_asset_rpc_infras.Db.Table.{nat_key}
use digital_asset_rpc_infras.Db.Tokens.{Pubkey, Token, TokenAccount}
use digital_asset_rpc_infras.Db.Schema.{Db}
use digital_asset_rpc_infras.Db.Session.{
  Error, Result, ok, err, Session, Exec, execute, transaction, later, continue, ◌>>=◌,
}
use digital_asset_rpc_infras.Db.Session.Rules.{transaction-keeps, IsAtomic-transaction}
use digital_asset_rpc_infras.Db.Session.Monotone.{
  Moves, Moves-pure, Moves-query, Moves-execute, Moves-bind, Moves-if,
}
use digital_asset_rpc_infras.Bubblegum.Event.{Externals}
use digital_asset_rpc_infras.Accounts.Upserts.{
  upsert_assets_mint_account_columns, upsert_assets_token_account_columns, write_mint_account,
  write_token_account,
}
use digital_asset_rpc_infras.Accounts.Retry.{or_retry, find_model_with_retry}
use digital_asset_rpc_infras.Accounts.Attachments.{
  AttachmentExternals, upsert_asset_v1_account_attachments,
}
use digital_asset_rpc_infras.Accounts.Metadata.{
  save_metadata, save_v1_asset, index_and_fetch_mint_data, upsert_found_mint, upsert_found_account,
  index_token_account_data,
}
use digital_asset_rpc_infras.Accounts.Metadata.Statements.{Metadata}
use digital_asset_rpc_infras.Accounts.Metadata.Rows.{
  tables_of, metadata_writes, uri_of, Does-save_metadata, block_tables,
}

-- Blocks that leave the tables of metadata alone, and those that leave them alone or make all the
-- writes of `m`.
abbrev SameTables : Db → Db → Type 0
SameTables d e = tables_of e.assets ≡ tables_of d.assets

SameTables-trans : (d e f : Db) → SameTables d e → SameTables e f → SameTables d f
SameTables-trans d e f p q = q ∙ p

abbrev Keeps : {A : Type 0} → Exec A → Type 0
Keeps m = Moves SameTables (λ d. refl) SameTables-trans m

module _ (x : Externals) (m : Metadata) (slot : ℕ) where
  -- All the writes of the metadata account, or an error and none of them.
  abbrev pub AllOrNone : {A : Type 0} → Db → Result A × Session → Type 0
  AllOrNone d q =
      (tables_of q.1.db.assets ≡ metadata_writes x m slot (tables_of d.assets))
      ⊎ ((tables_of q.1.db.assets ≡ tables_of d.assets) × ((e : Error) × (q.0 ≡ err e)))

  after_keeps :
      {A : Type 0} (d e : Db) (q : Result A × Session)
      → SameTables d e
      → AllOrNone e q
      → AllOrNone d q
  after_keeps d e q p (inl all) = inl (all ∙ ap (metadata_writes x m slot) p)
  after_keeps d e q p (inr (same, failed)) = inr (same ∙ p, failed)

  module _ {A B : Type 0} where
    Keeps-continue :
        (k : A → Exec B) (r : Result A) (t : Session)
        → ((a : A) (u : Session) → AllOrNone u.db (k a u))
        → AllOrNone t.db (continue r k t)
    Keeps-continue k (ok a) t h = h a t
    Keeps-continue k (err e) t h = inr (refl, (e, refl))

    Keeps-bind :
        (n : Exec A) (k : A → Exec B) (s : Session)
        → Keeps n
        → ((a : A) (u : Session) → AllOrNone u.db (k a u))
        → AllOrNone s.db ((n >>= k) s)
    unfolding ◌>>=◌
    Keeps-bind n k s hn hk =
        after_keeps s.db (n s).1.db ((n >>= k) s) (hn.step s) (Keeps-continue k (n s).0 (n s).1 hk)

    continue-Keeps :
        (k : A → Exec B) (d : Db) (r : Result A) (t : Session)
        → ((a : A) → Keeps (k a))
        → AllOrNone d (r, t)
        → AllOrNone d (continue r k t)
    continue-Keeps k d (ok a) t h (inl all) = inl ((h a).step t ∙ all)
    continue-Keeps k d (ok a) t h (inr (same, (e, failed))) = absurd cc
    continue-Keeps k d (err e) t h (inl all) = inl all
    continue-Keeps k d (err e) t h (inr (same, _)) = inr (same, (e, refl))

    bind-Keeps :
        (n : Exec A) (k : A → Exec B) (s : Session)
        → AllOrNone s.db (n s)
        → ((a : A) → Keeps (k a))
        → AllOrNone s.db ((n >>= k) s)
    unfolding ◌>>=◌
    bind-Keeps n k s hn hk = continue-Keeps k s.db (n s).0 (n s).1 hk hn

Result-cases : {A : Type 0} (r : Result A) → ((a : A) × (r ≡ ok a)) ⊎ ((e : Error) × (r ≡ err e))
Result-cases (ok a) = inl (a, refl)
Result-cases (err e) = inr (e, refl)

execute-Keeps :
    (w : String → Error) (f : Db → Db) → ((d : Db) → SameTables d (f d)) → Keeps (execute w f)
execute-Keeps w f h = Moves-execute SameTables _ SameTables-trans w f h

or_retry-Keeps :
    {A : Type 0} (rest : Exec (Option A)) (o : Option A) → Keeps rest → Keeps (or_retry rest o)
unfolding or_retry
or_retry-Keeps rest none h = h
or_retry-Keeps rest (some a) h = Moves-pure SameTables _ SameTables-trans (some a)

retry-Keeps :
    {A : Type 0} (w : String → Error) (f : Db → Option A) (is : List ℕ)
    → Keeps (find_model_with_retry w f is)
unfolding find_model_with_retry
retry-Keeps w f [] = Moves-pure SameTables _ SameTables-trans none
retry-Keeps w f (i ∷ is) =
    Moves-bind SameTables _ SameTables-trans _ _ (Moves-query SameTables _ SameTables-trans w f)
      (λ o. or_retry-Keeps (find_model_with_retry w f is) o (retry-Keeps w f is))

mint-Keeps : (mint : Pubkey) (o : Option Token) → Keeps (upsert_found_mint mint o)
unfolding upsert_found_mint upsert_assets_mint_account_columns write_mint_account
mint-Keeps mint none = Moves-pure SameTables _ SameTables-trans none
mint-Keeps mint (some t) =
    Moves-bind SameTables _ SameTables-trans _ _ (execute-Keeps _ _ (λ d. refl))
      (λ _. Moves-pure SameTables _ SameTables-trans (some t))

fetch-Keeps : (mint : Pubkey) → Keeps (index_and_fetch_mint_data mint)
unfolding index_and_fetch_mint_data
fetch-Keeps mint =
    Moves-bind SameTables _ SameTables-trans _ _ (retry-Keeps _ _ _) (λ o. mint-Keeps mint o)

account-Keeps : (mint : Pubkey) (o : Option TokenAccount) → Keeps (upsert_found_account mint o)
unfolding upsert_found_account upsert_assets_token_account_columns write_token_account
account-Keeps mint none = Moves-pure SameTables _ SameTables-trans tt
account-Keeps mint (some a) = execute-Keeps _ _ (λ d. refl)

owner-Keeps : (mint : Pubkey) → Keeps (index_token_account_data mint)
unfolding index_token_account_data
owner-Keeps mint =
    Moves-bind SameTables _ SameTables-trans _ _ (retry-Keeps _ _ _) (λ o. account-Keeps mint o)

module _ (x : Externals) (c : AttachmentExternals) (m : Metadata) (slot : ℕ) where
  transaction-AllOrNone :
      (supply : ℕ) (s : Session)
      → AllOrNone x m slot s.db
          (transaction (save_metadata x c m (uri_of x c m supply slot) supply slot) s)
  transaction-AllOrNone supply s =
      let body = save_metadata x c m (uri_of x c m supply slot) supply slot in
      let t : Session = record s { faults = later s.faults } in
      elim (Result-cases (transaction body s).0) [
        | inl (u, done) ↦
            let (inner, kept) = transaction-keeps body s u done in
            inl (
              ap (λ (d : Db). tables_of d.assets) kept
              ∙ ap tables_of ((Does-save_metadata x c m supply slot).on_ok t u inner).1
              ∙ block_tables x c m supply slot s.db.assets)
        | inr (e, failed) ↦
            inr (ap tables_of ((IsAtomic-transaction body).on_err s e failed), (e, failed))
      ]

  -- Whatever the database does, saving a metadata account leaves `asset_data`, `asset_authority`,
  -- `asset_grouping` and `asset_creators` with all the writes that the account asks for, or it fails
  -- and leaves them as they were; never with a part of the writes.
  pub save_v1_asset-AllOrNone : (s : Session) → AllOrNone x m slot s.db (save_v1_asset x c m slot s)
  unfolding save_v1_asset upsert_asset_v1_account_attachments
  save_v1_asset-AllOrNone s = Keeps-bind x m slot _ _ s (fetch-Keeps m.mint) (λ token t.
      Keeps-bind x m slot _ _ t
        (Moves-if SameTables _ SameTables-trans _ _ _ (owner-Keeps m.mint)
          (Moves-pure SameTables _ SameTables-trans tt))
        (λ _ u. bind-Keeps x m slot _ _ u (transaction-AllOrNone _ u) (λ _.
          Moves-bind SameTables _ SameTables-trans _ _
            (Moves-if SameTables _ SameTables-trans _ _ _ (execute-Keeps _ _ (λ d. refl))
              (Moves-pure SameTables _ SameTables-trans tt))
            (λ _. Moves-pure SameTables _ SameTables-trans _))))
