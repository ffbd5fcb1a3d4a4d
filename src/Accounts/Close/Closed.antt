-- ===== src/Accounts/Close/Closed.antt =====
-- What closing an account leaves.
use digital_asset_rpc_infras.Base.{
  ◌≡◌, ◌≢◌, refl, ap, ◌∙◌, true, false, Option, none, some, List, [], if◌then◌else◌, is_some,
  map_option, arith, ◌==◌, ==_iff,
}
use digital_asset_rpc_infras.Db.Table.{find, nat_key, find-delete, find-update}
use digital_asset_rpc_infras.Db.Tokens.{Pubkey, Token, TokenAccount}
use digital_asset_rpc_infras.Db.Schema.{Db, Asset}
use digital_asset_rpc_infras.Db.Trigger.{update_slot_updated}
use digital_asset_rpc_infras.Db.Session.{
  DownloadMetadataInfo, Exec, ok, Session, storage_write_error, query, execute, ignore_error, ◌>>=◌,
}
use digital_asset_rpc_infras.Db.Session.Monotone.{
  Moves, Moves-bind, Moves-execute, Moves-ignore_error, Moves-query, Moves-if,
}
use digital_asset_rpc_infras.Accounts.Close.{
  ok_flatten, delete_token, delete_token_account, burn_asset, handle_token_program_close_ix,
}

-- The tables after a close whose round trips all succeed: of a mint, and of another account.
abbrev pub closed : Pubkey → Option Token → Db → Db
closed key (some mint) d = record d {
  accounts = delete_token key d.accounts;
  assets = burn_asset key d.assets;
}
closed key none d = record d { accounts = delete_token_account key d.accounts }

close_runs :
    (key : Pubkey) (d : Db) (o : Option Token) (ns : List DownloadMetadataInfo)
    → find key d.accounts.tokens ≡ o
    → (handle_token_program_close_ix key (record { db = d; faults = []; notified = ns })).1.db
      ≡ closed key o d
unfolding handle_token_program_close_ix ok_flatten query ignore_error execute ◌>>=◌
close_runs key d none ns h = ground arith
close_runs key d (some t) ns h = ground arith

flatten_db : {A : Type 0} (m : Exec (Option A)) (s : Session) → (ok_flatten m s).1 ≡ (m s).1
unfolding ok_flatten
flatten_db m s = ground arith

-- A database on which every round trip succeeds.
abbrev pub sound_on : Db → Session
sound_on d = record { db = d; faults = []; notified = [] }

abbrev pub burnt_row : Asset → Asset
burnt_row r = update_slot_updated (record r { burnt = true })

-- Closing the account of a known mint, on a database that fails nothing, takes the mint's row out
-- of `tokens`, marks the mint's asset as burnt (its `slot_updated` is computed again), and changes
-- no other row of the two tables, nor any token account.
pub close_mint :
    (key : Pubkey) (mint : Token) (d : Db) (j : Pubkey)
    → find key d.accounts.tokens ≡ some mint
    → let e = (handle_token_program_close_ix key (sound_on d)).1.db in
      (find j e.accounts.tokens ≡ (if key == j then none else find j d.accounts.tokens))
      × (find j e.assets.asset ≡ (
          if key == j then map_option burnt_row (find j d.assets.asset) else find j d.assets.asset))
      × (e.accounts.token_accounts ≡ d.accounts.token_accounts)
unfolding delete_token burn_asset
close_mint key mint d j h =
    let same = close_runs key d (some mint) [] h in
    (
      ap (λ (e : Db). find j e.accounts.tokens) same ∙ find-delete key j d.accounts.tokens,
      ap (λ (e : Db). find j e.assets.asset) same ∙ find-update key j burnt_row d.assets.asset,
      ap (λ (e : Db). e.accounts.token_accounts) same,
    )

ignored_ok : (m : Exec (Unit {0})) (s : Session) → (ignore_error m s).0 ≡ ok tt
unfolding ignore_error
ignored_ok m s = refl

close_ok : (key : Pubkey) (s : Session) → (handle_token_program_close_ix key s).0 ≡ ok tt
unfolding handle_token_program_close_ix ok_flatten query ignore_error ◌>>=◌
close_ok key s = ground arith

-- The rows of `j` in the tables that a close writes.
abbrev pub rows_at : Pubkey → Db → Option Token × Option TokenAccount × Option Asset
rows_at j d = (find j d.accounts.tokens, find j d.accounts.token_accounts, find j d.assets.asset)

abbrev SameAt : Pubkey → Db → Db → Type 0
SameAt j d e = rows_at j e ≡ rows_at j d

module _ (key j : Pubkey) (other : key ≢ j) where
  abbrev IsFrame : {A : Type 0} → Exec A → Type 0
  IsFrame m = Moves (SameAt j) (λ d. refl) (λ d e f p q. q ∙ p) m

  not_equal : (key == j) ≡ false
  not_equal = ground (arith, ==_iff key j)

  deletes_other : (d : Db) → SameAt j d (record d { accounts = delete_token key d.accounts })
  unfolding delete_token
  deletes_other d =
      ap (λ o. (o, find j d.accounts.token_accounts, find j d.assets.asset))
        (find-delete key j d.accounts.tokens ∙ rw not_equal refl)

  deletes_other_account :
      (d : Db) → SameAt j d (record d { accounts = delete_token_account key d.accounts })
  unfolding delete_token_account
  deletes_other_account d =
      ap (λ o. (find j d.accounts.tokens, o, find j d.assets.asset))
        (find-delete key j d.accounts.token_accounts ∙ rw not_equal refl)

  burns_other : (d : Db) → SameAt j d (record d { assets = burn_asset key d.assets })
  unfolding burn_asset
  burns_other d =
      ap (λ o. (find j d.accounts.tokens, find j d.accounts.token_accounts, o))
        (find-update key j burnt_row d.assets.asset ∙ rw not_equal refl)

  ok_flatten-IsFrame : {A : Type 0} (m : Exec (Option A)) → IsFrame m → IsFrame (ok_flatten m)
  unfolding ok_flatten
  ok_flatten-IsFrame m h = record {
    step = λ s. ap (λ (t : Session). rows_at j t.db) (flatten_db m s) ∙ h.step s;
  }

  frame_trans : (d e f : Db) → SameAt j d e → SameAt j e f → SameAt j d f
  frame_trans d e f p q = q ∙ p

  executes-IsFrame :
      (f : Db → Db)
      → ((d : Db) → SameAt j d (f d))
      → IsFrame (ignore_error (execute storage_write_error f))
  executes-IsFrame f h =
      Moves-ignore_error (SameAt j) _ _ _ (Moves-execute (SameAt j) _ _ storage_write_error f h)

  close-IsFrame : IsFrame (handle_token_program_close_ix key)
  unfolding handle_token_program_close_ix
  close-IsFrame =
      Moves-bind (SameAt j) _ _ _ _
        (ok_flatten-IsFrame _ (Moves-query (SameAt j) _ _ storage_write_error _))
        (λ mint.
          Moves-if (SameAt j) _ _ (is_some mint) _ _
            (Moves-bind (SameAt j) _ _ _ _ (executes-IsFrame _ deletes_other)
              (λ _. executes-IsFrame _ burns_other))
            (executes-IsFrame _ deletes_other_account))

-- Closing an account never fails, and, whatever the database does, leaves the rows of every other
-- key in `tokens`, `token_accounts` and `asset` as they were.
pub close_frame :
    (key j : Pubkey) (s : Session)
    → key ≢ j
    → ((handle_token_program_close_ix key s).0 ≡ ok tt)
      × (rows_at j (handle_token_program_close_ix key s).1.db ≡ rows_at j s.db)
close_frame key j s other = (close_ok key s, (close-IsFrame key j other).step s)
