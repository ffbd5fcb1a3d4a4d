-- ===== src/Db/Session.antt =====
-- A database session. Each statement, `begin` and `commit` is a round trip whose outcome the
-- database chooses: `faults` lists the outcomes to come, `some e` a `DbErr` with the text `e`, and
-- past its end every round trip succeeds. `notified` holds what the download notifier was given.
pub mod Rules
pub mod Monotone
pub mod Backfill
pub mod Inversion
use digital_asset_rpc_infras.Base.{
  ℕ, String, List, [], ◌∷◌, ◌++◌, Option, none, some, Bool, true, false,
}
use digital_asset_rpc_infras.Base.Text.{remove_nul, trim}
use digital_asset_rpc_infras.Db.Tokens.{TokenTables}
use digital_asset_rpc_infras.Db.Schema.{Db, AssetTables, TreeTables}

-- program_transformers/src/error.rs, but for `out_of_fuel`, which is no error of the program: a loop
-- has not ended within the rounds that the model gives it.
pub data Error : Type 0 where
  change_log_event_malformed not_implemented out_of_fuel : Error
  storage_write_error deserialization_error serializaton_error parsing_error : String → Error
  database_error asset_index_error download_metadata_notify : String → Error

pub data Result (A : Type 0) : Type 0 where
  ok : A → Result A
  err : Error → Result A

-- program_transformers/src/lib.rs
pub record DownloadMetadataInfo : Type 0 where
  pub asset_data_id : ℕ
  pub uri : String

unfoldable pub new_download : ℕ → String → DownloadMetadataInfo
new_download id uri = record { asset_data_id = id; uri = remove_nul (trim uri) }

pub record Session : Type 0 where
  pub db : Db
  pub faults : List (Option String)
  pub notified : List DownloadMetadataInfo

abbrev pub Exec : Type 0 → Type 0
Exec A = Session → Result A × Session

abbrev pub outcome : List (Option String) → Option String
outcome [] = none
outcome (o ∷ os) = o

abbrev pub later : List (Option String) → List (Option String)
later [] = []
later (o ∷ os) = os

module _ {A : Type 0} where
  unfoldable pub pure : A → Exec A
  pure a s = (ok a, s)

  unfoldable pub raise : Error → Exec A
  raise e s = (err e, s)

  -- A query reads the database and changes nothing.
  unfoldable pub query : (String → Error) → (Db → A) → Exec A
  query wrap f s = elim (outcome s.faults) [
    | none ↦ (ok (f s.db), record s { faults = later s.faults })
    | some e ↦ (err (wrap e), record s { faults = later s.faults })
  ]

  unfoldable pub commit : Db → Result A × Session → Result A × Session
  commit before (ok a, t) = elim (outcome t.faults) [
    | none ↦ (ok a, record t { faults = later t.faults })
    | some e ↦ (err (storage_write_error e), record t { db = before; faults = later t.faults })
  ]
  commit before (err e, t) = (err e, record t { db = before })

  -- `begin`, the statements, `commit`: dropped on an error, the transaction is rolled back.
  unfoldable pub transaction : Exec A → Exec A
  unfolding commit
  transaction body s = elim (outcome s.faults) [
    | none ↦ commit s.db (body (record s { faults = later s.faults }))
    | some e ↦ (err (storage_write_error e), record s { faults = later s.faults })
  ]

-- The rest of a transaction beside which the connection has been used.
unfoldable pub commit_beside :
    {A : Type 0} → (Db → Db) → Exec A → Result (Unit {0}) × Session → Result A × Session
unfolding commit
commit_beside f rest (ok _, t) = commit t.db (rest (record t { db = f t.db }))
commit_beside f rest (err e, t) = (err e, t)

-- A transaction whose first statement is `f`, whose second part runs on the connection beside it,
-- and whose rest is on the transaction again. What is done beside it does not see `f`, and stays
-- when the transaction is rolled back; the rest sees both, which write different rows.
unfoldable pub transaction_beside :
    {A : Type 0} → (String → Error) → (Db → Db) → Exec (Unit {0}) → Exec A → Exec A
unfolding commit_beside
transaction_beside wrap f beside rest s =
    let begun : Session = record s { faults = later s.faults } in
    let executed : Session = record begun { faults = later begun.faults } in
    elim (outcome s.faults) [
      | some e ↦ (err (storage_write_error e), begun)
      | none ↦ elim (outcome begun.faults) [
        | some e ↦ (err (wrap e), executed)
        | none ↦ commit_beside f rest (beside executed)
      ]
    ]

-- `txn.execute(query).await.map_err(wrap)`; a failed statement writes nothing.
unfoldable pub execute : (String → Error) → (Db → Db) → Exec (Unit {0})
execute wrap f s = elim (outcome s.faults) [
  | none ↦ (ok tt, record s { db = f s.db; faults = later s.faults })
  | some e ↦ (err (wrap e), record s { faults = later s.faults })
]

-- Statements on one part of the database.
abbrev pub execute_assets : (String → Error) → (AssetTables → AssetTables) → Exec (Unit {0})
execute_assets wrap f = execute wrap (λ d. record d { assets = f d.assets })

abbrev pub execute_trees : (String → Error) → (TreeTables → TreeTables) → Exec (Unit {0})
execute_trees wrap f = execute wrap (λ d. record d { trees = f d.trees })

abbrev pub execute_tokens : (String → Error) → (TokenTables → TokenTables) → Exec (Unit {0})
execute_tokens wrap f = execute wrap (λ d. record d { accounts = f d.accounts })

-- `match m.await { Ok(_) => {}, Err(e) => error!(..) }`
unfoldable pub ignore_error : Exec (Unit {0}) → Exec (Unit {0})
ignore_error m s = (ok tt, (m s).1)

-- The notifier is handed its argument, and may refuse it.
unfoldable pub notify :
    (DownloadMetadataInfo → Option String) → DownloadMetadataInfo → Exec (Unit {0})
notify notifier info s =
    let t = record s { notified = s.notified ++ info ∷ [] } in
    elim (notifier info) [ none ↦ (ok tt, t) | some e ↦ (err (download_metadata_notify e), t) ]

module _ {A B : Type 0} where
  abbrev pub continue : Result A → (A → Exec B) → Exec B
  continue (ok a) f s = f a s
  continue (err e) f s = (err e, s)

  infixl 10 ◌>>=◌ ◌>>◌
  unfoldable pub ◌>>=◌ : Exec A → (A → Exec B) → Exec B
  ◌>>=◌ m f s = let (r, t) = m s in continue r f t

  abbrev pub ◌>>◌ : Exec A → Exec B → Exec B
  m >> n = m >>= λ _. n
