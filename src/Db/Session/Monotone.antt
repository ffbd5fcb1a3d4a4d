-- ===== src/Db/Session/Monotone.antt =====
-- Relations between the database before and after a block of statements that hold whatever fails:
-- a reflexive and transitive relation that each statement keeps is kept by the block.
use digital_asset_rpc_infras.Base.{
  String, Option, Bool, true, false, if◌then◌else◌, ◌≡◌, refl, sym, subst, arith, ◌⊎◌, inl, inr,
}
use digital_asset_rpc_infras.Db.Schema.{Db}
use digital_asset_rpc_infras.Db.Session.{
  Error, Result, ok, err, Session, DownloadMetadataInfo, Exec, pure, raise, query, transaction,
  execute, ignore_error, notify, continue, commit, commit_beside, transaction_beside, later, ◌>>=◌,
}

-- The database after a round trip is one of two.
module _ {A : Type 0} where
  query_db : (w : String → Error) (f : Db → A) (s : Session) → (query w f s).1.db ≡ s.db
  unfolding query
  query_db w f s = ground arith

  commit_db :
      (before : Db) (r : Result A) (t : Session)
      → ((commit before (r, t)).1.db ≡ before) ⊎ ((commit before (r, t)).1.db ≡ t.db)
  unfolding commit
  commit_db before (ok a) t = ground arith
  commit_db before (err e) t = inl refl

  transaction_db :
      (m : Exec A) (s : Session)
      → ((transaction m s).1.db ≡ s.db)
        ⊎ ((transaction m s).1.db ≡ (m (record s { faults = later s.faults })).1.db)
  unfolding transaction
  transaction_db m s =
      let t : Session = record s { faults = later s.faults } in
      ground (arith, commit_db s.db (m t).0 (m t).1)

-- A transaction with work beside it: what failed before `beside` left the database as it was, what
-- failed after it keeps its work, or everything is there.
module _ {A : Type 0} (f : Db → Db) (rest : Exec A) where
  commit_beside_db :
      (r : Result (Unit {0})) (t : Session)
      → ((commit_beside f rest (r, t)).1.db ≡ t.db)
        ⊎ ((commit_beside f rest (r, t)).1.db ≡ (rest (record t { db = f t.db })).1.db)
  unfolding commit_beside
  commit_beside_db (ok u) t =
      let q : Session = record t { db = f t.db } in commit_db t.db (rest q).0 (rest q).1
  commit_beside_db (err e) t = inl refl

  abbrev executed : Session → Session
  executed s = record s { faults = later (later s.faults) }

  transaction_beside_db :
      (w : String → Error) (beside : Exec (Unit {0})) (s : Session)
      → ((transaction_beside w f beside rest s).1.db ≡ s.db)
        ⊎ ((transaction_beside w f beside rest s).1.db ≡ (beside (executed s)).1.db)
        ⊎ ((transaction_beside w f beside rest s).1.db
            ≡ (rest (record (beside (executed s)).1 { db = f (beside (executed s)).1.db })).1.db)
  unfolding transaction_beside
  transaction_beside_db w beside s =
      ground (arith, commit_beside_db (beside (executed s)).0 (beside (executed s)).1)

execute_db :
    (w : String → Error) (f : Db → Db) (s : Session)
    → ((execute w f s).1.db ≡ s.db) ⊎ ((execute w f s).1.db ≡ f s.db)
unfolding execute
execute_db w f s = ground arith

notify_db :
    (n : DownloadMetadataInfo → Option String) (i : DownloadMetadataInfo) (s : Session)
    → (notify n i s).1.db ≡ s.db
unfolding notify
notify_db n i s = ground arith

module _ (R : Db → Db → Type 0) (R_refl : (d : Db) → R d d)
    (R_trans : (d e f : Db) → R d e → R e f → R d f) where
  pub record Moves {A : Type 0} (m : Exec A) : Type 0 where
    pub step : (s : Session) → R s.db (m s).1.db

  stays : (d e : Db) → e ≡ d → R d e
  stays d e h = subst (R d) (sym h) (R_refl d)

  module _ {A : Type 0} where
    pub Moves-pure : (a : A) → Moves (pure a)
    unfolding pure
    Moves-pure a = record { step = λ s. R_refl s.db }

    pub Moves-raise : (e : Error) → Moves {A = A} (raise e)
    unfolding raise
    Moves-raise e = record { step = λ s. R_refl s.db }

    pub Moves-query : (w : String → Error) (f : Db → A) → Moves (query w f)
    Moves-query w f = record { step = λ s. stays s.db _ (query_db w f s) }

    pub Moves-transaction : (m : Exec A) → Moves m → Moves (transaction m)
    Moves-transaction m mm = record {
      step = λ s. elim (transaction_db m s) [
        | inl same ↦ stays s.db _ same
        | inr done ↦ subst (R s.db) (sym done) (mm.step (record s { faults = later s.faults }))
      ];
    }

  pub Moves-transaction_beside :
      {A : Type 0} (w : String → Error) (f : Db → Db) (beside : Exec (Unit {0})) (rest : Exec A)
      → ((d : Db) → R d (f d))
      → Moves beside
      → Moves rest
      → Moves (transaction_beside w f beside rest)
  Moves-transaction_beside w f beside rest hf hb hr = record {
    step = λ s.
        let t = (beside (executed f rest s)).1 in
        let worked = hb.step (executed f rest s) in
        elim (transaction_beside_db f rest w beside s) [
          | inl same ↦ stays s.db _ same
          | inr (inl kept) ↦ subst (R s.db) (sym kept) worked
          | inr (inr done) ↦
              subst (R s.db) (sym done) (
                R_trans _ _ _ (R_trans _ _ _ worked (hf t.db)) (hr.step (record t { db = f t.db })))
        ];
  }

  pub Moves-execute :
      (w : String → Error) (f : Db → Db) → ((d : Db) → R d (f d)) → Moves (execute w f)
  Moves-execute w f h = record {
    step = λ s. elim (execute_db w f s) [
      | inl same ↦ stays s.db _ same
      | inr done ↦ subst (R s.db) (sym done) (h s.db)
    ];
  }

  pub Moves-ignore_error : (m : Exec (Unit {0})) → Moves m → Moves (ignore_error m)
  unfolding ignore_error
  Moves-ignore_error m mm = record { step = λ s. mm.step s }

  pub Moves-notify :
      (n : DownloadMetadataInfo → Option String) (i : DownloadMetadataInfo) → Moves (notify n i)
  Moves-notify n i = record { step = λ s. stays s.db _ (notify_db n i s) }

  module _ {A B : Type 0} where
    continue_moves :
        (k : A → Exec B) (r : Result A) (t : Session)
        → ((a : A) → Moves (k a))
        → R t.db (continue r k t).1.db
    continue_moves k (ok a) t mk = (mk a).step t
    continue_moves k (err e) t mk = R_refl t.db

    pub Moves-bind :
        (m : Exec A) (k : A → Exec B) → Moves m → ((a : A) → Moves (k a)) → Moves (m >>= k)
    unfolding ◌>>=◌
    Moves-bind m k mm mk = record {
      step = λ s. R_trans _ _ _ (mm.step s) (continue_moves k (m s).0 (m s).1 mk);
    }

  pub Moves-if :
      {A : Type 0} (b : Bool) (m n : Exec A) → Moves m → Moves n → Moves (if b then m else n)
  Moves-if true m n mm mn = mm
  Moves-if false m n mm mn = mn
