-- ===== src/Db/Session/Inversion.antt =====
-- What is known of a statement, or of two in sequence, that succeeded or failed.
use digital_asset_rpc_infras.Base.{String, ◌≡◌, refl, ◌⊎◌, inl, inr, arith}
use digital_asset_rpc_infras.Db.Schema.{Db}
use digital_asset_rpc_infras.Db.Session.{
  Error, Result, ok, err, Session, Exec, query, execute, continue, ◌>>=◌,
}

module _ {A B : Type 0} where
  continue-ok :
      (k : A → Exec B) (r : Result A) (t : Session) (b : B)
      → (continue r k t).0 ≡ ok b
      → (a : A) × (r ≡ ok a) × (continue r k t ≡ k a t)
  continue-ok k (ok a) t b h = (a, refl, refl)
  continue-ok k (err e) t b h = cc

  -- Both statements succeeded.
  pub bind-ok :
      (m : Exec A) (k : A → Exec B) (s : Session) (b : B)
      → ((m >>= k) s).0 ≡ ok b
      → (a : A) × ((m s).0 ≡ ok a) × ((m >>= k) s ≡ k a (m s).1)
  unfolding ◌>>=◌
  bind-ok m k s b h = continue-ok k (m s).0 (m s).1 b h

  abbrev FailsAt : (k : A → Exec B) → Result A → Session → Error → Type 0
  FailsAt k r t e =
      ((r ≡ err e) × ((continue r k t).1 ≡ t)) ⊎ ((a : A) × (r ≡ ok a) × (continue r k t ≡ k a t))

  continue-err :
      (k : A → Exec B) (r : Result A) (t : Session) (e : Error)
      → (continue r k t).0 ≡ err e
      → FailsAt k r t e
  continue-err k (ok a) t e h = inr (a, refl, refl)
  continue-err k (err x) t e h = inl (cc, refl)

  -- The first statement failed, or the second did.
  pub bind-err :
      (m : Exec A) (k : A → Exec B) (s : Session) (e : Error)
      → ((m >>= k) s).0 ≡ err e
      → (((m s).0 ≡ err e) × (((m >>= k) s).1 ≡ (m s).1))
        ⊎ ((a : A) × ((m s).0 ≡ ok a) × ((m >>= k) s ≡ k a (m s).1))
  unfolding ◌>>=◌
  bind-err m k s e h = continue-err k (m s).0 (m s).1 e h

pub query-ok :
    {A : Type 0} (w : String → Error) (f : Db → A) (s : Session) (a : A)
    → (query w f s).0 ≡ ok a
    → (a ≡ f s.db) × ((query w f s).1.db ≡ s.db)
unfolding query
query-ok w f s a h = ground arith

module _ (w : String → Error) (f : Db → Db) (s : Session) where
  pub execute-ok : (u : Unit {0}) → (execute w f s).0 ≡ ok u → (execute w f s).1.db ≡ f s.db
  unfolding execute
  execute-ok u h = ground arith

  pub execute-err : (e : Error) → (execute w f s).0 ≡ err e → (execute w f s).1.db ≡ s.db
  unfolding execute
  execute-err e h = ground arith
