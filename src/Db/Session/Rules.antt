-- ===== src/Db/Session/Rules.antt =====
-- Rules that follow a block of statements through binds and transactions: what it does to the asset
-- tables if it succeeds, what it leaves alone, and that it is atomic.
use digital_asset_rpc_infras.Base.{
  String, Bool, true, false, if◌then◌else◌, ◌≡◌, refl, ◌∙◌, ap, arith,
}
use digital_asset_rpc_infras.Db.Schema.{Db, AssetTables, TreeTables}
use digital_asset_rpc_infras.Db.Session.{
  Error, Result, ok, err, Session, Exec, pure, raise, query, transaction, execute, execute_assets,
  execute_trees, ignore_error, continue, commit, later, ◌>>=◌,
}

-- If `m` succeeds it returns `a`, and has changed the asset tables by `f`.
pub record Does {A : Type 0} (f : AssetTables → AssetTables) (a : A) (m : Exec A) : Type 0 where
  pub on_ok : (s : Session) (b : A) → (m s).0 ≡ ok b → (b ≡ a) × ((m s).1.db.assets ≡ f s.db.assets)

-- `m` changes no asset table.
pub record KeepsAssets {A : Type 0} (m : Exec A) : Type 0 where
  pub assets : (s : Session) → (m s).1.db.assets ≡ s.db.assets

-- If `m` fails it has changed no asset table.
pub record IsAtomic {A : Type 0} (m : Exec A) : Type 0 where
  pub on_err : (s : Session) (e : Error) → (m s).0 ≡ err e → (m s).1.db.assets ≡ s.db.assets

module _ {A : Type 0} where
  pub Does-pure : (a : A) → Does (λ t. t) a (pure a)
  unfolding pure
  Does-pure a = record { on_ok = λ s b h. ground arith }

  pub KeepsAssets-pure : (a : A) → KeepsAssets (pure a)
  unfolding pure
  KeepsAssets-pure a = record { assets = λ s. refl }

  pub KeepsAssets-raise : (e : Error) → KeepsAssets {A = A} (raise e)
  unfolding raise
  KeepsAssets-raise e = record { assets = λ s. refl }

  pub KeepsAssets-query : (w : String → Error) (f : Db → A) → KeepsAssets (query w f)
  unfolding query
  KeepsAssets-query w f = record { assets = λ s. ground arith }

  pub IsAtomic-keeps : {m : Exec A} → KeepsAssets m → IsAtomic m
  IsAtomic-keeps k = record { on_err = λ s e h. k.assets s }

  commit-undoes :
      (before : Db) (r : Result A) (t : Session) (e : Error)
      → (commit before (r, t)).0 ≡ err e
      → (commit before (r, t)).1.db ≡ before
  unfolding commit
  commit-undoes before (ok a) t e h = ground arith
  commit-undoes before (err x) t e h = refl

  commit-keeps :
      (before : Db) (r : Result A) (t : Session) (b : A)
      → (commit before (r, t)).0 ≡ ok b
      → (r ≡ ok b) × ((commit before (r, t)).1.db ≡ t.db)
  unfolding commit
  commit-keeps before (ok a) t b h = ground arith
  commit-keeps before (err x) t b h = cc

  transaction-undoes :
      (m : Exec A) (s : Session) (e : Error)
      → (transaction m s).0 ≡ err e
      → (transaction m s).1.db ≡ s.db
  unfolding transaction
  transaction-undoes m s e h =
      let t : Session = record s { faults = later s.faults } in
      ground (arith, commit-undoes s.db (m t).0 (m t).1 e)

  pub transaction-keeps :
      (m : Exec A) (s : Session) (b : A)
      → (transaction m s).0 ≡ ok b
      → let t : Session = record s { faults = later s.faults } in
        ((m t).0 ≡ ok b) × ((transaction m s).1.db ≡ (m t).1.db)
  unfolding transaction
  transaction-keeps m s b h =
      let t : Session = record s { faults = later s.faults } in
      ground (arith, commit-keeps s.db (m t).0 (m t).1 b)

  pub IsAtomic-transaction : (m : Exec A) → IsAtomic (transaction m)
  IsAtomic-transaction m = record {
    on_err = λ s e h. ap (λ (d : Db). d.assets) (transaction-undoes m s e h);
  }

  pub Does-transaction :
      {f : AssetTables → AssetTables} {a : A} {m : Exec A} → Does f a m → Does f a (transaction m)
  Does-transaction {m} d = record {
    on_ok = λ s b h.
        let kept = transaction-keeps m s b h in
        let done = d.on_ok (record s { faults = later s.faults }) b kept.0 in
        (done.0, ap (λ (d : Db). d.assets) kept.1 ∙ done.1);
  }

pub Does-execute :
    (w : String → Error) (f : AssetTables → AssetTables) → Does f tt (execute_assets w f)
unfolding execute
Does-execute w f = record { on_ok = λ s b h. ground arith }

pub KeepsAssets-execute :
    (w : String → Error) (f : TreeTables → TreeTables) → KeepsAssets (execute_trees w f)
unfolding execute
KeepsAssets-execute w f = record { assets = λ s. ground arith }

pub KeepsAssets-ignore_error : {m : Exec (Unit {0})} → KeepsAssets m → KeepsAssets (ignore_error m)
unfolding ignore_error
KeepsAssets-ignore_error k = record { assets = λ s. k.assets s }

module _ {A B : Type 0} where
  continue-Does :
      (f : AssetTables → AssetTables) {g : AssetTables → AssetTables} {a : A} {b : B}
      (k : A → Exec B)
      → Does g b (k a)
      → (base : AssetTables) (r : Result A) (t : Session) (c : B)
      → ((x : A) → r ≡ ok x → (x ≡ a) × (t.db.assets ≡ f base))
      → (continue r k t).0 ≡ ok c
      → (c ≡ b) × ((continue r k t).1.db.assets ≡ g (f base))
  continue-Does f {g} k dk base (ok x) t c facts h =
      let (p, q) = facts x refl in
      let done = dk.on_ok t c (rw p at h) in (done.0, rw p (done.1 ∙ ap g q))
  continue-Does f k dk base (err e) t c facts h = cc

  pub Does-bind :
      {f g : AssetTables → AssetTables} {a : A} {b : B} {m : Exec A} (k : A → Exec B)
      → Does f a m
      → Does g b (k a)
      → Does (λ t. g (f t)) b (m >>= k)
  unfolding ◌>>=◌
  Does-bind {f} {m} k dm dk = record {
    on_ok = λ s c h. continue-Does f k dk s.db.assets (m s).0 (m s).1 c (λ x e. dm.on_ok s x e) h;
  }

  continue-KeepsAssets :
      {k : A → Exec B}
      → ((a : A) → KeepsAssets (k a))
      → (r : Result A) (t : Session) → (continue r k t).1.db.assets ≡ t.db.assets
  continue-KeepsAssets kk (ok a) t = (kk a).assets t
  continue-KeepsAssets kk (err e) t = refl

  pub KeepsAssets-bind :
      {m : Exec A} {k : A → Exec B}
      → KeepsAssets m
      → ((a : A) → KeepsAssets (k a))
      → KeepsAssets (m >>= k)
  unfolding ◌>>=◌
  KeepsAssets-bind {m} km kk = record {
    assets = λ s. continue-KeepsAssets kk (m s).0 (m s).1 ∙ km.assets s;
  }

  continue-IsAtomic :
      {k : A → Exec B}
      → ((a : A) → IsAtomic (k a))
      → (r : Result A) (t : Session) (e : Error) → (continue r k t).0 ≡ err e
      → (continue r k t).1.db.assets ≡ t.db.assets
  continue-IsAtomic kk (ok a) t e h = (kk a).on_err t e h
  continue-IsAtomic kk (err x) t e h = refl

  -- Statements that keep the asset tables may stand before an atomic block.
  pub IsAtomic-bind :
      {m : Exec A} {k : A → Exec B}
      → KeepsAssets m
      → ((a : A) → IsAtomic (k a))
      → IsAtomic (m >>= k)
  unfolding ◌>>=◌
  IsAtomic-bind {m} km kk = record {
    on_err = λ s e h. continue-IsAtomic kk (m s).0 (m s).1 e h ∙ km.assets s;
  }

  continue-pure :
      (r : Result A) (b c : B) (t : Session) → (continue r (λ _. pure b) t).0 ≡ ok c → c ≡ b
  unfolding pure
  continue-pure (ok a) b c t h = ground arith
  continue-pure (err e) b c t h = cc

  -- `m?; Ok(b)`
  pub Does-then_pure : {m : Exec A} (b : B) → KeepsAssets m → Does (λ t. t) b (m >>= λ _. pure b)
  unfolding ◌>>=◌
  Does-then_pure {m} b k = record {
    on_ok = λ s c h. (
      continue-pure (m s).0 b c (m s).1 h,
      continue-KeepsAssets (λ _. KeepsAssets-pure b) (m s).0 (m s).1 ∙ k.assets s,
    );
  }

  continue-pure-fails :
      (r : Result A) (b : B) (t : Session) (e : Error)
      → (continue r (λ _. pure b) t).0 ≡ err e
      → (r ≡ err e) × ((continue r (λ _. pure b) t).1 ≡ t)
  unfolding pure
  continue-pure-fails (ok a) b t e h = cc
  continue-pure-fails (err x) b t e h = ground arith

  pub IsAtomic-then_pure : {m : Exec A} (b : B) → IsAtomic m → IsAtomic (m >>= λ _. pure b)
  unfolding ◌>>=◌
  IsAtomic-then_pure {m} b a = record {
    on_err = λ s e h.
        let failed = continue-pure-fails (m s).0 b (m s).1 e h in
        ap (λ (t : Session). t.db.assets) failed.1 ∙ a.on_err s e failed.0;
  }

pub KeepsAssets-if :
    {A : Type 0} (b : Bool) {m n : Exec A}
    → KeepsAssets m
    → KeepsAssets n
    → KeepsAssets (if b then m else n)
KeepsAssets-if true km kn = km
KeepsAssets-if false km kn = kn
