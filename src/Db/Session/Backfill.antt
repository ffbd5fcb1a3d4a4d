-- ===== src/Db/Session/Backfill.antt =====
-- Rules for blocks of statements that leave `backfill_items` alone.
use digital_asset_rpc_infras.Base.{String, ◌≡◌, refl, ◌∙◌, arith}
use digital_asset_rpc_infras.Db.Schema.{TreeTables}
use digital_asset_rpc_infras.Db.Session.{
  Error, Result, ok, err, Session, Exec, pure, execute, execute_trees, continue, ◌>>=◌,
}

-- `m` changes no row of `backfill_items`.
pub record KeepsBackfill {A : Type 0} (m : Exec A) : Type 0 where
  pub items : (s : Session) → (m s).1.db.trees.backfill_items ≡ s.db.trees.backfill_items

pub KeepsBackfill-execute :
    (w : String → Error) (f : TreeTables → TreeTables)
    → ((t : TreeTables) → (f t).backfill_items ≡ t.backfill_items)
    → KeepsBackfill (execute_trees w f)
unfolding execute
KeepsBackfill-execute w f h = record { items = λ s. ground (arith, h s.db.trees) }

pub KeepsBackfill-pure : {A : Type 0} (a : A) → KeepsBackfill (pure a)
unfolding pure
KeepsBackfill-pure a = record { items = λ s. refl }

module _ {A B : Type 0} where
  continue-KeepsBackfill :
      {k : A → Exec B}
      → ((a : A) → KeepsBackfill (k a))
      → (r : Result A) (t : Session)
      → (continue r k t).1.db.trees.backfill_items ≡ t.db.trees.backfill_items
  continue-KeepsBackfill kk (ok a) t = (kk a).items t
  continue-KeepsBackfill kk (err e) t = refl

  pub KeepsBackfill-bind :
      {m : Exec A} {k : A → Exec B}
      → KeepsBackfill m
      → ((a : A) → KeepsBackfill (k a))
      → KeepsBackfill (m >>= k)
  unfolding ◌>>=◌
  KeepsBackfill-bind {m} km kk = record {
    items = λ s. continue-KeepsBackfill kk (m s).0 (m s).1 ∙ km.items s;
  }
