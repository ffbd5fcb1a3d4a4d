-- ===== src/Bubblegum/Writes/Commute.antt =====
-- Pairs of writes of one asset, in either order.
use digital_asset_rpc_infras.Base.{
  ℕ, ◌≡◌, ◌≢◌, refl, ap, sym, true, false, ◌&&◌, Option, none, some, arith, if◌then◌else◌,
}
use digital_asset_rpc_infras.Base.Int.{ℤ, pos, eq_of_parts}
use digital_asset_rpc_infras.Db.Schema.{Asset}
use digital_asset_rpc_infras.Bubblegum.Event.{Externals}
use digital_asset_rpc_infras.Db.Versioned.{
  in_sequence, in_sequence-eq, unlocked, newer, versioned_commute, versioned_idem,
}
use digital_asset_rpc_infras.Bubblegum.Writes.Ops.{
  AssetOp, leaf, owner, seq, base, compressed, burn, write_of,
}
use digital_asset_rpc_infras.Bubblegum.Writes.{
  Write, apply_write, LeafInfo, leaf_write, owner_write, compression_write, seq_write, base_write,
  burn_write,
}

-- A write without the trigger.
abbrev pub plain_write : Write → Asset → Asset
plain_write w r = if w.allowed r then w.set r else r

-- Writes of different columns: neither changes what the other's WHERE clause reads.
commute_if :
    (w v : Write) (r : Asset)
    → (w.allowed r ≡ true → v.allowed (w.set r) ≡ v.allowed r)
    → (v.allowed r ≡ true → w.allowed (v.set r) ≡ w.allowed r)
    → w.set (v.set r) ≡ v.set (w.set r)
    → plain_write w (plain_write v r) ≡ plain_write v (plain_write w r)
commute_if w v r hw hv hs = ground (arith, hw, hv)

-- Two leaf writes are by the same schema version.
abbrev pub SameSchema : Option ℕ → Option ℕ → Type 0
SameSchema none none = Unit
SameSchema (some f) (some g) = Unit
SameSchema _ _ = ⊥

-- `seq` is not 0: a transaction of Bubblegum, not a decompression.
abbrev pub IsStamped : AssetOp → Type 0
IsStamped (seq s) = s ≢ pos 0
IsStamped _ = Unit

abbrev pub Compatible : AssetOp → AssetOp → Type 0
Compatible (leaf i) (leaf j) = (i.seq ≢ j.seq) × SameSchema i.flags j.flags
Compatible (owner _ _ s) (owner _ _ t) = s ≢ t
Compatible (base i) (base j) = i.seq ≢ j.seq
Compatible _ _ = Unit

SameSchema-symm : (f g : Option ℕ) → SameSchema f g → SameSchema g f
SameSchema-symm none none h = h
SameSchema-symm none (some g) h = h
SameSchema-symm (some f) none h = h
SameSchema-symm (some f) (some g) h = h

SameSchema-refl : (f : Option ℕ) → SameSchema f f
SameSchema-refl none = tt
SameSchema-refl (some f) = tt

leaf_set_leaf :
    (x : Externals) (i j : LeafInfo) (r : Asset)
    → SameSchema i.flags j.flags
    → (leaf_write x i).set ((leaf_write x j).set r) ≡ (leaf_write x i).set r
unfolding leaf_write
leaf_set_leaf x i j r h = ground arith

-- A write of `seq` by a number other than 0 leaves an unlocked asset unlocked.
stays_unlocked :
    (s : ℤ) (o : Option ℤ) → s ≢ pos 0 → in_sequence s o ≡ true → unlocked (some s) ≡ unlocked o
stays_unlocked s none h e = ground (arith, eq_of_parts s (pos 0))
stays_unlocked s (some t) h e = ground (arith, eq_of_parts s (pos 0))

module _ (x : Externals) (id : ℕ) (s : ℤ) (ne : s ≢ pos 0) where
  seq_commutes :
      (p : AssetOp) (r : Asset)
      → IsStamped p
      → plain_write (seq_write s) (plain_write (write_of x id p) r)
        ≡ plain_write (write_of x id p) (plain_write (seq_write s) r)
  unfolding write_of leaf_write owner_write seq_write base_write compression_write burn_write
  seq_commutes (leaf i) r h =
      commute_if (seq_write s) (leaf_write x i) r
        (λ e. ap (λ b. b && newer i.seq r.leaf_seq) (stays_unlocked s r.seq ne e)) (λ _. refl) refl
  seq_commutes (owner o d t) r h =
      commute_if (seq_write s) (owner_write o d t) r
        (λ e. ap (λ b. b && newer t r.owner_delegate_seq) (stays_unlocked s r.seq ne e)) (λ _. refl)
        refl
  seq_commutes (base i) r h =
      commute_if (seq_write s) (base_write id i) r
        (λ e. ap (λ b. b && newer i.seq r.base_info_seq) (stays_unlocked s r.seq ne e)) (λ _. refl)
        refl
  seq_commutes compressed r h =
      commute_if (seq_write s) (compression_write true false 1 none) r
        (λ e. stays_unlocked s r.seq ne e) (λ _. refl) refl
  seq_commutes burn r h = commute_if (seq_write s) burn_write r (λ _. refl) (λ _. refl) refl
  seq_commutes (seq t) r h =
      ground (arith, eq_of_parts s t, in_sequence-eq s r.seq, in_sequence-eq t r.seq)

module _ (x : Externals) (id : ℕ) where
  pub ops_commute :
      (o p : AssetOp) (r : Asset)
      → IsStamped o
      → IsStamped p
      → Compatible o p
      → plain_write (write_of x id o) (plain_write (write_of x id p) r)
        ≡ plain_write (write_of x id p) (plain_write (write_of x id o) r)
  unfolding write_of leaf_write owner_write seq_write base_write compression_write burn_write
  ops_commute (leaf i) (leaf j) r ho hp h =
      versioned_commute (λ (r : Asset). unlocked r.seq) (λ r. r.leaf_seq) (leaf_write x i).set
        (leaf_write x j).set i.seq j.seq r h.0 (λ e. (e, e)) refl refl (leaf_set_leaf x i j r h.1)
        (leaf_set_leaf x j i r (SameSchema-symm i.flags j.flags h.1))
  ops_commute (owner o d s) (owner o' d' t) r ho hp h =
      versioned_commute (λ (r : Asset). unlocked r.seq) (λ r. r.owner_delegate_seq)
        (owner_write o d s).set (owner_write o' d' t).set s t r h (λ e. (e, e)) refl refl refl refl
  ops_commute (base i) (base j) r ho hp h =
      versioned_commute (λ (r : Asset). unlocked r.seq) (λ r. r.base_info_seq) (base_write id i).set
        (base_write id j).set i.seq j.seq r h (λ e. (e, e)) refl refl refl refl
  ops_commute (seq s) p r ho hp h = seq_commutes x id s ho p r hp
  ops_commute o (seq t) r ho hp h = sym (seq_commutes x id t hp o r ho)
  ops_commute o p r ho hp h =
      commute_if (write_of x id o) (write_of x id p) r (λ _. refl) (λ _. refl) refl

  -- The same write twice is the write once.
  pub ops_idem :
      (o : AssetOp) (r : Asset)
      → plain_write (write_of x id o) (plain_write (write_of x id o) r)
        ≡ plain_write (write_of x id o) r
  unfolding write_of leaf_write owner_write seq_write base_write compression_write burn_write
  ops_idem (leaf i) r =
      versioned_idem (λ (r : Asset). unlocked r.seq) (λ r. r.leaf_seq) (leaf_write x i).set i.seq r
        refl (leaf_set_leaf x i i r (SameSchema-refl i.flags))
  ops_idem (owner o d s) r =
      versioned_idem (λ (r : Asset). unlocked r.seq) (λ r. r.owner_delegate_seq)
        (owner_write o d s).set s r refl refl
  ops_idem (base i) r =
      versioned_idem (λ (r : Asset). unlocked r.seq) (λ r. r.base_info_seq) (base_write id i).set
        i.seq r refl refl
  ops_idem (seq s) r = ground arith
  ops_idem compressed r = ground arith
  ops_idem burn r = refl

  -- A decompressed asset (`seq` is 0) keeps its row, whatever is written, unless it is burnt.
  pub decompressed_keeps :
      (o : AssetOp) (r : Asset)
      → o ≢ burn
      → r.seq ≡ some (pos 0)
      → apply_write (write_of x id o) r ≡ r
  unfolding write_of leaf_write owner_write seq_write base_write compression_write burn_write
  decompressed_keeps (leaf i) r nb h = ground arith
  decompressed_keeps (owner o d s) r nb h = ground arith
  decompressed_keeps (base i) r nb h = ground arith
  decompressed_keeps (seq s) r nb h = ground arith
  decompressed_keeps compressed r nb h = ground arith
  decompressed_keeps burn r nb h = elim (nb refl) [ ]

pub Compatible-symm : (o p : AssetOp) → Compatible o p → Compatible p o
Compatible-symm (leaf i) (leaf j) h = (λ e. h.0 (sym e), SameSchema-symm i.flags j.flags h.1)
Compatible-symm (owner _ _ s) (owner _ _ t) h = λ e. h (sym e)
Compatible-symm (base i) (base j) h = λ e. h (sym e)
Compatible-symm (seq _) (seq _) h = h
Compatible-symm compressed compressed h = h
Compatible-symm burn burn h = h
Compatible-symm o p h = h
