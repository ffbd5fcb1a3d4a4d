-- ===== src/Db/Versioned.antt =====
-- The WHERE clauses by which the program keeps an older write from replacing a newer one, as tests
-- of a nullable sequence number, and why such writes commute.
use digital_asset_rpc_infras.Base.{
  ◌≡◌, ◌≢◌, refl, Bool, true, not, ◌&&◌, Option, none, some, arith, if◌then◌else◌,
}
use digital_asset_rpc_infras.Base.Int.{ℤ, pos, leb_ℤ, eqb_ℤ, eq_of_parts}

-- `seq != 0 OR seq IS NULL`: the asset has not been decompressed.
abbrev pub unlocked : Option ℤ → Bool
unlocked none = true
unlocked (some s) = not (eqb_ℤ s (pos 0))

-- `excluded.seq >= seq OR seq IS NULL`
abbrev pub newer : ℤ → Option ℤ → Bool
newer s none = true
newer s (some t) = leb_ℤ t s

-- `(seq != 0 AND excluded.seq >= seq) OR seq IS NULL`
abbrev pub in_sequence : ℤ → Option ℤ → Bool
in_sequence s none = true
in_sequence s (some t) = not (eqb_ℤ t (pos 0)) && leb_ℤ t s

-- Writes of the same columns, guarded by a version: the one with the greater version stays.
module _ {A : Type 0} (lock : A → Bool) (version : A → Option ℤ) where
  abbrev pub versioned : (A → A) → ℤ → A → A
  versioned set s r = if lock r && newer s (version r) then set r else r

  pub versioned_commute :
      (f g : A → A) (s t : ℤ) (r : A)
      → s ≢ t
      → (lock r ≡ true → (lock (f r) ≡ true) × (lock (g r) ≡ true))
      → version (f r) ≡ some s
      → version (g r) ≡ some t
      → f (g r) ≡ f r
      → g (f r) ≡ g r
      → versioned f s (versioned g t r) ≡ versioned g t (versioned f s r)
  versioned_commute f g s t r ne hl vf vg fg gf = ground (arith, eq_of_parts s t)

  pub versioned_idem :
      (f : A → A) (s : ℤ) (r : A)
      → version (f r) ≡ some s
      → f (f r) ≡ f r
      → versioned f s (versioned f s r) ≡ versioned f s r
  versioned_idem f s r vf ff = ground arith

pub in_sequence-eq : (s : ℤ) (o : Option ℤ) → in_sequence s o ≡ unlocked o && newer s o
in_sequence-eq s none = refl
in_sequence-eq s (some t) = refl
