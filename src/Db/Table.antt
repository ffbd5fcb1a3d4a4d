-- ===== src/Db/Table.antt =====
-- A table with a unique key, and the statement
-- `INSERT .. ON CONFLICT (key) DO UPDATE SET .. WHERE ..` on it. Where a row has the key, `update`
-- gives the row that the conflict clause leaves: the old row itself if the WHERE clause fails.
use digital_asset_rpc_infras.Base.{
  ℕ, ◌≡◌, refl, ◌↔◌, Bool, true, ◌&&◌, List, [], ◌∷◌, Option, none, some, arith, String,
  ◌==◌ as nat_beq, ==_iff, if◌then◌else◌, map_option,
}
use digital_asset_rpc_infras.Base.Int.{ℤ, eqb_ℤ, eqb_ℤ_iff}
use text.Mathlib.Text.{◌==◌ as str_eq}
use text.Mathlib.TextEquality.{eq_iff}

pub record Key (K : Type 0) : Type 0 where
  pub beq : K → K → Bool
  pub beq_iff : (a b : K) → (beq a b ≡ true) ↔ (a ≡ b)

infix 50 ◌==◌
abbrev pub ◌==◌ : {K : Type 0} ⦃e : Key K⦄ → K → K → Bool
◌==◌ ⦃e⦄ = e.beq

instance abbrev pub nat_key : Key ℕ
nat_key = record { beq = nat_beq; beq_iff = ==_iff }

instance abbrev pub int_key : Key ℤ
int_key = record { beq = eqb_ℤ; beq_iff = eqb_ℤ_iff }

instance abbrev pub string_key : Key String
string_key = record { beq = str_eq; beq_iff = eq_iff }

module _ {A B : Type 0} ⦃a : Key A⦄ ⦃b : Key B⦄ where
  abbrev pub pair_beq : A × B → A × B → Bool
  pair_beq (x, y) (x', y') = a.beq x x' && b.beq y y'

  pub pair_beq_iff : (p q : A × B) → (pair_beq p q ≡ true) ↔ (p ≡ q)
  pair_beq_iff (x, y) (x', y') = ground (arith, a.beq_iff x x', b.beq_iff y y')

  instance abbrev pub pair_key : Key (A × B)
  pair_key = record { beq = pair_beq; beq_iff = pair_beq_iff }

abbrev pub Table : Type 0 → Type 0 → Type 0
Table K R = List (K × R)

-- The row that an upsert leaves at its key.
abbrev pub upserted : {R : Type 0} → R → (R → R) → Option R → R
upserted new update none = new
upserted new update (some r) = update r

pub beq_refl : {K : Type 0} ⦃e : Key K⦄ (k : K) → (k == k) ≡ true
beq_refl ⦃e⦄ k = (e.beq_iff k k).1 refl

module _ {K R : Type 0} ⦃e : Key K⦄ where
  unfoldable pub find : K → Table K R → Option R
  find k [] = none
  find k ((j, r) ∷ t) = if j == k then some r else find k t

  unfoldable pub upsert : K → R → (R → R) → Table K R → Table K R
  upsert k new update [] = (k, new) ∷ []
  upsert k new update ((j, r) ∷ t) =
      if j == k then (j, update r) ∷ t else (j, r) ∷ upsert k new update t

  -- `INSERT .. ON CONFLICT DO NOTHING`.
  abbrev pub insert_or_keep : K → R → Table K R → Table K R
  insert_or_keep k new = upsert k new (λ r. r)

  -- `DELETE .. WHERE key = k`
  unfoldable pub delete : K → Table K R → Table K R
  delete k [] = []
  delete k ((j, r) ∷ t) = let rest = delete k t in if j == k then rest else (j, r) ∷ rest

  -- `UPDATE .. SET .. WHERE key = k`
  unfoldable pub update : K → (R → R) → Table K R → Table K R
  update k set [] = []
  update k set ((j, r) ∷ t) = (j, if j == k then set r else r) ∷ update k set t

  pub find-delete :
      (k j : K) (t : Table K R) → find j (delete k t) ≡ (if k == j then none else find j t)
  unfolding find delete
  find-delete k j [] = ground arith
  find-delete k j ((i, r) ∷ t) =
      ground (arith, e.beq_iff k j, e.beq_iff i k, e.beq_iff i j, find-delete k j t)

  pub find-update :
      (k j : K) (set : R → R) (t : Table K R)
      → find j (update k set t) ≡ (if k == j then map_option set (find j t) else find j t)
  unfolding find update
  find-update k j set [] = ground arith
  find-update k j set ((i, r) ∷ t) =
      ground (arith, e.beq_iff k j, e.beq_iff i k, e.beq_iff i j, find-update k j set t)

  pub find-upsert :
      (k j : K) (new : R) (update : R → R) (t : Table K R)
      → find j (upsert k new update t)
        ≡ (if k == j then some (upserted new update (find k t)) else find j t)
  unfolding find upsert
  find-upsert k j new update [] = refl
  find-upsert k j new update ((i, r) ∷ t) =
      ground (arith, e.beq_iff k j, e.beq_iff i k, e.beq_iff i j, find-upsert k j new update t)

  pub find-upsert_self :
      (k : K) (new : R) (update : R → R) (t : Table K R)
      → find k (upsert k new update t) ≡ some (upserted new update (find k t))
  find-upsert_self k new update t = rw (find-upsert, beq_refl k)
