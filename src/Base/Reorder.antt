-- ===== src/Base/Reorder.antt =====
-- Steps that commute may be taken in any order, and, where they are idempotent, more than once.
use mathlib.Core.List.{Permᴰ, Memᴰ}
use digital_asset_rpc_infras.Base.{
  ◌≡◌, refl, sym, ap, ◌∙◌, List, [], ◌∷◌, ◌++◌, All, subst, Bool, true, false, if◌then◌else◌,
}

-- Every two different positions hold elements that `R` relates.
abbrev pub AllPairs {ℓ κ} : {U : Type ℓ} → (U → U → Type κ) → List U → Type κ
AllPairs R [] = Unit
AllPairs R (u ∷ us) = All (R u) us × AllPairs R us

pub All-perm {ℓ κ} :
    {U : Type ℓ} (P : U → Type κ) {us vs : List U} → Permᴰ us vs → All P us → All P vs
All-perm P Permᴰ.nil h = h
All-perm P (Permᴰ.cons e p) h = (subst P e h.0, All-perm P p h.1)
All-perm P (Permᴰ.swap e f) h = (subst P f h.1.0, (subst P e h.0, h.1.1))
All-perm P (Permᴰ.trans p q) h = All-perm P q (All-perm P p h)

module _ {ℓ κ} {U : Type ℓ} (R : U → U → Type κ) (R_symm : (u v : U) → R u v → R v u) where
  pub AllPairs-perm : {us vs : List U} → Permᴰ us vs → AllPairs R us → AllPairs R vs
  AllPairs-perm Permᴰ.nil h = h
  AllPairs-perm (Permᴰ.cons {l₂ = l} e p) h =
      (subst (λ u. All (R u) l) e (All-perm (R _) p h.0), AllPairs-perm p h.1)
  AllPairs-perm (Permᴰ.swap {a = a} {b = b} {a' = a'} {b' = b'} {l = l} e f) h = (
    (subst (λ u. R u b') f (subst (R b) e (R_symm a b h.0.0)), subst (λ u. All (R u) l) f h.1.0),
    (subst (λ u. All (R u) l) e h.0.1, h.1.1),
  )
  AllPairs-perm (Permᴰ.trans p q) h = AllPairs-perm q (AllPairs-perm p h)

module _ {ℓ κ} {U : Type ℓ} {A : Type κ} (step : U → A → A) where
  abbrev pub run : List U → A → A
  run [] a = a
  run (u ∷ us) a = run us (step u a)

  pub run-append : (us vs : List U) (a : A) → run (us ++ vs) a ≡ run vs (run us a)
  run-append [] vs a = refl
  run-append (u ∷ us) vs a = run-append us vs (step u a)

module _ {ℓ κ} {U : Type ℓ} {A : Type κ} (step : U → A → A) (R : U → U → Type 0)
    (R_symm : (u v : U) → R u v → R v u)
    (commute : (u v : U) → R u v → (a : A) → step v (step u a) ≡ step u (step v a)) where
  pub run-perm :
      {us vs : List U} → Permᴰ us vs → AllPairs R us → (a : A) → run step us a ≡ run step vs a
  run-perm Permᴰ.nil h a = refl
  run-perm (Permᴰ.cons {l₂ = l} e p) h a =
      run-perm p h.1 (step _ a) ∙ ap (λ u. run step l (step u a)) e
  run-perm (Permᴰ.swap {a = u} {b = v} {b' = b'} {l = l} e f) h a =
      ap (run step l)
        (commute u v h.0.0 a ∙ ap (λ w. step w (step v a)) e ∙ ap (λ w. step b' (step w a)) f)
  run-perm (Permᴰ.trans p q) h a = run-perm p h a ∙ run-perm q (AllPairs-perm R R_symm p h) a

  pub run-step :
      (u : U) (us : List U)
      → All (R u) us
      → (a : A) → step u (run step us a) ≡ run step us (step u a)
  run-step u [] h a = refl
  run-step u (v ∷ us) h a =
      run-step u us h.1 (step v a) ∙ ap (run step us) (sym (commute u v h.0 a))

  module _ (idem : (u : U) (a : A) → step u (step u a) ≡ step u a) where
    -- What has been taken may be taken again: nothing changes.
    pub run-again :
        {u : U} {us : List U}
        → Memᴰ u us
        → AllPairs R us
        → (a : A) → step u (run step us a) ≡ run step us a
    run-again {us = []} m h a = elim m [ ]
    run-again {u = u} {us = v ∷ us} (Memᴰ.head e) h a =
        subst (λ w. step u (run step us (step w a)) ≡ run step us (step w a)) e
          (run-step u us (subst (λ w. All (R w) us) (sym e) h.0) (step u a)
            ∙ ap (run step us) (idem u a))
    run-again {us = v ∷ us} (Memᴰ.tail m) h a = run-again m h.1 (step v a)

-- Steps that are taken only where a test says so.
pub if_commute :
    {A : Type 0} (b c : Bool) (f g : A → A) (r : A)
    → (b ≡ true → c ≡ true → f (g r) ≡ g (f r))
    → (let q = if c then g r else r in if b then f q else q)
      ≡ (let q = if b then f r else r in if c then g q else q)
if_commute true true f g r h = h refl refl
if_commute true false f g r h = refl
if_commute false true f g r h = refl
if_commute false false f g r h = refl

pub if_idem :
    {A : Type 0} (b : Bool) (f : A → A) (r : A)
    → f (f r) ≡ f r
    → (let q = if b then f r else r in if b then f q else q) ≡ (if b then f r else r)
if_idem true f r h = h
if_idem false f r h = refl

pub if_map :
    {A B : Type 0} (b : Bool) (f : A → B) (p r : A) (q : B)
    → f p ≡ q
    → f (if b then p else r) ≡ (if b then q else f r)
if_map true f p r q h = h
if_map false f p r q h = refl
