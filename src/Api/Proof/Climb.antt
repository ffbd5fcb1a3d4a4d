-- ===== src/Api/Proof/Climb.antt =====
-- The nodes that a proof asks for.
use digital_asset_rpc_infras.Base.{
  ℕ, zero, suc, ◌+◌, ◌-◌, ◌*◌, ◌/◌, ◌%◌, ◌^◌, ◌≤◌, ◌<◌, ◌≡◌, refl, ap, sym, ◌∙◌, Bool, true, false,
  some, List, [], ◌∷◌, arith, ltb, if◌then◌else◌, map_option, map, ◌++◌, ◌==◌, ==_iff,
}
use digital_asset_rpc_infras.Api.Proof.{sibling, required_from, get_required_nodes_for_proof}

-- The siblings on the way up from a node at depth `d`, and the root.
abbrev pub siblings : ℕ → ℕ → List ℕ
siblings zero idx = 1 ∷ []
siblings (suc d) idx = sibling idx ∷ siblings d (idx / 2)

pow_suc : (d : ℕ) → 2 ^ suc d ≡ 2 * 2 ^ d
pow_suc d = omega arith

pow_pos : (d : ℕ) → 1 ≤ 2 ^ d
pow_pos zero = omega arith
pow_pos (suc d) = omega (arith, pow_suc d, pow_pos d)

climbs :
    (d fuel idx : ℕ)
    → d < fuel
    → 2 ^ d ≤ idx
    → idx < 2 ^ suc d
    → required_from fuel idx ≡ some (siblings d idx)
unfolding required_from
climbs zero zero idx lt lo hi = absurd (omega arith)
climbs (suc d) zero idx lt lo hi = absurd (omega arith)
climbs zero (suc fuel) idx lt lo hi = ground arith
climbs (suc d) (suc fuel) idx lt lo hi =
    let lo' : 2 ^ d ≤ idx / 2 = omega (arith, pow_suc d) in
    let hi' : idx / 2 < 2 ^ suc d = omega (arith, pow_suc d, pow_suc (suc d)) in
    let above : ltb 1 idx ≡ true = ground (arith, pow_suc d, pow_pos d) in
    ap (λ o. if ltb 1 idx then map_option (λ l. sibling idx ∷ l) o else some (1 ∷ []))
      (climbs d fuel (idx / 2) (omega arith) lo' hi')
    ∙ ap (λ b. if b then some (sibling idx ∷ siblings d (idx / 2)) else some (1 ∷ [])) above

-- For a leaf of a tree of depth `d`, at most 62, the nodes asked for are the siblings on its way up, one
-- for each level, and the root; the fuel is enough.
pub required_climbs :
    (d idx : ℕ)
    → d < 63
    → 2 ^ d ≤ idx
    → idx < 2 ^ suc d
    → get_required_nodes_for_proof idx ≡ some (siblings d idx)
unfolding get_required_nodes_for_proof
required_climbs d idx lt lo hi = climbs d 64 idx (omega arith) lo hi

-- The siblings without the root.
abbrev pub path : ℕ → ℕ → List ℕ
path zero idx = []
path (suc d) idx = sibling idx ∷ path d (idx / 2)

pub siblings-path : (d idx : ℕ) → siblings d idx ≡ path d idx ++ 1 ∷ []
siblings-path zero idx = refl
siblings-path (suc d) idx = ap (λ l. sibling idx ∷ l) (siblings-path d (idx / 2))

-- How a verifier folds a proof: the node that is reached with the hash `h` at `idx`.
module _ (combine : List ℕ → List ℕ → List ℕ) where
  abbrev pub climb : ℕ → List ℕ → List (List ℕ) → List ℕ
  climb idx h [] = h
  climb idx h (p ∷ ps) = climb (idx / 2) (if idx % 2 == 0 then combine h p else combine p h) ps

  -- The inner nodes are those below `size`.
  module _ (node : ℕ → List ℕ) (size : ℕ)
      (merkle : (i : ℕ)
        → 1 ≤ i
        → i < size
        → node i ≡ combine (node (2 * i)) (node (2 * i + 1))) where
    parity :
        (idx : ℕ) (even : Bool)
        → 1 ≤ idx / 2
        → idx / 2 < size
        → (idx % 2 == 0) ≡ even
        → let other = if even then idx + 1 else idx - 1 in
          (if even then combine (node idx) (node other) else combine (node other) (node idx))
          ≡ node (idx / 2)
    parity idx true lo hi e =
        let left : 2 * (idx / 2) ≡ idx = ground (arith, ==_iff (idx % 2) 0) in
        let right : 2 * (idx / 2) + 1 ≡ idx + 1 = omega (arith, left) in
        sym (
          merkle (idx / 2) lo hi
          ∙ ap (λ z. combine (node z) (node (2 * (idx / 2) + 1))) left
          ∙ ap (λ z. combine (node idx) (node z)) right)
    parity idx false lo hi e =
        let odd : idx % 2 ≡ 1 = ground (arith, ==_iff (idx % 2) 0) in
        let left : 2 * (idx / 2) ≡ idx - 1 = omega (arith, odd) in
        let right : 2 * (idx / 2) + 1 ≡ idx = omega (arith, odd) in
        sym (
          merkle (idx / 2) lo hi
          ∙ ap (λ z. combine (node z) (node (2 * (idx / 2) + 1))) left
          ∙ ap (λ z. combine (node (idx - 1)) (node z)) right)

    parent :
        (idx : ℕ)
        → 1 ≤ idx / 2
        → idx / 2 < size
        → (if idx % 2 == 0
            then combine (node idx) (node (sibling idx))
            else combine (node (sibling idx)) (node idx))
          ≡ node (idx / 2)
    unfolding sibling
    parent idx lo hi = parity idx (idx % 2 == 0) lo hi refl

    -- The siblings of a node lead it to the root.
    pub climb-path :
        (d idx : ℕ)
        → 2 ^ d ≤ size
        → 2 ^ d ≤ idx
        → idx < 2 ^ suc d
        → climb idx (node idx) (map node (path d idx)) ≡ node 1
    climb-path zero idx fits lo hi = ap node (omega arith)
    climb-path (suc d) idx fits lo hi =
        let lo' : 2 ^ d ≤ idx / 2 = omega (arith, pow_suc d) in
        let hi' : idx / 2 < 2 ^ suc d = omega (arith, pow_suc d, pow_suc (suc d)) in
        ap (λ h. climb (idx / 2) h (map node (path d (idx / 2))))
          (parent idx (omega (arith, pow_pos d)) (omega (arith, pow_suc d)))
        ∙ climb-path d (idx / 2) (omega (arith, pow_suc d)) lo' hi'
