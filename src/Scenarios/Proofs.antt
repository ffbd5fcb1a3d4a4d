-- ===== src/Scenarios/Proofs.antt =====
-- A tree of depth 2 with one leaf; hashes are combined by writing them one after the other.
use digital_asset_rpc_infras.Base.{
  ℕ, zero, suc, ◌+◌, ◌*◌, ◌^◌, ◌≤◌, ◌<◌, ◌≡◌, refl, ap, sym, Bool, true, false, some, List, [], ◌∷◌,
  ◌++◌, String, map, arith, get_elem?, ◌==◌,
}
use digital_asset_rpc_infras.Base.Int.{pos}
use digital_asset_rpc_infras.Api.Proof.{
  SimpleChangeLog, get_required_nodes_for_proof, build_asset_proof, sibling,
}
use digital_asset_rpc_infras.Api.Proof.Climb.{siblings, path, climb, required_climbs}
use digital_asset_rpc_infras.Api.Proof.Found.{Lacks, IsRight}
use digital_asset_rpc_infras.Api.Proof.Verifies.{proof_of, proof_verifies}

required_climbs_example : get_required_nodes_for_proof 5 ≡ some (siblings 2 5)
required_climbs_example = required_climbs 2 5 (omega arith) (omega arith) (omega arith)

abbrev text : List ℕ → String
text h = "hash"

-- The hash of an empty subtree of height `l` is 2 ^ l zeros.
abbrev empty : ℕ → List ℕ
empty zero = 0 ∷ []
empty (suc l) = empty l ++ empty l

abbrev if_then : Bool → List ℕ → List ℕ → List ℕ
if_then true a b = a
if_then false a b = b

-- Leaf 4 is 7; the other leaves, 5 to 7, are empty.
abbrev hash_at : ℕ → List ℕ
hash_at i = if_then (i == 1) (7 ∷ 0 ∷ 0 ∷ 0 ∷ []) (
    if_then (i == 2) (7 ∷ 0 ∷ [])
      (if_then (i == 3) (0 ∷ 0 ∷ []) (if_then (i == 4) (7 ∷ []) (0 ∷ []))))

-- The only row found is the root's.
abbrev root_row : SimpleChangeLog
root_row = record { hash = 7 ∷ 0 ∷ 0 ∷ 0 ∷ []; level = 2; node_idx = 1; seq = pos 1; tree = 9 ∷ [] }

adds_up : (i : ℕ) → 1 ≤ i → i < 2 ^ 2 → hash_at i ≡ hash_at (2 * i) ++ hash_at (2 * i + 1)
adds_up zero lo hi = absurd (omega arith)
adds_up (suc zero) lo hi = refl
adds_up (suc (suc zero)) lo hi = refl
adds_up (suc (suc (suc zero))) lo hi = refl
adds_up (suc (suc (suc (suc i)))) lo hi = absurd (omega arith)

root-IsRight : IsRight text empty hash_at (siblings 2 4) root_row
unfolding sibling
root-IsRight ix e = let q : 1 ≡ ix = cc in (refl, ap hash_at q)

others_empty :
    (l ix : ℕ)
    → get_elem? (siblings 2 4) l ≡ some ix
    → Lacks text empty hash_at (root_row ∷ []) l
    → hash_at ix ≡ empty l
unfolding sibling
others_empty zero ix e h = let q : 5 ≡ ix = cc in sym (ap hash_at q)
others_empty (suc zero) ix e h = let q : 3 ≡ ix = cc in sym (ap hash_at q)
others_empty (suc (suc zero)) ix e h = absurd (h.0 refl)
others_empty (suc (suc (suc l))) ix e h = cc

proof_verifies_example :
    (build_asset_proof text empty (9 ∷ []) 4 (hash_at 4) (siblings 2 4) (root_row ∷ [])
      ≡ some (proof_of text (9 ∷ []) 4 (hash_at 4) (map hash_at (path 2 4)) (hash_at 1)))
    × (climb (λ g h. g ++ h) 4 (hash_at 4) (map hash_at (path 2 4)) ≡ hash_at 1)
proof_verifies_example =
    proof_verifies text empty (λ g h. g ++ h) hash_at (9 ∷ []) 2 4 (root_row ∷ []) adds_up
      (omega arith) (omega arith) (root-IsRight, tt) others_empty
