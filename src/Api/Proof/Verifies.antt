-- ===== src/Api/Proof/Verifies.antt =====
-- The proof that is built, and what its verifier makes of it.
use digital_asset_rpc_infras.Base.{
  arith, ℕ, suc, ◌+◌, ◌*◌, ◌^◌, ◌≤◌, ◌<◌, ◌≡◌, refl, ap, ◌∙◌, some, List, [], ◌∷◌, ◌++◌, String,
  All, map, map_option, length, replicate, get_elem?,
}
use digital_asset_rpc_infras.Api.Proof.{
  SimpleChangeLog, AssetProof, default_node, place, fill, build_asset_proof,
}
use digital_asset_rpc_infras.Api.Proof.Climb.{siblings, path, siblings-path, climb, climb-path}
use digital_asset_rpc_infras.Api.Proof.Found.{Lacks, IsRight, found, split_last-hashes}

map-append : {A B : Type 0} (f : A → B) (l m : List A) → map f (l ++ m) ≡ map f l ++ map f m
map-append f [] m = refl
map-append f (a ∷ l) m = ap (λ z. f a ∷ z) (map-append f l m)

map-map :
    (enc : List ℕ → String) (l : List SimpleChangeLog)
    → map (λ (n : SimpleChangeLog). enc n.hash) l
      ≡ map enc (map (λ (n : SimpleChangeLog). n.hash) l)
map-map enc [] = refl
map-map enc (n ∷ l) = ap (λ z. enc n.hash ∷ z) (map-map enc l)

-- The proof with the given root and hashes.
abbrev pub proof_of : (List ℕ → String) → List ℕ → ℕ → List ℕ → List (List ℕ) → List ℕ → AssetProof
proof_of enc tree idx leaf hashes root = record {
  root = enc root;
  leaf = enc leaf;
  proof = map enc hashes;
  node_index = idx;
  tree_id = enc tree;
}

module _ (enc : List ℕ → String) (empty_node : ℕ → List ℕ) (combine : List ℕ → List ℕ → List ℕ)
    (node : ℕ → List ℕ) where
  built :
      (tree : List ℕ) (d idx : ℕ) (rows : List SimpleChangeLog)
      → All (IsRight enc empty_node node (siblings d idx)) rows
      → ((l ix : ℕ)
          → get_elem? (siblings d idx) l ≡ some ix
          → Lacks enc empty_node node rows l
          → node ix ≡ empty_node l)
      → build_asset_proof enc empty_node tree idx (node idx) (siblings d idx) rows
        ≡ some (proof_of enc tree idx (node idx) (map node (path d idx)) (node 1))
  unfolding build_asset_proof
  built tree d idx rows right rest =
      let ns =
        fill enc empty_node tree 0 (place rows (replicate (length (siblings d idx)) default_node))
          (siblings d idx) in
      let hashes : map (λ (n : SimpleChangeLog). n.hash) ns ≡ map node (path d idx) ++ node 1 ∷ [] =
        found enc empty_node node tree rows (siblings d idx) right rest
        ∙ ap (map node) (siblings-path d idx)
        ∙ map-append node (path d idx) (1 ∷ []) in
      let (p, s, a, b) =
        split_last-hashes enc empty_node node ns (map node (path d idx)) (node 1) hashes in
      ap (map_option _) s
      ∙ ap
          (λ z. some (record {
            root = enc p.1.hash;
            leaf = enc (node idx);
            proof = z;
            node_index = idx;
            tree_id = enc tree;
          }))
          (map-map enc p.0 ∙ ap (map enc) a)
      ∙ ap (λ z. some (proof_of enc tree idx (node idx) (map node (path d idx)) z)) b

  -- Let `node` be the hashes of a tree of depth `d` in which every inner node is the combination of
  -- its children, and let the rows found have the hashes of the nodes at their levels, a level without a row
  -- being that of an empty subtree. Then a proof is built for the leaf at `idx`, it names the root of the
  -- tree, and folding its hashes from the leaf gives that root.
  pub proof_verifies :
      (tree : List ℕ) (d idx : ℕ) (rows : List SimpleChangeLog)
      → ((i : ℕ) → 1 ≤ i → i < 2 ^ d → node i ≡ combine (node (2 * i)) (node (2 * i + 1)))
      → 2 ^ d ≤ idx
      → idx < 2 ^ suc d
      → All (IsRight enc empty_node node (siblings d idx)) rows
      → ((l ix : ℕ)
          → get_elem? (siblings d idx) l ≡ some ix
          → Lacks enc empty_node node rows l
          → node ix ≡ empty_node l)
      → (build_asset_proof enc empty_node tree idx (node idx) (siblings d idx) rows
          ≡ some (proof_of enc tree idx (node idx) (map node (path d idx)) (node 1)))
        × (climb combine idx (node idx) (map node (path d idx)) ≡ node 1)
  proof_verifies tree d idx rows merkle lo hi right rest = (
    built tree d idx rows right rest,
    climb-path combine node (2 ^ d) merkle d idx (omega arith) lo hi,
  )
