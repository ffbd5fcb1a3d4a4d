-- ===== src/Api/Proof.antt =====
-- Merkle proofs: `get_required_nodes_for_proof`, `build_asset_proof` and `make_empty_node` of
-- digital_asset_types/src/dapi/change_logs.rs. Indices and levels of nodes are not negative.
pub mod Climb
pub mod Found
pub mod Verifies
use digital_asset_rpc_infras.Base.{
  ℕ, zero, suc, ◌+◌, ◌-◌, ◌/◌, ◌%◌, Bool, true, false, ◌&&◌, Option, none, some, List, [], ◌∷◌,
  String, ltb, ◌==◌, if◌then◌else◌, length, set, replicate, map, map_option,
}
use digital_asset_rpc_infras.Base.Int.{ℤ, pos, eqb_ℤ}

-- The node beside `idx`, which is above 1.
unfoldable pub sibling : ℕ → ℕ
sibling idx = if idx % 2 == 0 then idx + 1 else idx - 1

-- The loop, each turn of which halves `idx`; `none` is out of fuel.
unfoldable pub required_from : ℕ → ℕ → Option (List ℕ)
unfolding sibling
required_from zero idx = none
required_from (suc fuel) idx =
    let rest = required_from fuel (idx / 2) in
    if ltb 1 idx then map_option (λ l. sibling idx ∷ l) rest else some (1 ∷ [])

-- An `i64` is halved at most 63 times.
unfoldable pub get_required_nodes_for_proof : ℕ → Option (List ℕ)
unfolding required_from
get_required_nodes_for_proof index = required_from 64 index

pub record SimpleChangeLog : Type 0 where
  pub hash : List ℕ
  pub level : ℕ
  pub node_idx : ℕ
  pub seq : ℤ
  pub tree : List ℕ

pub record AssetProof : Type 0 where
  pub root : String
  pub proof : List String
  pub node_index : ℕ
  pub leaf : String
  pub tree_id : String

abbrev default_node : SimpleChangeLog
default_node = record { hash = []; level = 0; node_idx = 0; seq = pos 0; tree = [] }

abbrev is_nil : List ℕ → Bool
is_nil [] = true
is_nil (a ∷ l) = false

-- `*n == SimpleChangeLog::default()`
abbrev is_default : SimpleChangeLog → Bool
is_default n =
    is_nil n.hash && n.level == 0 && n.node_idx == 0 && eqb_ℤ n.seq (pos 0) && is_nil n.tree

-- Each row found goes to its level; a level beyond the path is passed over.
unfoldable pub place : List SimpleChangeLog → List SimpleChangeLog → List SimpleChangeLog
place [] acc = acc
place (n ∷ ns) acc = place ns (if ltb n.level (length acc) then set acc n.level n else acc)

-- The codec, and the hash of an empty subtree of each height (spl_concurrent_merkle_tree).
module _ (bs58_encode : List ℕ → String) (empty_node : ℕ → List ℕ) where
  unfoldable pub make_empty_node : ℕ → ℕ → List ℕ → SimpleChangeLog
  make_empty_node lvl node_index tree = record {
    node_idx = node_index;
    level = lvl;
    hash = empty_node lvl;
    seq = pos 0;
    tree = tree;
  }

  -- The nodes that were not found are empty.
  unfoldable pub fill : List ℕ → ℕ → List SimpleChangeLog → List ℕ → List SimpleChangeLog
  unfolding make_empty_node
  fill tree i (n ∷ ns) (nin ∷ ixs) =
      (if is_default n then make_empty_node i nin tree else n) ∷ fill tree (i + 1) ns ixs
  fill tree i ns ixs = ns

  -- `pop`: the last hash, and those before it.
  unfoldable pub split_last : List SimpleChangeLog → Option (List SimpleChangeLog × SimpleChangeLog)
  split_last [] = none
  split_last (n ∷ []) = some ([], n)
  split_last (n ∷ m ∷ ns) = map_option (λ p. (n ∷ p.0, p.1)) (split_last (m ∷ ns))

  unfoldable pub build_asset_proof :
      List ℕ → ℕ → List ℕ → List ℕ → List SimpleChangeLog → Option AssetProof
  unfolding place fill split_last
  build_asset_proof tree_id leaf_node_idx leaf_hash req_indexes required_nodes =
      let nodes =
        fill tree_id 0 (place required_nodes (replicate (length req_indexes) default_node))
          req_indexes in
      map_option
        (λ p. record {
          root = bs58_encode p.1.hash;
          leaf = bs58_encode leaf_hash;
          proof = map (λ (n : SimpleChangeLog). bs58_encode n.hash) p.0;
          node_index = leaf_node_idx;
          tree_id = bs58_encode tree_id;
        })
        (split_last nodes)
