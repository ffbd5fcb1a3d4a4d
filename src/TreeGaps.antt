-- ===== src/TreeGaps.antt =====
-- The tree backfiller, ops/src/bubblegum/tree.rs: the gaps in a tree's audit log, and the crawl that
-- fills one. The audit rows of a tree come in the order of their sequence numbers, which are not negative.
pub mod Exact
pub mod Crawl
use digital_asset_rpc_infras.Base.{
  ℕ, zero, suc, ◌-◌, Bool, true, false, ◌&&◌, ◌||◌, Option, none, some, List, [], ◌∷◌, ◌++◌, ltb,
  ◌==◌, if◌then◌else◌, length, is_some, map_option,
}
use digital_asset_rpc_infras.Db.Schema.{Pubkey}

-- The columns of `cl_audits_v2` that the query reads.
pub record AuditRow : Type 0 where
  pub seq : ℕ
  pub tx : List ℕ

pub record TreeGapModel : Type 0 where
  pub tree : Pubkey
  pub gap_start_seq : ℕ
  pub gap_end_seq : ℕ
  pub lower_bound_tx : List ℕ
  pub upper_bound_tx : List ℕ

-- TREE_GAP_SQL: each row is paired with the next (LEAD), and those more than 1 apart are kept.
unfoldable pub find_gaps : Pubkey → List AuditRow → List TreeGapModel
find_gaps tree [] = []
find_gaps tree (r ∷ []) = []
find_gaps tree (r ∷ s ∷ rows) =
    let more = find_gaps tree (s ∷ rows) in
    if ltb 1 (s.seq - r.seq)
    then record {
      tree = tree;
      gap_start_seq = r.seq;
      gap_end_seq = s.seq;
      lower_bound_tx = r.tx;
      upper_bound_tx = s.tx;
    }
      ∷ more
    else more

-- A signature as the RPC lists it, with whether its transaction failed.
pub record TransactionStatus : Type 0 where
  pub signature : ℕ
  pub failed : Bool

-- The signatures that the loop sends, in order.
unfoldable pub successful : List TransactionStatus → List ℕ
successful [] = []
successful (t ∷ ts) = let rest = successful ts in if t.failed then rest else t.signature ∷ rest

-- `before` after the loop: the last signature sent, if there is one.
unfoldable pub last_sent : Option ℕ → List ℕ → Option ℕ
last_sent before [] = before
last_sent before (s ∷ ss) = last_sent (some s) ss

-- The RPC's answer for a `before`, with the crawl's tree and `until` fixed.
module _ (get_signatures_for_address : Option ℕ → List TransactionStatus) where
  -- The signatures sent; `none` is out of fuel, of which each request takes one.
  unfoldable pub crawl : ℕ → Option ℕ → Option (List ℕ)
  unfolding successful last_sent
  crawl zero before = none
  crawl (suc fuel) before =
      let sigs = get_signatures_for_address before in
      let sent = successful sigs in
      let rest = crawl fuel (last_sent before sent) in
      if ltb (length sigs) 1000 then some sent else map_option (λ l. sent ++ l) rest
