-- ===== src/Scenarios/Gaps.antt =====
-- An audit log with the sequence numbers 1, 2 and 5, and an RPC that knows only failed transactions.
use digital_asset_rpc_infras.Base.{
  ℕ, zero, suc, ◌≤◌, ◌≡◌, refl, ap, true, false, not, Option, none, some, List, [], ◌∷◌, arith,
  length, replicate, length-replicate,
}
use digital_asset_rpc_infras.TreeGaps.{
  AuditRow, TransactionStatus, find_gaps, successful, last_sent, crawl,
}
use digital_asset_rpc_infras.TreeGaps.Exact.{has_seq, in_gap, gaps_exact}
use digital_asset_rpc_infras.TreeGaps.Crawl.{crawl_repeats, crawl_sends_all, Pages, all_successful}

abbrev row : ℕ → AuditRow
row n = record { seq = n; tx = n ∷ [] }

gaps_exact_example :
    in_gap 4 (find_gaps 100 (row 1 ∷ row 2 ∷ row 5 ∷ []))
    ≡ not (has_seq 4 (row 1 ∷ row 2 ∷ row 5 ∷ []))
gaps_exact_example =
    gaps_exact 100 4 (row 1) (row 2 ∷ row 5 ∷ []) (omega arith, (omega arith, tt)) (omega arith)
      (omega arith)

abbrev failed_one : TransactionStatus
failed_one = record { signature = 3; failed = true }

none_succeed : (n : ℕ) → successful (replicate n failed_one) ≡ []
unfolding successful
none_succeed zero = refl
none_succeed (suc n) = none_succeed n

abbrev always_failed : Option ℕ → List TransactionStatus
always_failed before = replicate 1000 failed_one

page_is_full : (before : Option ℕ) → 1000 ≤ length (always_failed before)
page_is_full before = omega (arith, length-replicate 1000 failed_one)

crawl_repeats_example : crawl always_failed 5 none ≡ none
crawl_repeats_example = crawl_repeats always_failed none (page_is_full none) (none_succeed 1000) 5

abbrev sound_one : TransactionStatus
sound_one = record { signature = 3; failed = false }

-- A full page of successful transactions, and after it an empty one.
abbrev two_pages : Option ℕ → List TransactionStatus
two_pages none = replicate 1000 sound_one
two_pages (some s) = []

stays_three : (n : ℕ) → last_sent (some 3) (successful (replicate n sound_one)) ≡ some 3
unfolding successful last_sent
stays_three zero = refl
stays_three (suc n) = stays_three n

reaches_three : (n : ℕ) → last_sent none (successful (replicate (suc n) sound_one)) ≡ some 3
unfolding successful last_sent
reaches_three n = stays_three n

two_pages-Pages : Pages two_pages none (replicate 1000 sound_one ∷ [] ∷ [])
two_pages-Pages =
    let full : 1000 ≤ length (replicate 1000 sound_one) =
      omega (arith, length-replicate 1000 sound_one) in
    (refl, full, (ap two_pages (reaches_three 999), omega arith))

crawl_sends_all_example :
    crawl two_pages 2 none ≡ some (all_successful two_pages (replicate 1000 sound_one ∷ [] ∷ []))
crawl_sends_all_example =
    crawl_sends_all two_pages none (replicate 1000 sound_one ∷ [] ∷ []) 2 two_pages-Pages
      (omega arith)
