-- ===== src/TreeGaps/Exact.antt =====
-- The gaps of an audit log and its missing sequence numbers.
use digital_asset_rpc_infras.Base.{
  ℕ, ◌≤◌, ◌<◌, ◌≡◌, Bool, false, not, ◌&&◌, ◌||◌, List, [], ◌∷◌, ltb, ◌==◌, ==_iff, leb, leb→le,
  Bool-cases, inl, inr, arith,
}
use digital_asset_rpc_infras.Db.Schema.{Pubkey}
use digital_asset_rpc_infras.TreeGaps.{AuditRow, TreeGapModel, find_gaps}

-- Some row has the sequence number `n`.
abbrev pub has_seq : ℕ → List AuditRow → Bool
has_seq n [] = false
has_seq n (r ∷ rows) = r.seq == n || has_seq n rows

-- `n` lies strictly inside some gap.
abbrev pub in_gap : ℕ → List TreeGapModel → Bool
in_gap n [] = false
in_gap n (g ∷ gs) = ltb g.gap_start_seq n && ltb n g.gap_end_seq || in_gap n gs

-- The rows are in the order of their sequence numbers.
abbrev pub IsSorted : List AuditRow → Type 0
IsSorted [] = Unit
IsSorted (r ∷ []) = Unit
IsSorted (r ∷ s ∷ rows) = (r.seq ≤ s.seq) × IsSorted (s ∷ rows)

-- The last of the sequence numbers.
abbrev pub last_seq : AuditRow → List AuditRow → ℕ
last_seq r [] = r.seq
last_seq r (s ∷ rows) = last_seq s rows

-- Below the first row there is nothing.
below_first :
    (tree : Pubkey) (n : ℕ) (r : AuditRow) (rows : List AuditRow)
    → IsSorted (r ∷ rows)
    → n < r.seq
    → (has_seq n (r ∷ rows) ≡ false) × (in_gap n (find_gaps tree (r ∷ rows)) ≡ false)
unfolding find_gaps
below_first tree n r [] h lt = ground (arith, ==_iff r.seq n)
below_first tree n r (s ∷ rows) h lt =
    let rest = below_first tree n s rows h.1 (omega arith) in ground (arith, ==_iff r.seq n)

-- A sequence number between those of the first and the last row is inside a gap if and only if no row
-- has it.
pub gaps_exact :
    (tree : Pubkey) (n : ℕ) (r : AuditRow) (rows : List AuditRow)
    → IsSorted (r ∷ rows)
    → r.seq ≤ n
    → n ≤ last_seq r rows
    → in_gap n (find_gaps tree (r ∷ rows)) ≡ not (has_seq n (r ∷ rows))
unfolding find_gaps
gaps_exact tree n r [] h lo hi = ground (arith, ==_iff r.seq n)
gaps_exact tree n r (s ∷ rows) h lo hi = elim (Bool-cases (leb s.seq n)) [
  | inl e ↦
      let rest = gaps_exact tree n s rows h.1 (leb→le s.seq n e) hi in
      ground (arith, ==_iff r.seq n, ==_iff s.seq n)
  | inr e ↦
      let rest = below_first tree n s rows h.1 (ground arith) in
      ground (arith, ==_iff r.seq n, ==_iff s.seq n)
]
