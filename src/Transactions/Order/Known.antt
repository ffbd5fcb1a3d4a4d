-- ===== src/Transactions/Order/Known.antt =====
-- What the ordering of instructions keeps, and in what order.
use mathlib.Core.List.{Memᴰ}
use digital_asset_rpc_infras.Base.{
  ℕ, ◌+◌, ◌%◌, ◌≡◌, ◌≢◌, ◌==◌, ==_iff, refl, sym, ap, ◌∙◌, Bool, Option, none, some, List, [], ◌∷◌,
  ◌++◌, map, if◌then◌else◌, get_elem?, arith, Bool-cases, inl, inr,
}
use digital_asset_rpc_infras.Db.Tokens.{Pubkey}
use digital_asset_rpc_infras.Transactions.Order.{
  CompiledInstruction, InnerInstructions, IxPair, Ordered, hoist_known_programs, inner_of,
  with_programs, cons_pair, outer_ix, append_ordered, order_from, order_instructions,
}

-- The instruction of an ordered entry.
abbrev pub ix_of : Ordered → IxPair
ix_of (pair, inner) = pair

map-append : (os qs : List Ordered) → map ix_of (os ++ qs) ≡ map ix_of os ++ map ix_of qs
map-append [] qs = refl
map-append (o ∷ os) qs = ap (λ is. ix_of o ∷ is) (map-append os qs)

-- The outer instruction with its program, where that is in range.
abbrev pub outer_pair : Option Pubkey → CompiledInstruction → List IxPair
outer_pair none ix = []
outer_pair (some pid) ix = (pid, ix) ∷ []

-- The program of each instruction is the key that it names.
pub data HasPrograms (keys : List Pubkey) : List CompiledInstruction → List IxPair → Type 0 where
  none_left : HasPrograms keys [] []
  resolved :
      {ci : CompiledInstruction} {pid : Pubkey} {cis : List CompiledInstruction} {ps : List IxPair}
      → get_elem? keys ci.program_id_index ≡ some pid
      → HasPrograms keys cis ps
      → HasPrograms keys (ci ∷ cis) ((pid, ci) ∷ ps)

-- The inner instructions that are recorded under the index `i`, which is kept in a byte.
pub data IsRecorded (i : ℕ) : List InnerInstructions → List CompiledInstruction → Type 0 where
  no_record : IsRecorded i [] []
  recorded :
      {ix : InnerInstructions} {ixs : List InnerInstructions} {cis : List CompiledInstruction}
      → ix.index ≡ i % 256
      → IsRecorded i ixs cis
      → IsRecorded i (ix ∷ ixs) (ix.instructions ++ cis)
  under_another :
      {ix : InnerInstructions} {ixs : List InnerInstructions} {cis : List CompiledInstruction}
      → ix.index ≢ i % 256
      → IsRecorded i ixs cis
      → IsRecorded i (ix ∷ ixs) cis

module _ (keys : List Pubkey) (inners : List InnerInstructions) where
  -- The instructions of a message from the `i`-th on: before each stand those recorded under it.
  pub data IsOrder : ℕ → List CompiledInstruction → List IxPair → Type 0 where
    no_message : {i : ℕ} → IsOrder i [] []
    message :
        {i : ℕ} {ix : CompiledInstruction} {ixs cis : List CompiledInstruction}
        {ps qs : List IxPair}
        → IsRecorded i inners cis
        → HasPrograms keys cis ps
        → IsOrder (i + 1) ixs qs
        → IsOrder i (ix ∷ ixs) (ps ++ (outer_pair (get_elem? keys ix.program_id_index) ix ++ qs))

  -- Some recorded instruction names a key that is not there.
  pub data IsOutOfRange : ℕ → List CompiledInstruction → Type 0 where
    in_this :
        {i : ℕ} {ix ci : CompiledInstruction} {ixs cis : List CompiledInstruction}
        → IsRecorded i inners cis
        → Memᴰ ci cis
        → get_elem? keys ci.program_id_index ≡ none
        → IsOutOfRange i (ix ∷ ixs)
    in_later :
        {i : ℕ} {ix : CompiledInstruction} {ixs : List CompiledInstruction}
        → IsOutOfRange (i + 1) ixs
        → IsOutOfRange i (ix ∷ ixs)

-- What `with_programs` finds, or that it panics.
abbrev Resolves : List Pubkey → List CompiledInstruction → Option (List IxPair) → Type 0
Resolves keys cis (some ps) = HasPrograms keys cis ps
Resolves keys cis none =
    (ci : CompiledInstruction) × Memᴰ ci cis × (get_elem? keys ci.program_id_index ≡ none)

Resolves-cons :
    (keys : List Pubkey) (ci : CompiledInstruction) (cis : List CompiledInstruction)
    (o : Option Pubkey) (ps : Option (List IxPair))
    → get_elem? keys ci.program_id_index ≡ o
    → Resolves keys cis ps
    → Resolves keys (ci ∷ cis) (cons_pair o ci ps)
unfolding cons_pair
Resolves-cons keys ci cis none ps e h = (ci, Memᴰ.head refl, e)
Resolves-cons keys ci cis (some pid) none e (c, m, h) = (c, Memᴰ.tail m, h)
Resolves-cons keys ci cis (some pid) (some ps) e h = HasPrograms.resolved e h

Resolves-with_programs :
    (keys : List Pubkey) (cis : List CompiledInstruction)
    → Resolves keys cis (with_programs keys cis)
unfolding with_programs
Resolves-with_programs keys [] = HasPrograms.none_left
Resolves-with_programs keys (ci ∷ cis) =
    Resolves-cons keys ci cis _ (with_programs keys cis) refl (Resolves-with_programs keys cis)

inner_of-IsRecorded : (i : ℕ) (ixs : List InnerInstructions) → IsRecorded i ixs (inner_of i ixs)
unfolding inner_of
inner_of-IsRecorded i [] = IsRecorded.no_record
inner_of-IsRecorded i (ix ∷ ixs) = elim (Bool-cases (ix.index == i % 256)) [
  | inl same ↦
      rw same (IsRecorded.recorded ((==_iff ix.index (i % 256)).0 same) (inner_of-IsRecorded i ixs))
  | inr other ↦ rw other (
      IsRecorded.under_another (ground (arith, ==_iff ix.index (i % 256)))
        (inner_of-IsRecorded i ixs))
]

module _ (programs : Pubkey → Bool) where
  -- The pairs whose program is known.
  abbrev pub known : List IxPair → List IxPair
  known [] = []
  known ((pid, ci) ∷ rest) = if programs pid then (pid, ci) ∷ known rest else known rest

  known-append : (ps qs : List IxPair) → known (ps ++ qs) ≡ known ps ++ known qs
  known-append [] qs = refl
  known-append ((pid, ci) ∷ ps) qs = ground (arith, known-append ps qs)

  hoisted_known : (ps : List IxPair) → map ix_of (hoist_known_programs programs ps) ≡ known ps
  unfolding hoist_known_programs
  hoisted_known [] = refl
  hoisted_known ((pid, ci) ∷ ps) = elim (Bool-cases (programs pid)) [
    | inl yes' ↦ rw yes' (ap (λ is. (pid, ci) ∷ is) (hoisted_known ps))
    | inr no' ↦ rw no' (hoisted_known ps)
  ]

  outer_known :
      (o : Option Pubkey) (ix : CompiledInstruction) (inner : List IxPair)
      → map ix_of (outer_ix programs o ix inner) ≡ known (outer_pair o ix)
  unfolding outer_ix
  outer_known none ix inner = refl
  outer_known (some pid) ix inner = elim (Bool-cases (programs pid)) [
    | inl yes' ↦ rw yes' refl
    | inr no' ↦ rw no' refl
  ]

  kept_known :
      (o : Option Pubkey) (ix : CompiledInstruction) (inner : List IxPair) (os : List Ordered)
      (ps : List IxPair)
      → map ix_of os ≡ known ps
      → map ix_of (hoist_known_programs programs inner ++ (outer_ix programs o ix inner ++ os))
        ≡ known (inner ++ (outer_pair o ix ++ ps))
  kept_known o ix inner os ps h =
      map-append (hoist_known_programs programs inner) _
      ∙ ap (λ is. is ++ map ix_of (outer_ix programs o ix inner ++ os)) (hoisted_known inner)
      ∙ ap (λ is. known inner ++ is)
          (map-append (outer_ix programs o ix inner) os
            ∙ ap (λ is. is ++ map ix_of os) (outer_known o ix inner)
            ∙ ap (λ is. known (outer_pair o ix) ++ is) h
            ∙ sym (known-append (outer_pair o ix) ps))
      ∙ sym (known-append inner (outer_pair o ix ++ ps))

  module _ (keys : List Pubkey) (inners : List InnerInstructions) where
    -- What the ordering gives from the `i`-th instruction on, or that it panics.
    abbrev pub Describes : ℕ → List CompiledInstruction → Option (List Ordered) → Type 0
    Describes i ixs none = IsOutOfRange keys inners i ixs
    Describes i ixs (some os) =
        (ps : List IxPair) × IsOrder keys inners i ixs ps × (map ix_of os ≡ known ps)

    Describes-step :
        (i : ℕ) (ix : CompiledInstruction) (ixs : List CompiledInstruction)
        (inner : Option (List IxPair)) (os : Option (List Ordered))
        → Resolves keys (inner_of i inners) inner
        → Describes (i + 1) ixs os
        → Describes i
            (ix ∷ ixs)
            (append_ordered programs (get_elem? keys ix.program_id_index) ix inner os)
    unfolding append_ordered
    Describes-step i ix ixs none os (ci, m, e) h =
        IsOutOfRange.in_this (inner_of-IsRecorded i inners) m e
    Describes-step i ix ixs (some inner) none r h = IsOutOfRange.in_later h
    Describes-step i ix ixs (some inner) (some os) r (ps, order, same) = (
      inner ++ (outer_pair (get_elem? keys ix.program_id_index) ix ++ ps),
      IsOrder.message (inner_of-IsRecorded i inners) r order,
      kept_known _ ix inner os ps same,
    )

    Describes-order_from :
        (i : ℕ) (ixs : List CompiledInstruction)
        → Describes i ixs (order_from programs keys inners i ixs)
    unfolding order_from
    Describes-order_from i [] = ([], IsOrder.no_message, refl)
    Describes-order_from i (ix ∷ ixs) =
        Describes-step i ix ixs _ (order_from programs keys inners (i + 1) ixs)
          (Resolves-with_programs keys (inner_of i inners)) (Describes-order_from (i + 1) ixs)

    -- The ordered instructions are those of known programs among the instructions of the message,
    -- in its order, each of them after the inner instructions that are recorded under its index, in
    -- the order of the record. The ordering panics only if a recorded instruction names a key that
    -- is not there; an instruction of the message that does so is left out.
    pub order_executed :
        (ixs : List CompiledInstruction)
        → Describes 0 ixs (order_instructions programs keys inners ixs)
    unfolding order_instructions
    order_executed ixs = Describes-order_from 0 ixs
