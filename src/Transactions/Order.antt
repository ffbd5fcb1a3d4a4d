-- ===== src/Transactions/Order.antt =====
-- blockbuster/src/instruction.rs: the instructions of known programs in a transaction, inner ones
-- before the outer one that called them.
pub mod Known
use digital_asset_rpc_infras.Base.{
  ℕ, suc, ◌+◌, ◌%◌, Bool, true, false, Option, none, some, List, [], ◌∷◌, ◌++◌, if◌then◌else◌, ◌==◌,
  get_elem?, not,
}
use digital_asset_rpc_infras.Db.Tokens.{Pubkey}

-- solana_sdk's instruction of a message: indices into the keys of the transaction.
pub record CompiledInstruction : Type 0 where
  pub program_id_index : ℕ
  pub accounts : List ℕ
  pub data_bytes : List ℕ

-- Those that the outer instruction at `index` called.
pub record InnerInstructions : Type 0 where
  pub index : ℕ
  pub instructions : List CompiledInstruction

abbrev pub IxPair : Type 0
IxPair = Pubkey × CompiledInstruction

abbrev pub Ordered : Type 0
Ordered = IxPair × Option (List IxPair)

-- `.take_while(|(inner_pid, _)| inner_pid != pid)`
unfoldable pub until_program : Pubkey → List IxPair → List IxPair
until_program pid [] = []
until_program pid ((inner_pid, ci) ∷ rest) =
    let taken = until_program pid rest in if inner_pid == pid then [] else (inner_pid, ci) ∷ taken

unfoldable pub hoist_known_programs : (Pubkey → Bool) → List IxPair → List Ordered
unfolding until_program
hoist_known_programs programs [] = []
hoist_known_programs programs ((pid, ci) ∷ rest) =
    let hoisted = hoist_known_programs programs rest in
    if programs pid then ((pid, ci), some (until_program pid rest)) ∷ hoisted else hoisted

-- The index of the outer instruction is compared as a `u8`.
unfoldable pub inner_of : ℕ → List InnerInstructions → List CompiledInstruction
inner_of outer [] = []
inner_of outer (ix ∷ ixs) =
    let rest = inner_of outer ixs in
    if ix.index == outer % 256 then ix.instructions ++ rest else rest

-- `account_keys[..]`: none where it panics, since the index is out of range.
unfoldable pub cons_pair :
    Option Pubkey → CompiledInstruction → Option (List IxPair) → Option (List IxPair)
cons_pair (some pid) ci (some rest) = some ((pid, ci) ∷ rest)
cons_pair none ci rest = none
cons_pair (some pid) ci none = none

unfoldable pub with_programs : List Pubkey → List CompiledInstruction → Option (List IxPair)
unfolding cons_pair
with_programs account_keys [] = some []
with_programs account_keys (ci ∷ cis) =
    cons_pair (get_elem? account_keys ci.program_id_index) ci (with_programs account_keys cis)

-- The outer instruction, if its program is there and known.
unfoldable pub outer_ix :
    (Pubkey → Bool) → Option Pubkey → CompiledInstruction → List IxPair → List Ordered
outer_ix programs none ix inner = []
outer_ix programs (some pid) ix inner = if programs pid then ((pid, ix), some inner) ∷ [] else []

unfoldable pub append_ordered :
    (Pubkey → Bool)
    → Option Pubkey
    → CompiledInstruction
    → Option (List IxPair)
    → Option (List Ordered)
    → Option (List Ordered)
unfolding hoist_known_programs outer_ix
append_ordered programs outer ix (some inner) (some rest) =
    some (hoist_known_programs programs inner ++ (outer_ix programs outer ix inner ++ rest))
append_ordered programs outer ix none rest = none
append_ordered programs outer ix (some inner) none = none

module _ (programs : Pubkey → Bool) (account_keys : List Pubkey)
    (meta_inner_instructions : List InnerInstructions) where
  unfoldable pub order_from : ℕ → List CompiledInstruction → Option (List Ordered)
  unfolding inner_of with_programs append_ordered
  order_from i [] = some []
  order_from i (ix ∷ ixs) =
      append_ordered programs (get_elem? account_keys ix.program_id_index) ix
        (with_programs account_keys (inner_of i meta_inner_instructions)) (order_from (i + 1) ixs)

  unfoldable pub order_instructions : List CompiledInstruction → Option (List Ordered)
  unfolding order_from
  order_instructions message_instructions = order_from 0 message_instructions
