-- ===== src/Transactions/Handle.antt =====
-- program_transformers/src/lib.rs: `handle_transaction`. What the parsers make of an instruction is a
-- parameter: none where no parser has the key of the program.
pub mod Refines
use digital_asset_rpc_infras.Base.{
  ℕ, ◌+◌, Bool, true, false, Option, none, some, List, [], ◌∷◌, String, if◌then◌else◌, ◌==◌, ltb,
  length, get_elem?,
}
use digital_asset_rpc_infras.Db.Tokens.{Pubkey}
use digital_asset_rpc_infras.Db.Session.{
  Error, Result, ok, err, Exec, deserialization_error, not_implemented, pure, raise, ◌>>=◌, ◌>>◌,
}
use digital_asset_rpc_infras.Bubblegum.Event.{InstructionBundle, Externals}
use digital_asset_rpc_infras.Bubblegum.Dispatch.{handle_bubblegum_instruction}
use digital_asset_rpc_infras.Accounts.Token.{TokenProgramEntity}
use digital_asset_rpc_infras.Accounts.Extensions.{TokenExtensionsProgramEntity}
use digital_asset_rpc_infras.Accounts.Close.{handle_token_program_close_ix}
use digital_asset_rpc_infras.Accounts.Dispatch.{ProgramParseResult}
use digital_asset_rpc_infras.Transactions.Order.{
  CompiledInstruction, InnerInstructions, IxPair, Ordered, order_instructions,
}

pub record TransactionInfo : Type 0 where
  pub slot : ℕ
  pub signature : String
  pub account_keys : List Pubkey
  pub message_instructions : List CompiledInstruction
  pub meta_inner_instructions : List InnerInstructions

-- `.iter().max().copied().unwrap_or(0)`
unfoldable pub max_index : List ℕ → ℕ
max_index [] = 0
max_index (a ∷ accounts) = let rest = max_index accounts in if ltb rest a then a else rest

-- The keys of the accounts, without those that are out of range.
unfoldable pub push_some : Option Pubkey → List Pubkey → List Pubkey
push_some none keys = keys
push_some (some key) keys = key ∷ keys

unfoldable pub ix_accounts : List Pubkey → List ℕ → List Pubkey
unfolding push_some
ix_accounts account_keys [] = []
ix_accounts account_keys (a ∷ accounts) =
    push_some (get_elem? account_keys a) (ix_accounts account_keys accounts)

-- The parser of a program, given the instruction, the inner ones and the keys.
abbrev pub Parser : Type 0
Parser = IxPair → Option (List IxPair) → List Pubkey → Option (Result ProgramParseResult)

module _ (x : Externals) (bundle : InstructionBundle) where
  -- What the loop adds to `not_impl`.
  unfoldable pub handle_concrete : ProgramParseResult → Exec ℕ
  handle_concrete (ProgramParseResult.bubblegum ix) = do
    handle_bubblegum_instruction x bundle ix
    pure 0
  handle_concrete (ProgramParseResult.token_program_entity (TokenProgramEntity.close_ix acc)) = do
    handle_token_program_close_ix acc
    pure 0
  handle_concrete (ProgramParseResult.token_program_entity (TokenProgramEntity.mint _)) = pure 0
  handle_concrete (ProgramParseResult.token_program_entity (TokenProgramEntity.token_account _)) =
      pure 0
  handle_concrete
        (ProgramParseResult.token_extensions_program_entity
          (TokenExtensionsProgramEntity.close_ix acc)) =
      do handle_token_program_close_ix acc; pure 0
  handle_concrete
        (ProgramParseResult.token_extensions_program_entity
          (TokenExtensionsProgramEntity.mint_account _ _)) =
      pure 0
  handle_concrete
        (ProgramParseResult.token_extensions_program_entity
          (TokenExtensionsProgramEntity.token_account _ _)) =
      pure 0
  handle_concrete (ProgramParseResult.mpl_core _) = pure 1
  handle_concrete (ProgramParseResult.token_metadata _) = pure 1
  handle_concrete (ProgramParseResult.token_inscription_account _) = pure 1
  handle_concrete ProgramParseResult.unknown = pure 1

  unfoldable pub handle_result : Option (Result ProgramParseResult) → Exec ℕ
  unfolding handle_concrete
  handle_result none = pure 0
  handle_result (some (ok concrete)) = handle_concrete concrete
  handle_result (some (err e)) = raise e

module _ (x : Externals) (parse : Parser) (tx_info : TransactionInfo) where
  abbrev pub bundle_of : InstructionBundle
  bundle_of = record { txn_id = tx_info.signature; slot = tx_info.slot }

  unfoldable pub handle_ix : Ordered → Exec ℕ
  unfolding max_index ix_accounts handle_result
  handle_ix ((program, ix), inner) =
      if ltb (length tx_info.account_keys) (max_index ix.accounts)
      then raise (deserialization_error "Missing Accounts in Serialized Ixn/Txn")
      else handle_result x bundle_of
          (parse (program, ix) inner (ix_accounts tx_info.account_keys ix.accounts))

  -- The loop, which returns `not_impl`.
  unfoldable pub handle_ixs : ℕ → List Ordered → Exec ℕ
  unfolding handle_ix
  handle_ixs not_impl [] = pure not_impl
  handle_ixs not_impl (ix ∷ ixs) = do skipped ← handle_ix ix; handle_ixs (not_impl + skipped) ixs

  unfoldable pub handle_ordered : List Ordered → Exec (Unit {0})
  unfolding handle_ixs
  handle_ordered instructions = do
    not_impl ← handle_ixs 0 instructions
    if not_impl == length instructions then raise not_implemented else pure tt

  -- None where the ordering of the instructions panics.
  unfoldable pub handle_transaction : (Pubkey → Bool) → Option (Exec (Unit {0}))
  unfolding order_instructions handle_ordered
  handle_transaction key_set =
      elim (order_instructions key_set tx_info.account_keys tx_info.meta_inner_instructions
        tx_info.message_instructions) [
          | none ↦ none
          | some instructions ↦ some (handle_ordered instructions)
        ]
