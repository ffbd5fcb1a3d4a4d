-- ===== src/Transactions/Handle/Refines.antt =====
-- What a transaction of Bubblegum instructions writes.
use digital_asset_rpc_infras.Base.{
  ℕ, ◌+◌, ◌≡◌, refl, sym, ap, ◌∙◌, subst, Bool, true, false, Option, none, some, List, [], ◌∷◌,
  ◌++◌, if◌then◌else◌, length, ◌==◌, arith,
}
use digital_asset_rpc_infras.Base.Reorder.{run, run-append}
use digital_asset_rpc_infras.Db.Tokens.{Pubkey}
use digital_asset_rpc_infras.Db.Session.{
  Error, not_implemented, Result, ok, err, Session, Exec, pure, raise,
}
use digital_asset_rpc_infras.Db.Session.Inversion.{bind-ok}
use digital_asset_rpc_infras.Bubblegum.Event.{BubblegumInstruction, Externals}
use digital_asset_rpc_infras.Bubblegum.Effects.{TableOp, apply_op, writes_of}
use digital_asset_rpc_infras.Bubblegum.Dispatch.{handle_bubblegum_instruction}
use digital_asset_rpc_infras.Bubblegum.Dispatch.Handled.{refines}
use digital_asset_rpc_infras.Accounts.Dispatch.{ProgramParseResult}
use digital_asset_rpc_infras.Transactions.Order.{Ordered, order_instructions}
use digital_asset_rpc_infras.Transactions.Handle.{
  TransactionInfo, Parser, ix_accounts, handle_concrete, handle_result, bundle_of, handle_ix,
  handle_ixs, handle_ordered, handle_transaction,
}

module _ (x : Externals) (parse : Parser) (tx : TransactionInfo) where
  -- Every instruction is parsed as a Bubblegum instruction.
  abbrev pub AreParsed : List Ordered → List BubblegumInstruction → Type 0
  AreParsed [] [] = Unit
  AreParsed [] (b ∷ bs) = ⊥
  AreParsed (o ∷ os) [] = ⊥
  AreParsed (((program, ix), inner) ∷ os) (b ∷ bs) =
      (parse (program, ix) inner (ix_accounts tx.account_keys ix.accounts)
        ≡ some (ok (ProgramParseResult.bubblegum b)))
      × AreParsed os bs

  -- The writes of the instructions, in order.
  abbrev pub all_writes : List BubblegumInstruction → List TableOp
  all_writes [] = []
  all_writes (b ∷ bs) = writes_of x (bundle_of x parse tx) b ++ all_writes bs

  concrete_refines :
      (b : BubblegumInstruction) (s : Session) (n : ℕ)
      → (handle_concrete x (bundle_of x parse tx) (ProgramParseResult.bubblegum b) s).0 ≡ ok n
      → (handle_concrete x (bundle_of x parse tx) (ProgramParseResult.bubblegum b) s).1.db.assets
        ≡ run (apply_op x) (writes_of x (bundle_of x parse tx) b) s.db.assets
  unfolding handle_concrete pure
  concrete_refines b s n h =
      let m = handle_bubblegum_instruction x (bundle_of x parse tx) b in
      let (u, done, same) = bind-ok m (λ _. pure 0) s n h in
      ap (λ r. r.1.db.assets) same ∙ refines x (bundle_of x parse tx) b s done

  -- The parser's answer and the guard on the accounts are known.
  guarded_refines :
      (b : BubblegumInstruction) (guard : Bool) (e : Error) (o : Option (Result ProgramParseResult))
      (s : Session) (n : ℕ)
      → o ≡ some (ok (ProgramParseResult.bubblegum b))
      → let m : Exec ℕ = if guard then raise e else handle_result x (bundle_of x parse tx) o in
        (m s).0 ≡ ok n
        → (m s).1.db.assets ≡ run (apply_op x) (writes_of x (bundle_of x parse tx) b) s.db.assets
  unfolding handle_result raise
  guarded_refines b true e o s n p h = absurd cc
  guarded_refines b false e none s n p h = absurd cc
  guarded_refines b false e (some (err f)) s n p h = absurd cc
  guarded_refines b false e (some (ok concrete)) s n p h =
      let same : concrete ≡ ProgramParseResult.bubblegum b = cc in
      subst
        (λ q.
          (handle_concrete x (bundle_of x parse tx) q s).0 ≡ ok n
          → (handle_concrete x (bundle_of x parse tx) q s).1.db.assets
            ≡ run (apply_op x) (writes_of x (bundle_of x parse tx) b) s.db.assets)
        (sym same) (concrete_refines b s n) h

  loop_refines :
      (k : ℕ) (os : List Ordered) (bs : List BubblegumInstruction) (s : Session) (n : ℕ)
      → AreParsed os bs
      → (handle_ixs x parse tx k os s).0 ≡ ok n
      → (handle_ixs x parse tx k os s).1.db.assets ≡ run (apply_op x) (all_writes bs) s.db.assets
  unfolding handle_ixs handle_ix pure
  loop_refines k [] [] s n p h = refl
  loop_refines k [] (b ∷ bs) s n p h = elim p [ ]
  loop_refines k (o ∷ os) [] s n p h = elim p [ ]
  loop_refines k (((program, ix), inner) ∷ os) (b ∷ bs) s n p h =
      let first = handle_ix x parse tx ((program, ix), inner) in
      let (skipped, done, same) = bind-ok first (λ c. handle_ixs x parse tx (k + c) os) s n h in
      ap (λ r. r.1.db.assets) same
      ∙ loop_refines (k + skipped) os bs (first s).1 n p.1 (ap (λ r. r.0) (sym same) ∙ h)
      ∙ ap (run (apply_op x) (all_writes bs)) (guarded_refines b _ _ _ s skipped p.0 done)
      ∙ sym (run-append (apply_op x) (writes_of x (bundle_of x parse tx) b) (all_writes bs) _)

  last_keeps :
      (b : Bool) (e : Error) (s : Session)
      → let m : Exec (Unit {0}) = if b then raise e else pure tt in (m s).1.db.assets ≡ s.db.assets
  unfolding raise pure
  last_keeps true e s = refl
  last_keeps false e s = refl

  ordered_refines :
      (os : List Ordered) (bs : List BubblegumInstruction) (s : Session)
      → AreParsed os bs
      → (handle_ordered x parse tx os s).0 ≡ ok tt
      → (handle_ordered x parse tx os s).1.db.assets ≡ run (apply_op x) (all_writes bs) s.db.assets
  unfolding handle_ordered
  ordered_refines os bs s p h =
      let loop = handle_ixs x parse tx 0 os in
      let (n, done, same) = bind-ok loop _ s tt h in
      ap (λ r. r.1.db.assets) same
      ∙ last_keeps (n == length os) not_implemented (loop s).1
      ∙ loop_refines 0 os bs s n p done

  chosen :
      (key_set : Pubkey → Bool) (os : List Ordered) (m : Exec (Unit {0}))
      → order_instructions key_set tx.account_keys tx.meta_inner_instructions
          tx.message_instructions
        ≡ some os
      → handle_transaction x parse tx key_set ≡ some m
      → m ≡ handle_ordered x parse tx os
  unfolding handle_transaction
  chosen key_set os m ho hm = ground (arith, ho, hm)

  -- If a transaction of which every ordered instruction is parsed as a Bubblegum instruction is
  -- handled without an error, whatever the database and the notifier do, the asset tables are changed
  -- by exactly the writes that the specification lists for its instructions, in their order.
  pub transaction_refines :
      (key_set : Pubkey → Bool) (os : List Ordered) (bs : List BubblegumInstruction)
      (m : Exec (Unit {0})) (s : Session)
      → order_instructions key_set tx.account_keys tx.meta_inner_instructions
          tx.message_instructions
        ≡ some os
      → handle_transaction x parse tx key_set ≡ some m
      → AreParsed os bs
      → (m s).0 ≡ ok tt
      → (m s).1.db.assets ≡ run (apply_op x) (all_writes bs) s.db.assets
  transaction_refines key_set os bs m s ho hm p h =
      let same = chosen key_set os m ho hm in
      subst
        (λ (n : Exec (Unit {0})).
          (n s).0 ≡ ok tt → (n s).1.db.assets ≡ run (apply_op x) (all_writes bs) s.db.assets)
        (sym same) (ordered_refines os bs s p) h
