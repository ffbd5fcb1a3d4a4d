-- ===== src/Bubblegum/Writes/Settled.antt =====
-- Writes of one asset, with the trigger: they commute on a row that is there, and on any row but for
-- the column that the trigger sets.
use digital_asset_rpc_infras.Base.{
  ℕ, ◌≡◌, refl, ap, sym, ◌∙◌, Bool, true, false, ◌||◌, Bool-cases, inl, inr,
}
use digital_asset_rpc_infras.Db.Schema.{Asset}
use digital_asset_rpc_infras.Db.Trigger.{update_slot_updated}
use digital_asset_rpc_infras.Bubblegum.Event.{Externals}
use digital_asset_rpc_infras.Bubblegum.Writes.{
  Write, apply_write, leaf_write, owner_write, compression_write, seq_write, base_write, burn_write,
}
use digital_asset_rpc_infras.Bubblegum.Writes.Ops.{
  AssetOp, leaf, owner, seq, base, compressed, burn, write_of,
}
use digital_asset_rpc_infras.Bubblegum.Writes.Commute.{
  plain_write, IsStamped, Compatible, ops_commute, ops_idem,
}

-- A write that neither reads `slot_updated` nor depends on it.
record IsBlind (w : Write) : Type 0 where
  same_guard : (r : Asset) → w.allowed (update_slot_updated r) ≡ w.allowed r
  same_columns :
      (r : Asset)
      → update_slot_updated (w.set (update_slot_updated r)) ≡ update_slot_updated (w.set r)

write_of-IsBlind : (x : Externals) (id : ℕ) (o : AssetOp) → IsBlind (write_of x id o)
unfolding write_of leaf_write owner_write compression_write seq_write base_write burn_write
write_of-IsBlind x id (leaf i) = record { same_guard = λ r. refl; same_columns = λ r. refl }
write_of-IsBlind x id (owner _ _ _) = record { same_guard = λ r. refl; same_columns = λ r. refl }
write_of-IsBlind x id (seq _) = record { same_guard = λ r. refl; same_columns = λ r. refl }
write_of-IsBlind x id (base _) = record { same_guard = λ r. refl; same_columns = λ r. refl }
write_of-IsBlind x id compressed = record { same_guard = λ r. refl; same_columns = λ r. refl }
write_of-IsBlind x id burn = record { same_guard = λ r. refl; same_columns = λ r. refl }

-- The trigger does no more when it runs again.
settled_once :
    (w : Write) (r : Asset)
    → update_slot_updated (apply_write w r) ≡ update_slot_updated (plain_write w r)
settled_once w r = elim (Bool-cases (w.allowed r)) [
  | inl yes' ↦ rw yes' refl
  | inr no' ↦ rw no' refl
]

plain_settled :
    (w : Write) (r : Asset)
    → IsBlind w
    → update_slot_updated (plain_write w (update_slot_updated r))
      ≡ update_slot_updated (plain_write w r)
plain_settled w r h = elim (Bool-cases (w.allowed r)) [
  | inl yes' ↦ rw (h.same_guard r) (rw yes' (h.same_columns r))
  | inr no' ↦ rw (h.same_guard r) (rw no' refl)
]

-- A row that the trigger leaves as it is stays such, and what is written becomes such.
stays_settled :
    (w : Write) (r : Asset)
    → update_slot_updated r ≡ r
    → update_slot_updated (apply_write w r) ≡ apply_write w r
stays_settled w r h = elim (Bool-cases (w.allowed r)) [
  | inl yes' ↦ rw yes' refl
  | inr no' ↦ rw no' h
]

written_settled :
    (w : Write) (r : Asset)
    → w.allowed r ≡ true
    → update_slot_updated (apply_write w r) ≡ apply_write w r
written_settled w r h = rw h refl

refused : (w : Write) (r : Asset) → w.allowed r ≡ false → apply_write w r ≡ r
refused w r h = rw h refl

-- Two rows that the trigger leaves as they are are equal if it makes them equal.
settled_eq :
    (q r : Asset)
    → update_slot_updated q ≡ q
    → update_slot_updated r ≡ r
    → update_slot_updated q ≡ update_slot_updated r
    → q ≡ r
settled_eq q r hq hr h = sym hq ∙ h ∙ hr

settled_twice :
    (w v : Write) (r : Asset)
    → IsBlind w
    → update_slot_updated (apply_write w (apply_write v r))
      ≡ update_slot_updated (plain_write w (plain_write v r))
settled_twice w v r h =
    settled_once w (apply_write v r)
    ∙ sym (plain_settled w (apply_write v r) h)
    ∙ ap (λ q. update_slot_updated (plain_write w q)) (settled_once v r)
    ∙ plain_settled w (plain_write v r) h

-- If either write is made to `r`, what both leave is what the trigger leaves.
both_settled :
    (w v : Write) (r : Asset) (b c : Bool)
    → v.allowed r ≡ b
    → w.allowed r ≡ c
    → (b || c) ≡ true
    → update_slot_updated (apply_write w (apply_write v r)) ≡ apply_write w (apply_write v r)
both_settled w v r true c hv hw h = stays_settled w (apply_write v r) (written_settled v r hv)
both_settled w v r false true hv hw h =
    ap (λ q. update_slot_updated (apply_write w q)) (refused v r hv)
    ∙ written_settled w r hw
    ∙ ap (apply_write w) (sym (refused v r hv))
both_settled w v r false false hv hw h = absurd cc

-- If neither is, both leave `r`.
both_refused :
    (w v : Write) (r : Asset)
    → v.allowed r ≡ false
    → w.allowed r ≡ false
    → apply_write w (apply_write v r) ≡ r
both_refused w v r hv hw = ap (apply_write w) (refused v r hv) ∙ refused w r hw

writes_commute :
    (w v : Write) (r : Asset) (b c : Bool)
    → v.allowed r ≡ b
    → w.allowed r ≡ c
    → update_slot_updated (apply_write w (apply_write v r))
      ≡ update_slot_updated (apply_write v (apply_write w r))
    → apply_write w (apply_write v r) ≡ apply_write v (apply_write w r)
writes_commute w v r false false hv hw h = both_refused w v r hv hw ∙ sym (both_refused v w r hw hv)
writes_commute w v r true true hv hw h =
    settled_eq _ _ (both_settled w v r true true hv hw refl)
      (both_settled v w r true true hw hv refl) h
writes_commute w v r true false hv hw h =
    settled_eq _ _ (both_settled w v r true false hv hw refl)
      (both_settled v w r false true hw hv refl) h
writes_commute w v r false true hv hw h =
    settled_eq _ _ (both_settled w v r false true hv hw refl)
      (both_settled v w r true false hw hv refl) h

module _ (x : Externals) (id : ℕ) (o : AssetOp) where
  abbrev this : Write
  this = write_of x id o

  module _ (p : AssetOp) (r : Asset) (ho : IsStamped o) (hp : IsStamped p)
      (h : Compatible o p) where
    abbrev that : Write
    that = write_of x id p

    -- But for the column of the trigger.
    pub settled_commute :
        update_slot_updated (apply_write this (apply_write that r))
        ≡ update_slot_updated (apply_write that (apply_write this r))
    settled_commute =
        settled_twice this that r (write_of-IsBlind x id o)
        ∙ ap update_slot_updated (ops_commute x id o p r ho hp h)
        ∙ sym (settled_twice that this r (write_of-IsBlind x id p))

    pub row_commute : apply_write this (apply_write that r) ≡ apply_write that (apply_write this r)
    row_commute = writes_commute this that r _ _ refl refl settled_commute

  pub settled_idem :
      (r : Asset)
      → update_slot_updated (apply_write this (apply_write this r))
        ≡ update_slot_updated (apply_write this r)
  settled_idem r =
      settled_twice this this r (write_of-IsBlind x id o)
      ∙ ap update_slot_updated (ops_idem x id o r)
      ∙ sym (settled_once this r)

  idem_if :
      (r : Asset) (b : Bool)
      → (write_of x id o).allowed r ≡ b
      → apply_write this (apply_write this r) ≡ apply_write this r
  idem_if r true h =
      settled_eq _ _ (both_settled this this r true true h h refl) (written_settled this r h)
        (settled_idem r)
  idem_if r false h = ap (apply_write this) (refused this r h)

  pub row_idem : (r : Asset) → apply_write this (apply_write this r) ≡ apply_write this r
  row_idem r = idem_if r _ refl

  -- What the trigger sets before a write does not show after it.
  pub write_settled :
      (r : Asset)
      → update_slot_updated (apply_write this (update_slot_updated r))
        ≡ update_slot_updated (apply_write this r)
  write_settled r =
      settled_once this (update_slot_updated r)
      ∙ plain_settled this r (write_of-IsBlind x id o)
      ∙ sym (settled_once this r)
