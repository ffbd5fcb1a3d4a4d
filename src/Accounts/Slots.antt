-- ===== src/Accounts/Slots.antt =====
-- A column that holds the slot of the last write moves forward only. `Grows` says this of a column
-- of a table, `SlotsGrow` of the columns by which the account handlers guard their
-- writes, but for `slot_updated` of `asset`, which guards burns and which a trigger computes.
pub mod Writes
pub mod Statements
pub mod Forward
pub mod Handlers
pub mod Metadata
pub mod Core
use digital_asset_rpc_infras.Base.{
  ◌≡◌, refl, sym, subst, ap, Bool, true, false, Option, none, some, if◌then◌else◌, map_option,
  arith, Bool-cases, inl, inr, List, [], ◌∷◌,
}
use digital_asset_rpc_infras.Base.Int.{ℤ, ◌≤ℤ◌, leb_ℤ, ltb_ℤ, as_i64}
use digital_asset_rpc_infras.Db.Versioned.{newer}
use digital_asset_rpc_infras.Db.Table.{
  Table, Key, find, upsert, update, upserted, find-upsert, find-update, nat_key, ◌==◌,
}
use digital_asset_rpc_infras.Db.Tokens.{Token, TokenAccount, Attachment}
use digital_asset_rpc_infras.Db.Schema.{Db, Asset, AssetData, AssetTables}
use digital_asset_rpc_infras.Accounts.Upserts.{
  AssetTokenAccountColumns, AssetMintAccountColumns, AssetMetadataAccountColumns, not_older,
  token_account_set, token_account_update, mint_account_set, mint_account_new, mint_account_update,
  metadata_account_set, metadata_account_update, write_token_account, write_mint_account,
  write_metadata_account,
}

-- A nullable slot that has not moved back.
abbrev pub Later : Option ℤ → Option ℤ → Type 0
Later none _ = Unit
Later (some s) none = ⊥
Later (some s) (some t) = s ≤ℤ t

pub Later-refl : (a : Option ℤ) → Later a a
Later-refl none = tt
Later-refl (some s) = omega arith

pub Later-trans : (a b c : Option ℤ) → Later a b → Later b c → Later a c
Later-trans none b c h k = tt
Later-trans (some s) none c h k = elim h [ ]
Later-trans (some s) (some t) none h k = elim k [ ]
Later-trans (some s) (some t) (some u) h k = omega arith

-- The slot of a row, if there is a row.
abbrev pub slot_at : {R : Type 0} → (R → Option ℤ) → Option R → Option ℤ
slot_at slot none = none
slot_at slot (some r) = slot r

row_grows :
    {R : Type 0} (slot : R → Option ℤ) (new : R) (set : R → R) (o : Option R)
    → ((r : R) → Later (slot r) (slot (set r)))
    → Later (slot_at slot o) (slot (upserted new set o))
row_grows slot new set none h = tt
row_grows slot new set (some r) h = h r

updated_grows :
    {R : Type 0} (slot : R → Option ℤ) (set : R → R) (o : Option R)
    → ((r : R) → Later (slot r) (slot (set r)))
    → Later (slot_at slot o) (slot_at slot (map_option set o))
updated_grows slot set none h = tt
updated_grows slot set (some r) h = h r

module _ {K R : Type 0} ⦃e : Key K⦄ (slot : R → Option ℤ) where
  abbrev pub Grows : Table K R → Table K R → Type 0
  Grows t u = (k : K) → Later (slot_at slot (find k t)) (slot_at slot (find k u))

  pub Grows-refl : (t : Table K R) → Grows t t
  Grows-refl t k = Later-refl _

  pub Grows-trans : (t u v : Table K R) → Grows t u → Grows u v → Grows t v
  Grows-trans t u v h g k = Later-trans _ _ _ (h k) (g k)

  pub Grows-upsert :
      (k : K) (new : R) (set : R → R) (t : Table K R)
      → ((r : R) → Later (slot r) (slot (set r)))
      → Grows t (upsert k new set t)
  Grows-upsert k new set t h j = elim (Bool-cases (k == j)) [
    | inl same ↦
        subst (λ o. Later (slot_at slot (find j t)) (slot_at slot o))
          (sym (find-upsert k j new set t))
          (rw same (
            subst (λ i. Later (slot_at slot (find i t)) (slot (upserted new set (find k t))))
              ((e.beq_iff k j).0 same) (row_grows slot new set (find k t) h)))
    | inr other ↦
        subst (λ o. Later (slot_at slot (find j t)) (slot_at slot o))
          (sym (find-upsert k j new set t)) (rw other (Later-refl _))
  ]

  pub Grows-update :
      (k : K) (set : R → R) (t : Table K R)
      → ((r : R) → Later (slot r) (slot (set r)))
      → Grows t (update k set t)
  Grows-update k set t h j = elim (Bool-cases (k == j)) [
    | inl same ↦
        subst (λ o. Later (slot_at slot (find j t)) (slot_at slot o)) (sym (find-update k j set t))
          (rw same (updated_grows slot set (find j t) h))
    | inr other ↦
        subst (λ o. Later (slot_at slot (find j t)) (slot_at slot o)) (sym (find-update k j set t))
          (rw other (Later-refl _))
  ]

abbrev pub token_slot : Token → Option ℤ
token_slot r = some r.slot_updated

abbrev pub account_slot : TokenAccount → Option ℤ
account_slot r = some r.slot_updated

abbrev pub attachment_slot : Attachment → Option ℤ
attachment_slot r = some r.slot_updated

abbrev pub data_slot : AssetData → Option ℤ
data_slot r = some r.slot_updated

abbrev pub owner_slot : Asset → Option ℤ
owner_slot r = r.slot_updated_token_account

abbrev pub mint_slot : Asset → Option ℤ
mint_slot r = r.slot_updated_mint_account

abbrev pub metadata_slot : Asset → Option ℤ
metadata_slot r = r.slot_updated_metadata_account

-- The slots that guard the writes of account updates have not moved back, in any row, and no row
-- is gone.
pub record SlotsGrow (d e : Db) : Type 0 where
  pub tokens : Grows token_slot d.accounts.tokens e.accounts.tokens
  pub token_accounts : Grows account_slot d.accounts.token_accounts e.accounts.token_accounts
  pub attachments :
      Grows attachment_slot d.accounts.asset_v1_account_attachments
        e.accounts.asset_v1_account_attachments
  pub data_rows : Grows data_slot d.assets.asset_data e.assets.asset_data
  pub owners : Grows owner_slot d.assets.asset e.assets.asset
  pub mints : Grows mint_slot d.assets.asset e.assets.asset
  pub metadata_rows : Grows metadata_slot d.assets.asset e.assets.asset

pub SlotsGrow-refl : (d : Db) → SlotsGrow d d
SlotsGrow-refl d = record {
  tokens = Grows-refl token_slot _;
  token_accounts = Grows-refl account_slot _;
  attachments = Grows-refl attachment_slot _;
  data_rows = Grows-refl data_slot _;
  owners = Grows-refl owner_slot _;
  mints = Grows-refl mint_slot _;
  metadata_rows = Grows-refl metadata_slot _;
}

pub SlotsGrow-trans : (d e f : Db) → SlotsGrow d e → SlotsGrow e f → SlotsGrow d f
SlotsGrow-trans d e f h g = record {
  tokens = Grows-trans token_slot _ _ _ h.tokens g.tokens;
  token_accounts = Grows-trans account_slot _ _ _ h.token_accounts g.token_accounts;
  attachments = Grows-trans attachment_slot _ _ _ h.attachments g.attachments;
  data_rows = Grows-trans data_slot _ _ _ h.data_rows g.data_rows;
  owners = Grows-trans owner_slot _ _ _ h.owners g.owners;
  mints = Grows-trans mint_slot _ _ _ h.mints g.mints;
  metadata_rows = Grows-trans metadata_slot _ _ _ h.metadata_rows g.metadata_rows;
}
