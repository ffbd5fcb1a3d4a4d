-- ===== src/Accounts/Core/Members.antt =====
-- `update_group_asset_authorities` of program_transformers/src/mpl_core_program/v1_asset.rs: the
-- members of a collection are read in pages, in the order of their ids, and take its authority.
pub mod Paged
pub mod Reached
use digital_asset_rpc_infras.Base.{
  ℕ, suc, zero, Bool, false, ◌&&◌, not, Option, none, some, List, [], ◌∷◌, String, if◌then◌else◌,
  ltb, ◌==◌, length,
}
use digital_asset_rpc_infras.Base.Int.{ℤ, ltb_ℤ}
use digital_asset_rpc_infras.Db.Table.{Table, find, update, nat_key, string_key}
use text.Mathlib.Text.{◌==◌ as str_eq}
use digital_asset_rpc_infras.Db.Schema.{
  Pubkey, Asset, AssetGrouping, AssetAuthority, AssetTables, Db,
}
use digital_asset_rpc_infras.Db.Session.{
  Exec, storage_write_error, asset_index_error, execute_assets, query, pure, raise, out_of_fuel,
  ◌>>=◌, ◌>>◌,
}

unfoldable pub has_value : String → AssetGrouping → Bool
has_value v r = elim r.group_value [ none ↦ false | some w ↦ str_eq w v ]

-- The rows of a group, as the ids of its assets in order.
unfoldable pub insert_id : ℕ → List ℕ → List ℕ
insert_id a [] = a ∷ []
insert_id a (b ∷ bs) = if ltb b a then b ∷ insert_id a bs else a ∷ b ∷ bs

unfoldable pub group_members : String → Table (ℕ × String) AssetGrouping → List ℕ
unfolding has_value insert_id
group_members v [] = []
group_members v (((id, key), r) ∷ t) =
    let rest = group_members v t in
    if str_eq key "collection" && has_value v r then insert_id id rest else rest

-- `.after(after)` and `.first(1_000)`
unfoldable pub ids_after : Option ℕ → List ℕ → List ℕ
ids_after none ids = ids
ids_after (some a) [] = []
ids_after (some a) (b ∷ bs) = let rest = ids_after (some a) bs in if ltb a b then b ∷ rest else rest

unfoldable pub first : ℕ → List ℕ → List ℕ
first zero ids = []
first (suc n) [] = []
first (suc n) (b ∷ bs) = b ∷ first n bs

-- `entries.last()`
unfoldable pub last_id : List ℕ → Option ℕ
last_id [] = none
last_id (b ∷ []) = some b
last_id (b ∷ c ∷ cs) = last_id (c ∷ cs)

-- The ids whose asset has a row that is not compressed.
unfoldable pub is_uncompressed : Option Asset → Bool
is_uncompressed none = false
is_uncompressed (some r) = not r.compressed

unfoldable pub uncompressed : Table ℕ Asset → List ℕ → List ℕ
unfolding is_uncompressed
uncompressed t [] = []
uncompressed t (b ∷ bs) =
    let rest = uncompressed t bs in if is_uncompressed (find b t) then b ∷ rest else rest

-- `UPDATE .. WHERE asset_id IN .. AND authority <> .. AND slot_updated < ..`
unfoldable pub take_authority : Pubkey → ℤ → AssetAuthority → AssetAuthority
take_authority authority slot r =
    if not (r.authority == authority) && ltb_ℤ r.slot_updated slot
    then record r { authority = authority; slot_updated = slot }
    else r

unfoldable pub update_authorities :
    Pubkey → ℤ → List ℕ → Table ℕ AssetAuthority → Table ℕ AssetAuthority
unfolding take_authority
update_authorities authority slot [] t = t
update_authorities authority slot (b ∷ bs) t =
    update_authorities authority slot bs (update b (take_authority authority slot) t)

unfoldable pub write_authorities : Pubkey → ℤ → List ℕ → AssetTables → AssetTables
unfolding update_authorities
write_authorities authority slot ids t = record t {
  asset_authority = update_authorities authority slot ids t.asset_authority;
}

-- `if !filtered_asset_ids.is_empty() { .. }`
unfoldable pub save_authorities : Pubkey → ℤ → List ℕ → Exec (Unit {0})
unfolding write_authorities
save_authorities authority slot [] = pure tt
save_authorities authority slot (b ∷ bs) =
    execute_assets asset_index_error (write_authorities authority slot (b ∷ bs))

module _ (page_size : ℕ) (group_value : String) (authority : Pubkey) (slot : ℤ) where
  unfoldable pub page : Option ℕ → Db → List ℕ
  unfolding group_members ids_after first
  page after d =
      first page_size (ids_after after (group_members group_value d.assets.asset_grouping))

  -- What a page of entries makes the loop do; `rest` is the loop from the last entry on.
  unfoldable pub save_page : (Option ℕ → Exec (Unit {0})) → List ℕ → Exec (Unit {0})
  unfolding uncompressed save_authorities last_id
  save_page rest [] = pure tt
  save_page rest (b ∷ bs) = do
    ids ← query storage_write_error (λ (d : Db). uncompressed d.assets.asset (b ∷ bs))
    save_authorities authority slot ids
    rest (last_id (b ∷ bs))

  -- On fuel: a round for each row of `asset_grouping`, and one more, is enough. A loop that has not
  -- ended by then has no result of the program's.
  unfoldable pub update_from : ℕ → Option ℕ → Exec (Unit {0})
  unfolding page save_page
  update_from zero after = raise out_of_fuel
  update_from (suc fuel) after = do
    entries ← query storage_write_error (page after)
    save_page (update_from fuel) entries

unfoldable pub update_group_asset_authorities : String → Pubkey → ℤ → Exec (Unit {0})
unfolding update_from
update_group_asset_authorities group_value authority slot s =
    update_from 1000 group_value authority slot (suc (length s.db.assets.asset_grouping)) none s
