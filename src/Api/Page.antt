-- ===== src/Api/Page.antt =====
-- `create_pagination` and `create_sorting` of digital_asset_types/src/dapi/common/asset.rs, and
-- `paginate` of digital_asset_types/src/dao/scopes/asset.rs. The order of ids is a parameter, as it is
-- the order that the database has on bytes.
pub mod Walk
use digital_asset_rpc_infras.Base.{
  ℕ, zero, suc, ◌+◌, ◌-◌, ◌*◌, Bool, true, false, ◌&&◌, Option, none, some, List, [], ◌∷◌, ltb,
  if◌then◌else◌,
}
use digital_asset_rpc_infras.Api.Options.{
  PageOptions, Cursor, AssetSorting, AssetSortDirection, asc, desc,
}

pub data Pagination : Type 0 where
  keyset : Option (List ℕ) → Option (List ℕ) → Pagination
  page : ℕ → Pagination
  cursor : Cursor → Pagination

-- `none` is the error "Invalid Pagination".
abbrev by_keys : Option (List ℕ) → Option (List ℕ) → Option ℕ → Option Pagination
by_keys before after none = some (keyset before after)
by_keys none none (some p) = some (page p)
by_keys _ _ (some p) = none

abbrev choose : Option Cursor → PageOptions → Option Pagination
choose (some c) o = some (cursor c)
choose none o = by_keys o.before o.after o.page

unfoldable pub create_pagination : PageOptions → Option Pagination
create_pagination o = choose o.cursor o

-- What is added to a query that is ordered by the id column.
pub record Clauses : Type 0 where
  pub less_than : Option (List ℕ)
  pub greater_than : Option (List ℕ)
  pub offset : ℕ
  pub limit : ℕ

abbrev by_cursor : Option (List ℕ) → AssetSortDirection → ℕ → Clauses
by_cursor none direction limit = record {
  less_than = none;
  greater_than = none;
  offset = 0;
  limit = limit;
}
by_cursor (some k) asc limit = record {
  less_than = none;
  greater_than = some k;
  offset = 0;
  limit = limit;
}
by_cursor (some k) desc limit = record {
  less_than = some k;
  greater_than = none;
  offset = 0;
  limit = limit;
}

unfoldable pub paginate : Pagination → ℕ → AssetSortDirection → Clauses
paginate (keyset before after) limit direction = record {
  less_than = before;
  greater_than = after;
  offset = 0;
  limit = limit;
}
paginate (page p) limit direction = record {
  less_than = none;
  greater_than = none;
  offset = if ltb 0 p then (p - 1) * limit else 0;
  limit = limit;
}
paginate (cursor c) limit direction = by_cursor c.id direction limit

abbrev pub take : {A : Type 0} → ℕ → List A → List A
take n [] = []
take zero (a ∷ l) = []
take (suc n) (a ∷ l) = a ∷ take n l

abbrev pub drop : {A : Type 0} → ℕ → List A → List A
drop n [] = []
drop zero (a ∷ l) = a ∷ l
drop (suc n) (a ∷ l) = drop n l

-- What the database gives for the clauses, from the ids in the order of the query.
module _ (lt : List ℕ → List ℕ → Bool) where
  abbrev below : Option (List ℕ) → List ℕ → Bool
  below none k = true
  below (some b) k = lt k b

  abbrev above : Option (List ℕ) → List ℕ → Bool
  above none k = true
  above (some a) k = lt a k

  abbrev pub keeps : Clauses → List ℕ → Bool
  keeps c k = below c.less_than k && above c.greater_than k

  unfoldable pub filter : Clauses → List (List ℕ) → List (List ℕ)
  filter c [] = []
  filter c (k ∷ ks) = let rest = filter c ks in if keeps c k then k ∷ rest else rest

  unfoldable pub select : Clauses → List (List ℕ) → List (List ℕ)
  unfolding filter
  select c ks = take c.limit (drop c.offset (filter c ks))
