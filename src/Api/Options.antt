-- ===== src/Api/Options.antt =====
-- `validate_pagination` and `get_cursor` of das_api/src/api/api_impl.rs, `validate_pubkey` of
-- das_api/src/validation.rs, and the types of digital_asset_types/src/dao/mod.rs and
-- digital_asset_types/src/rpc/filter.rs that they use.
pub mod Accepted
use digital_asset_rpc_infras.Base.{
  ℕ, Bool, true, false, not, ◌||◌, Option, none, some, List, [], String, is_some, ltb, ◌==◌,
  if◌then◌else◌, unwrap_or,
}
use digital_asset_rpc_infras.Db.Schema.{Pubkey}

-- The errors of das_api/src/error.rs that validation gives.
pub data DasApiError : Type 0 where
  pubkey_validation_error cursor_validation_error : String → DasApiError
  pagination_error pagination_empty_error pagination_exceeded_error : DasApiError
  pagination_sorting_validation_error : DasApiError

pub data ApiResult (A : Type 0) : Type 0 where
  accept : A → ApiResult A
  reject : DasApiError → ApiResult A

module _ {A B : Type 0} where
  infixl 10 ◌>>=◌ ◌>>◌
  abbrev pub ◌>>=◌ : ApiResult A → (A → ApiResult B) → ApiResult B
  ◌>>=◌ (accept a) f = f a
  ◌>>=◌ (reject e) f = reject e

  abbrev pub ◌>>◌ : ApiResult A → ApiResult B → ApiResult B
  m >> n = m >>= λ _. n

pub data AssetSortBy : Type 0 where
  id created updated recent_action unsorted : AssetSortBy

pub data AssetSortDirection : Type 0 where
  asc desc : AssetSortDirection

pub record AssetSorting : Type 0 where
  pub sort_by : AssetSortBy
  pub sort_direction : Option AssetSortDirection

pub record Cursor : Type 0 where
  pub id : Option (List ℕ)

pub record PageOptions : Type 0 where
  pub limit : ℕ
  pub page : Option ℕ
  pub before : Option (List ℕ)
  pub after : Option (List ℕ)
  pub cursor : Option Cursor

-- What the other crates parse: base 58, and a public key.
pub record Parsers : Type 0 where
  pub bs58_decode : String → Option (List ℕ)
  pub pubkey_from_str : String → Option Pubkey

-- A sorting that is not by id.
abbrev sorts_otherwise : Option AssetSorting → Bool
sorts_otherwise none = false
sorts_otherwise (some s) = elim s.sort_by [
  | id ↦ false
  | created ↦ true
  | updated ↦ true
  | recent_action ↦ true
  | unsorted ↦ true
]

abbrev fail_if : Bool → DasApiError → ApiResult (Unit {0})
fail_if true e = reject e
fail_if false e = accept tt

abbrev pub above_limit : Option ℕ → Bool
above_limit none = false
above_limit (some limit) = ltb 1000 limit

abbrev check_page : Option ℕ → Bool → ApiResult (Unit {0})
check_page none others = accept tt
check_page (some page) others =
    fail_if (page == 0) pagination_empty_error >> fail_if others pagination_error

module _ (p : Parsers) where
  abbrev known : String → Option Pubkey → ApiResult Pubkey
  known s none = reject (pubkey_validation_error s)
  known s (some k) = accept k

  unfoldable pub validate_pubkey : String → ApiResult Pubkey
  validate_pubkey s = known s (p.pubkey_from_str s)

  abbrev decoded : String → Option (List ℕ) → ApiResult Cursor
  decoded s none = reject (cursor_validation_error s)
  decoded s (some bytes) = accept (record { id = some bytes })

  unfoldable pub get_cursor : Option String → ApiResult Cursor
  get_cursor none = accept (record { id = none })
  get_cursor (some s) = decoded s (p.bs58_decode s)

  -- The blocks on `before` and on `after`.
  unfoldable pub check_key :
      Option String → Option String → Option AssetSorting → ApiResult (Unit {0})
  unfolding validate_pubkey
  check_key none cursor sorting = accept tt
  check_key (some key) cursor sorting = do
    fail_if (is_some cursor) pagination_error
    fail_if (sorts_otherwise sorting) pagination_sorting_validation_error
    validate_pubkey key
    accept tt

  abbrev bytes_of : Option String → Option (List ℕ)
  bytes_of none = none
  bytes_of (some s) = some (unwrap_or (p.bs58_decode s) [])

  -- The cursor is looked at only if a sorting is given.
  unfoldable pub page_options :
      Bool
      → ℕ
      → Option ℕ
      → Option String
      → Option String
      → Option String
      → Option AssetSorting
      → ApiResult PageOptions
  unfolding get_cursor
  page_options false limit page before after cursor sorting = accept (record {
    limit = limit;
    page = page;
    before = bytes_of before;
    after = bytes_of after;
    cursor = none;
  })
  page_options true limit page before after cursor none =
      accept (record { limit = limit; page = none; before = none; after = none; cursor = none })
  page_options true limit page before after cursor (some s) = do
    fail_if (sorts_otherwise (some s)) pagination_sorting_validation_error
    c ← get_cursor cursor
    accept (record { limit = limit; page = none; before = none; after = none; cursor = some c })

  unfoldable pub validate_pagination :
      Option ℕ
      → Option ℕ
      → Option String
      → Option String
      → Option String
      → Option AssetSorting
      → ApiResult PageOptions
  unfolding check_key page_options
  validate_pagination limit page before after cursor sorting = do
    fail_if (above_limit limit) pagination_exceeded_error
    check_page page (is_some before || is_some after || is_some cursor)
    check_key before cursor sorting
    check_key after cursor sorting
    page_options (not (is_some page || is_some before || is_some after)) (unwrap_or limit 1000) page
        before after cursor sorting
