-- ===== src/Scenarios/Paging.antt =====
-- Requests for pages, with a codec that knows one cursor, and ids in the order of bytes.
use digital_asset_rpc_infras.Base.{
  ℕ, ◌*◌, ◌≡◌, refl, Bool, true, false, ◌&&◌, ◌||◌, none, some, List, [], ◌∷◌, ◌++◌, ltb, ◌==◌,
  arith, is_some, if◌then◌else◌, String,
}
use digital_asset_rpc_infras.Api.Options.{
  Parsers, AssetSorting, id, asc, desc, PageOptions, accept, validate_pagination, check_key,
  page_options, get_cursor, reject, above_limit, pagination_error, pagination_empty_error,
  pagination_exceeded_error,
}
use digital_asset_rpc_infras.Api.Options.Accepted.{
  OneMethod, MakesPages, is_page_zero, accepted_pages, cursor_ignored,
}
use digital_asset_rpc_infras.Api.Page.{Pagination, paginate, select, take}
use digital_asset_rpc_infras.Api.Page.Walk.{first_pages, pages_in_order, cursor_resumes}

abbrev parsers : Parsers
parsers = record { bs58_decode = λ s. some (4 ∷ []); pubkey_from_str = λ s. some 4 }

abbrev by_id : AssetSorting
by_id = record { sort_by = id; sort_direction = some asc }

abbrev resumed : PageOptions
resumed = record {
  limit = 2;
  page = none;
  before = none;
  after = none;
  cursor = some (record { id = some (4 ∷ []) });
}

resumed_accepted :
    validate_pagination parsers (some 2) none none none (some "5") (some by_id) ≡ accept resumed
unfolding validate_pagination check_key page_options get_cursor
resumed_accepted = refl

accepted_pages_example : OneMethod none none none (some "5") × MakesPages 1000 resumed
accepted_pages_example =
    accepted_pages parsers (some 2) none none none (some "5") (some by_id) resumed resumed_accepted

cursor_ignored_example : validate_pagination parsers (some 2) (some 3) none none (some "5") none ≡ (
    if above_limit (some 2)
    then reject pagination_exceeded_error
    else if is_page_zero (some 3)
    then reject pagination_empty_error
    else if is_some {A = ℕ} (some 3) || is_some {A = String} none || is_some {A = String} none
    then reject pagination_error
    else validate_pagination parsers (some 2) none none none none none)
cursor_ignored_example = cursor_ignored parsers (some 2) (some 3) none none "5"

-- The order that the database has on bytes.
abbrev bytes_lt : List ℕ → List ℕ → Bool
bytes_lt j [] = false
bytes_lt [] (b ∷ k) = true
bytes_lt (a ∷ j) (b ∷ k) = ltb a b || (a == b) && bytes_lt j k

bytes_lt-irreflexive : (k : List ℕ) → bytes_lt k k ≡ false
bytes_lt-irreflexive [] = refl
bytes_lt-irreflexive (a ∷ k) = ground (arith, bytes_lt-irreflexive k)

abbrev ids : List (List ℕ)
ids = (2 ∷ []) ∷ (4 ∷ []) ∷ (4 ∷ 1 ∷ []) ∷ (9 ∷ []) ∷ []

pages_in_order_example : first_pages bytes_lt 2 1 asc ids ≡ take (2 * 1) ids
pages_in_order_example = pages_in_order bytes_lt 2 1 asc ids

cursor_resumes_example :
    select bytes_lt
      (paginate (Pagination.cursor (record { id = some (4 ∷ []) })) 1 desc)
      (((9 ∷ []) ∷ []) ++ (4 ∷ []) ∷ (2 ∷ 7 ∷ []) ∷ (2 ∷ []) ∷ [])
    ≡ take 1 ((2 ∷ 7 ∷ []) ∷ (2 ∷ []) ∷ [])
cursor_resumes_example =
    cursor_resumes bytes_lt bytes_lt-irreflexive desc (4 ∷ []) ((9 ∷ []) ∷ [])
      ((2 ∷ 7 ∷ []) ∷ (2 ∷ []) ∷ []) 1
      (
        ((refl, refl), ((refl, refl), ((refl, refl), tt))),
        (((refl, refl), ((refl, refl), tt)), (((refl, refl), tt), (tt, tt))),
      )
