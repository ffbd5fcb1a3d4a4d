-- ===== src/Api/Options/Accepted.antt =====
-- What `validate_pagination` accepts, and what it makes of it.
use digital_asset_rpc_infras.Base.{
  ℕ, ◌≤◌, ◌≡◌, ◌≢◌, refl, subst, Bool, true, false, ◌||◌, Option, none, some, String, is_some,
  ==_iff, ◌==◌, if◌then◌else◌, arith, unwrap_or,
}
use digital_asset_rpc_infras.Api.Options.{
  ApiResult, accept, reject, AssetSorting, pagination_error, pagination_empty_error, PageOptions,
  Parsers, pagination_exceeded_error, pagination_sorting_validation_error, bytes_of, fail_if,
  above_limit, check_page, check_key, page_options, validate_pagination, validate_pubkey,
  sorts_otherwise, get_cursor, ◌>>=◌,
}
use digital_asset_rpc_infras.Api.Page.{Pagination, create_pagination}

abbrev IsAccepted : {A : Type 0} → ApiResult A → Type 0
IsAccepted {A} r = (a : A) × (r ≡ accept a)

module _ {A B : Type 0} where
  then-accept :
      (m : ApiResult A) (f : A → ApiResult B) (b : B)
      → (m >>= f) ≡ accept b
      → (a : A) × (m ≡ accept a) × (f a ≡ accept b)
  then-accept (accept a) f b h = (a, refl, h)
  then-accept (reject e) f b h = cc

accept-injective : {A : Type 0} (a b : A) → accept a ≡ accept b → a ≡ b
accept-injective a b h = cc

abbrev pub is_page_zero : Option ℕ → Bool
is_page_zero none = false
is_page_zero (some n) = n == 0

-- At most one way to page is asked for: a page, keys or a cursor.
pub data OneMethod : Option ℕ → Option String → Option String → Option String → Type 0 where
  by_page : (p : ℕ) → p ≢ 0 → OneMethod (some p) none none none
  by_keys : (before after : Option String) → OneMethod none before after none
  by_cursor : (c : String) → OneMethod none none none (some c)

-- The options make a pagination, and ask for no more than `limit` rows.
abbrev pub MakesPages : ℕ → PageOptions → Type 0
MakesPages limit o = (o.limit ≤ limit) × ((g : Pagination) × (create_pagination o ≡ some g))

limit-accept :
    (limit : Option ℕ) (u : Unit {0})
    → fail_if (above_limit limit) pagination_exceeded_error ≡ accept u
    → unwrap_or limit 1000 ≤ 1000
limit-accept none u h = omega arith
limit-accept (some n) u h = ground arith

check_page-accept :
    (n : ℕ) (others : Bool) (u : Unit {0})
    → check_page (some n) others ≡ accept u
    → (n ≢ 0) × (others ≡ false)
check_page-accept n others u h = ground (arith, ==_iff n 0)

module _ (p : Parsers) where
  check_key-accept :
      (key c : String) (sorting : Option AssetSorting) (u : Unit {0})
      → check_key p (some key) (some c) sorting ≢ accept u
  unfolding check_key
  check_key-accept key c sorting u h = ground arith

  one_method :
      (page : Option ℕ) (before after cursor : Option String) (sorting : Option AssetSorting)
      (u v w : Unit {0})
      → check_page page (is_some before || is_some after || is_some cursor) ≡ accept u
      → check_key p before cursor sorting ≡ accept v
      → check_key p after cursor sorting ≡ accept w
      → OneMethod page before after cursor
  one_method (some n) none none none sorting u v w hp hb ha =
      by_page n (check_page-accept n false u hp).0
  one_method (some n) (some b) after cursor sorting u v w hp hb ha =
      absurd (ground (arith, check_page-accept n true u hp))
  one_method (some n) none (some a) cursor sorting u v w hp hb ha =
      absurd (ground (arith, check_page-accept n true u hp))
  one_method (some n) none none (some c) sorting u v w hp hb ha =
      absurd (ground (arith, check_page-accept n true u hp))
  one_method none before after none sorting u v w hp hb ha = by_keys before after
  one_method none none none (some c) sorting u v w hp hb ha = by_cursor c
  one_method none (some b) after (some c) sorting u v w hp hb ha =
      elim (check_key-accept b c sorting v hb) [ ]
  one_method none none (some a) (some c) sorting u v w hp hb ha =
      elim (check_key-accept a c sorting w ha) [ ]

  options-accept :
      {page : Option ℕ} {before after cursor : Option String} (enabled : Bool) (limit : ℕ)
      (sorting : Option AssetSorting) (o : PageOptions)
      → OneMethod page before after cursor
      → page_options p enabled limit page before after cursor sorting ≡ accept o
      → limit ≤ 1000
      → MakesPages 1000 o
  unfolding page_options create_pagination
  options-accept false limit sorting o (by_page n ne) h le =
      subst (MakesPages 1000) (accept-injective _ o h) (le, (Pagination.page n, refl))
  options-accept false limit sorting o (by_keys b a) h le =
      subst (MakesPages 1000) (accept-injective _ o h)
        (le, (Pagination.keyset (bytes_of p b) (bytes_of p a), refl))
  options-accept false limit sorting o (by_cursor c) h le =
      subst (MakesPages 1000) (accept-injective _ o h) (le, (Pagination.keyset none none, refl))
  options-accept true limit none o m h le =
      subst (MakesPages 1000) (accept-injective _ o h) (le, (Pagination.keyset none none, refl))
  options-accept {cursor = k} true limit (some s) o m h le =
      let (u, h1, r1) =
        then-accept (fail_if (sorts_otherwise (some s)) pagination_sorting_validation_error) _ o
          h in
      let (c, h2, r2) = then-accept (get_cursor p k) _ o r1 in
      subst (MakesPages 1000) (accept-injective _ o r2) (le, (Pagination.cursor c, refl))

  -- What is accepted asks for at most one way to page, for at most 1000 rows, and never fails with
  -- "Invalid Pagination" when the query is made.
  pub accepted_pages :
      (limit page : Option ℕ) (before after cursor : Option String) (sorting : Option AssetSorting)
      (o : PageOptions)
      → validate_pagination p limit page before after cursor sorting ≡ accept o
      → OneMethod page before after cursor × MakesPages 1000 o
  unfolding validate_pagination
  accepted_pages limit page before after cursor sorting o h =
      let (u1, h1, r1) =
        then-accept (fail_if (above_limit limit) pagination_exceeded_error) _ o h in
      let (u2, h2, r2) =
        then-accept (check_page page (is_some before || is_some after || is_some cursor)) _ o r1 in
      let (u3, h3, r3) = then-accept (check_key p before cursor sorting) _ o r2 in
      let (u4, h4, r4) = then-accept (check_key p after cursor sorting) _ o r3 in
      let m = one_method page before after cursor sorting u2 u3 u4 h2 h3 h4 in
      (m, options-accept _ (unwrap_or limit 1000) sorting o m r4 (limit-accept limit u1 h1))

  -- Where no sorting is given, as by the API's methods on signatures, token accounts and editions, a
  -- cursor resumes nothing: beside a page or a key the request is refused, and else the answer is
  -- that of a request without a cursor; a limit above 1000 and page 0 are refused before that.
  pub cursor_ignored :
      (limit page : Option ℕ) (before after : Option String) (c : String)
      → validate_pagination p limit page before after (some c) none ≡ (
          if above_limit limit
          then reject pagination_exceeded_error
          else if is_page_zero page
          then reject pagination_empty_error
          else if is_some page || is_some before || is_some after
          then reject pagination_error
          else validate_pagination p limit none none none none none)
  unfolding validate_pagination check_key page_options validate_pubkey
  cursor_ignored limit none none none c = ground arith
  cursor_ignored limit none (some b) after c = ground arith
  cursor_ignored limit none none (some a) c = ground arith
  cursor_ignored limit (some n) none none c = ground arith
  cursor_ignored limit (some n) (some b) after c = ground arith
  cursor_ignored limit (some n) none (some a) c = ground arith
