-- ===== src/Api/Page/Walk.antt =====
-- Paging through a query by numbers and by cursors.
use digital_asset_rpc_infras.Base.{
  ℕ, zero, suc, ◌+◌, ◌-◌, ◌*◌, ◌≡◌, refl, ap, sym, ◌∙◌, Bool, true, false, ◌&&◌, none, some, List,
  [], ◌∷◌, ◌++◌, All, arith, ltb, if◌then◌else◌,
}
use digital_asset_rpc_infras.Base.Reorder.{AllPairs}
use digital_asset_rpc_infras.Api.Options.{AssetSortDirection, asc, desc}
use digital_asset_rpc_infras.Api.Page.{
  Pagination, Clauses, paginate, take, drop, keeps, filter, select,
}

module _ {A : Type 0} where
  take-zero : (l : List A) → take zero l ≡ []
  take-zero [] = refl
  take-zero (a ∷ l) = refl

  drop-zero : (l : List A) → drop zero l ≡ l
  drop-zero [] = refl
  drop-zero (a ∷ l) = refl

  -- The first m + n elements are the first m and the n after them.
  take-add : (m n : ℕ) (l : List A) → take (m + n) l ≡ take m l ++ take n (drop m l)
  take-add m n [] = refl
  take-add zero n (a ∷ l) = ap (λ z. take z (a ∷ l)) (omega arith)
  take-add (suc m) n (a ∷ l) =
      let eq : suc m + n ≡ suc (m + n) = omega arith in
      ap (λ z. take z (a ∷ l)) eq ∙ ap (λ z. a ∷ z) (take-add m n l)

module _ (lt : List ℕ → List ℕ → Bool) where
  filter-All :
      (c : Clauses) (ks : List (List ℕ)) → All (λ k. keeps lt c k ≡ true) ks → filter lt c ks ≡ ks
  unfolding filter
  filter-All c [] h = refl
  filter-All c (k ∷ ks) h = ground (arith, filter-All c ks h.1)

  filter-none :
      (c : Clauses) (ks : List (List ℕ)) → All (λ k. keeps lt c k ≡ false) ks → filter lt c ks ≡ []
  unfolding filter
  filter-none c [] h = refl
  filter-none c (k ∷ ks) h = ground (arith, filter-none c ks h.1)

  filter-append :
      (c : Clauses) (ks ls : List (List ℕ))
      → filter lt c (ks ++ ls) ≡ filter lt c ks ++ filter lt c ls
  unfolding filter
  filter-append c [] ls = refl
  filter-append c (k ∷ ks) ls = ground (arith, filter-append c ks ls)

  every : (ks : List (List ℕ)) → All (λ k. true ≡ true) ks
  every [] = tt
  every (k ∷ ks) = (refl, every ks)

  -- The rows of the pages 1 to n, one after the other.
  abbrev pub first_pages : ℕ → ℕ → AssetSortDirection → List (List ℕ) → List (List ℕ)
  first_pages zero limit direction ks = []
  first_pages (suc n) limit direction ks =
      first_pages n limit direction ks
      ++ select lt (paginate (Pagination.page (n + 1)) limit direction) ks

  one_page :
      (n limit : ℕ) (direction : AssetSortDirection) (ks : List (List ℕ))
      → select lt (paginate (Pagination.page (n + 1)) limit direction) ks
        ≡ take limit (drop (n * limit) ks)
  unfolding select paginate
  one_page n limit direction ks =
      let c : Clauses = paginate (Pagination.page (n + 1)) limit direction in
      let same : n + 1 - 1 ≡ n = omega arith in
      let positive : ltb 0 (n + 1) ≡ true = ground arith in
      ap (λ b. take limit (drop (if b then (n + 1 - 1) * limit else 0) (filter lt c ks))) positive
      ∙ ap (λ z. take limit (drop (z * limit) (filter lt c ks))) same
      ∙ ap (λ z. take limit (drop (n * limit) z)) (filter-All c ks (every ks))

  -- The pages 1 to n with `limit` rows each are the first n * limit rows of the query, in order.
  pub pages_in_order :
      (n limit : ℕ) (direction : AssetSortDirection) (ks : List (List ℕ))
      → first_pages n limit direction ks ≡ take (n * limit) ks
  pages_in_order zero limit direction ks =
      let none_yet : 0 * limit ≡ 0 = omega arith in
      sym (ap (λ z. take z ks) none_yet ∙ take-zero ks)
  pages_in_order (suc n) limit direction ks =
      let counted : n * limit + limit ≡ suc n * limit = omega arith in
      ap (λ z. z ++ select lt (paginate (Pagination.page (n + 1)) limit direction) ks)
        (pages_in_order n limit direction ks)
      ∙ ap (λ z. take (n * limit) ks ++ z) (one_page n limit direction ks)
      ∙ sym (take-add (n * limit) limit ks)
      ∙ ap (λ z. take z ks) counted

  -- The ids are in ascending order.
  abbrev pub IsAscending : List (List ℕ) → Type 0
  IsAscending = AllPairs (λ j k. (lt j k ≡ true) × (lt k j ≡ false))

  related :
      (j k : List ℕ) (ks ls : List (List ℕ))
      → All (λ z. (lt j z ≡ true) × (lt z j ≡ false)) (ks ++ k ∷ ls)
      → lt k j ≡ false
  related j k [] ls h = h.0.1
  related j k (i ∷ ks) ls h = related j k ks ls h.1

  before_cursor :
      (k : List ℕ) (ks ls : List (List ℕ))
      → IsAscending (ks ++ k ∷ ls)
      → All (λ j. lt k j ≡ false) ks
  before_cursor k [] ls h = tt
  before_cursor k (j ∷ ks) ls h = (related j k ks ls h.0, before_cursor k ks ls h.1)

  first_true :
      (j : List ℕ) (ls : List (List ℕ))
      → All (λ z. (lt j z ≡ true) × (lt z j ≡ false)) ls
      → All (λ z. lt j z ≡ true) ls
  first_true j [] h = tt
  first_true j (l ∷ ls) h = (h.0.0, first_true j ls h.1)

  after_cursor :
      (k : List ℕ) (ks ls : List (List ℕ))
      → IsAscending (ks ++ k ∷ ls)
      → All (λ j. lt k j ≡ true) ls
  after_cursor k [] ls h = first_true k ls h.0
  after_cursor k (j ∷ ks) ls h = after_cursor k ks ls h.1

  -- A filter that refuses the rows up to the cursor and keeps those after it.
  cursor_keeps :
      (c : Clauses) (k : List ℕ) (ks ls : List (List ℕ))
      → All (λ j. keeps lt c j ≡ false) ks
      → keeps lt c k ≡ false
      → All (λ j. keeps lt c j ≡ true) ls
      → filter lt c (ks ++ k ∷ ls) ≡ ls
  unfolding filter
  cursor_keeps c k ks ls before here after =
      filter-append c ks (k ∷ ls)
      ∙ ap (λ z. z ++ filter lt c (k ∷ ls)) (filter-none c ks before)
      ∙ ap (λ b. if b then k ∷ filter lt c ls else filter lt c ls) here
      ∙ filter-All c ls after

All-map :
    {P Q : List ℕ → Type 0} (l : List (List ℕ)) → ((k : List ℕ) → P k → Q k) → All P l → All Q l
All-map [] f h = tt
All-map (k ∷ l) f h = (f k h.0, All-map l f h.1)

abbrev pub flip : (List ℕ → List ℕ → Bool) → List ℕ → List ℕ → Bool
flip lt j k = lt k j

-- The ids are in the order of the direction.
abbrev pub IsOrdered : (List ℕ → List ℕ → Bool) → AssetSortDirection → List (List ℕ) → Type 0
IsOrdered lt asc = IsAscending lt
IsOrdered lt desc = IsAscending (flip lt)

and_true : (a b : Bool) → a ≡ b → (a && true) ≡ b
and_true a b h = ground arith

-- With the id of the last row that was seen as the cursor, the next rows are those that follow it, in
-- either direction, if the ids are in the order of the direction and no id is below itself.
pub cursor_resumes :
    (lt : List ℕ → List ℕ → Bool) (irreflexive : (k : List ℕ) → lt k k ≡ false)
    (direction : AssetSortDirection) (k : List ℕ) (ks ls : List (List ℕ)) (limit : ℕ)
    → IsOrdered lt direction (ks ++ k ∷ ls)
    → select lt
        (paginate (Pagination.cursor (record { id = some k })) limit direction)
        (ks ++ k ∷ ls)
      ≡ take limit ls
unfolding select paginate
cursor_resumes lt irreflexive asc k ks ls limit h = ap (take limit) (
    drop-zero _
    ∙ cursor_keeps lt
        (record { less_than = none; greater_than = some k; offset = 0; limit = limit }) k ks ls
        (before_cursor lt k ks ls h) (irreflexive k) (after_cursor lt k ks ls h))
cursor_resumes lt irreflexive desc k ks ls limit h = ap (take limit) (
    drop-zero _
    ∙ cursor_keeps lt
        (record { less_than = some k; greater_than = none; offset = 0; limit = limit }) k ks ls
        (All-map ks (λ j e. and_true (lt j k) false e) (before_cursor (flip lt) k ks ls h))
        (and_true (lt k k) false (irreflexive k))
        (All-map ls (λ j e. and_true (lt j k) true e) (after_cursor (flip lt) k ks ls h)))
