-- ===== src/TreeGaps/Crawl.antt =====
-- What the crawl sends, and what it does with a page of failed transactions.
use digital_asset_rpc_infras.Base.{
  ℕ, zero, suc, ◌≤◌, ◌<◌, ◌≡◌, refl, ap, ◌∙◌, Option, none, some, List, [], ◌∷◌, ◌++◌, arith,
  length, ltb, if◌then◌else◌, map_option,
}
use digital_asset_rpc_infras.TreeGaps.{TransactionStatus, successful, last_sent, crawl}

module _ (get_signatures_for_address : Option ℕ → List TransactionStatus) where
  -- If the RPC answers with a full page of failed transactions, the crawl never ends, whatever the number
  -- of requests: it sends nothing and asks for the same page again.
  pub crawl_repeats :
      (before : Option ℕ)
      → 1000 ≤ length (get_signatures_for_address before)
      → successful (get_signatures_for_address before) ≡ []
      → (fuel : ℕ) → crawl get_signatures_for_address fuel before ≡ none
  unfolding crawl last_sent
  crawl_repeats before full failed zero = refl
  crawl_repeats before full failed (suc fuel) =
      let again : crawl get_signatures_for_address fuel
            (last_sent before (successful (get_signatures_for_address before)))
          ≡ none =
        ap (λ z. crawl get_signatures_for_address fuel (last_sent before z)) failed
        ∙ crawl_repeats before full failed fuel in
      ground arith

  -- The answers to a crawl from `before`: full pages, each asked for with the last signature sent, and
  -- one that is not full.
  abbrev pub Pages : Option ℕ → List (List TransactionStatus) → Type 0
  Pages before [] = ⊥
  Pages before (p ∷ []) = (get_signatures_for_address before ≡ p) × (length p < 1000)
  Pages before (p ∷ q ∷ ps) =
      (get_signatures_for_address before ≡ p)
      × (1000 ≤ length p)
      × Pages (last_sent before (successful p)) (q ∷ ps)

  abbrev pub all_successful : List (List TransactionStatus) → List ℕ
  all_successful [] = []
  all_successful (p ∷ ps) = successful p ++ all_successful ps

  -- What one request does, for the answer `p`.
  abbrev after_page : ℕ → Option ℕ → List TransactionStatus → Option (List ℕ)
  after_page fuel before p =
      if ltb (length p) 1000
      then some (successful p)
      else map_option (λ l. successful p ++ l)
          (crawl get_signatures_for_address fuel (last_sent before (successful p)))

  append_nil : (l : List ℕ) → l ≡ l ++ []
  append_nil [] = refl
  append_nil (a ∷ l) = ap (λ z. a ∷ z) (append_nil l)

  full_page :
      (fuel : ℕ) (before : Option ℕ) (p : List TransactionStatus) (rest : List ℕ)
      → 1000 ≤ length p
      → crawl get_signatures_for_address fuel (last_sent before (successful p)) ≡ some rest
      → after_page fuel before p ≡ some (successful p ++ rest)
  full_page fuel before p rest full h = ground arith

  -- If the answers of the RPC are a list of full pages that ends with one that is not full, the crawl ends
  -- after as many requests as there are pages, and has sent the signature of every successful transaction
  -- of them, in order.
  pub crawl_sends_all :
      (before : Option ℕ) (pages : List (List TransactionStatus)) (fuel : ℕ)
      → Pages before pages
      → length pages ≤ fuel
      → crawl get_signatures_for_address fuel before ≡ some (all_successful pages)
  unfolding crawl
  crawl_sends_all before [] fuel h le = elim h [ ]
  crawl_sends_all before (p ∷ ps) zero h le = absurd (omega arith)
  crawl_sends_all before (p ∷ []) (suc fuel) h le =
      let short : after_page fuel before p ≡ some (successful p) = ground arith in
      ap (after_page fuel before) h.0 ∙ short ∙ ap some (append_nil (successful p))
  crawl_sends_all before (p ∷ q ∷ ps) (suc fuel) h le =
      ap (after_page fuel before) h.0
      ∙ full_page fuel before p (all_successful (q ∷ ps)) h.1
          (crawl_sends_all (last_sent before (successful p)) (q ∷ ps) fuel h.2 (omega arith))
