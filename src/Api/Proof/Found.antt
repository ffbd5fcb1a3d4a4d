-- ===== src/Api/Proof/Found.antt =====
-- The nodes of a built proof, place by place.
use digital_asset_rpc_infras.Base.{
  ℕ, zero, suc, ◌+◌, ◌≤◌, ◌<◌, ◌≡◌, ◌≢◌, ◌⊎◌, inl, inr, refl, subst, ap, sym, ◌∙◌, Bool, true,
  false, some, List, [], ◌∷◌, ◌++◌, String, All, arith, ltb, if◌then◌else◌, map, map_option, length,
  set, get_elem?, replicate,
}
use digital_asset_rpc_infras.Api.Proof.{
  SimpleChangeLog, default_node, is_default, place, make_empty_node, fill, split_last,
}

module _ (enc : List ℕ → String) (empty_node : ℕ → List ℕ) (node : ℕ → List ℕ) where
  -- No row is of the level `l`.
  abbrev pub Lacks : List SimpleChangeLog → ℕ → Type 0
  Lacks rows l = All (λ (r : SimpleChangeLog). r.level ≢ l) rows

  -- A place of the list at level `i`, for the node `ix`: still free, and if no row to come is of its
  -- level then the node is empty; or taken, with the node's hash.
  abbrev Fits : List SimpleChangeLog → ℕ → SimpleChangeLog → ℕ → Type 0
  Fits rows i n ix =
      ((is_default n ≡ true) × (Lacks rows i → node ix ≡ empty_node i))
      ⊎ ((is_default n ≡ false) × (n.hash ≡ node ix))

  abbrev Good : List SimpleChangeLog → ℕ → List SimpleChangeLog → List ℕ → Type 0
  Good rows i [] [] = Unit
  Good rows i (n ∷ ns) (ix ∷ ixs) = Fits rows i n ix × Good rows (i + 1) ns ixs
  Good rows i _ _ = ⊥

  -- A row has the hash of the node that its level stands for.
  abbrev pub IsRight : List ℕ → SimpleChangeLog → Type 0
  IsRight ixs r =
      (ix : ℕ) → get_elem? ixs r.level ≡ some ix → (is_default r ≡ false) × (r.hash ≡ node ix)

  Fits-less :
      (r : SimpleChangeLog) (rows : List SimpleChangeLog) (i : ℕ) (n : SimpleChangeLog) (ix : ℕ)
      → r.level ≢ i
      → Fits (r ∷ rows) i n ix
      → Fits rows i n ix
  Fits-less r rows i n ix ne (inl (d, f)) = inl (d, λ l. f (ne, l))
  Fits-less r rows i n ix ne (inr h) = inr h

  -- A row that is of no level of the list may be dropped.
  Good-less :
      (r : SimpleChangeLog) (rows : List SimpleChangeLog) (i : ℕ) (ns : List SimpleChangeLog)
      (ixs : List ℕ)
      → ((j : ℕ) → i ≤ j → j < i + length ns → r.level ≢ j)
      → Good (r ∷ rows) i ns ixs
      → Good rows i ns ixs
  Good-less r rows i [] [] h g = g
  Good-less r rows i [] (ix ∷ ixs) h g = g
  Good-less r rows i (n ∷ ns) [] h g = g
  Good-less r rows i (n ∷ ns) (ix ∷ ixs) h g = (
    Fits-less r rows i n ix (h i (omega arith) (omega arith)) g.0,
    Good-less r rows (i + 1) ns ixs (λ j le lt. h j (omega arith) (omega arith)) g.1,
  )

  Good-set :
      (r : SimpleChangeLog) (rows : List SimpleChangeLog) (i k : ℕ) (ns : List SimpleChangeLog)
      (ixs : List ℕ)
      → r.level ≡ i + k
      → ((ix : ℕ) → get_elem? ixs k ≡ some ix → (is_default r ≡ false) × (r.hash ≡ node ix))
      → Good (r ∷ rows) i ns ixs
      → Good rows i (set ns k r) ixs
  Good-set r rows i k [] [] e h g = g
  Good-set r rows i k [] (ix ∷ ixs) e h g = g
  Good-set r rows i zero (n ∷ ns) [] e h g = g
  Good-set r rows i (suc k) (n ∷ ns) [] e h g = g
  Good-set r rows i zero (n ∷ ns) (ix ∷ ixs) e h g =
      (inr (h ix refl), Good-less r rows (i + 1) ns ixs (λ j le lt q. absurd (omega arith)) g.1)
  Good-set r rows i (suc k) (n ∷ ns) (ix ∷ ixs) e h g = (
    Fits-less r rows i n ix (λ q. absurd (omega arith)) g.0,
    Good-set r rows (i + 1) k ns ixs (omega arith) h g.1,
  )

  place_one :
      (r : SimpleChangeLog) (rows acc : List SimpleChangeLog) (ixs : List ℕ) (inside : Bool)
      → ltb r.level (length acc) ≡ inside
      → IsRight ixs r
      → Good (r ∷ rows) 0 acc ixs
      → Good rows 0 (if inside then set acc r.level r else acc) ixs
  place_one r rows acc ixs true e h g = Good-set r rows 0 r.level acc ixs (omega arith) h g
  place_one r rows acc ixs false e h g =
      Good-less r rows 0 acc ixs (λ j le lt q. absurd (ground arith)) g

  place-Good :
      (rows acc : List SimpleChangeLog) (ixs : List ℕ)
      → All (IsRight ixs) rows
      → Good rows 0 acc ixs
      → Good [] 0 (place rows acc) ixs
  unfolding place
  place-Good [] acc ixs h g = g
  place-Good (r ∷ rows) acc ixs h g =
      place-Good rows (if ltb r.level (length acc) then set acc r.level r else acc) ixs h.1
        (place_one r rows acc ixs (ltb r.level (length acc)) refl h.0 g)

  fill-Good :
      (tree : List ℕ) (i : ℕ) (ns : List SimpleChangeLog) (ixs : List ℕ)
      → Good [] i ns ixs
      → map (λ (n : SimpleChangeLog). n.hash) (fill enc empty_node tree i ns ixs) ≡ map node ixs
  unfolding fill make_empty_node
  fill-Good tree i [] [] g = refl
  fill-Good tree i [] (ix ∷ ixs) g = elim g [ ]
  fill-Good tree i (n ∷ ns) [] g = elim g [ ]
  fill-Good tree i (n ∷ ns) (ix ∷ ixs) (inl (d, f), g) =
      ap
        (λ b.
          (if b then make_empty_node enc empty_node i ix tree else n).hash
          ∷ map (λ (n : SimpleChangeLog). n.hash) (fill enc empty_node tree (i + 1) ns ixs))
        d
      ∙ ap
          (λ z. z ∷ map (λ (n : SimpleChangeLog). n.hash) (fill enc empty_node tree (i + 1) ns ixs))
          (sym (f tt))
      ∙ ap (λ z. node ix ∷ z) (fill-Good tree (i + 1) ns ixs g)
  fill-Good tree i (n ∷ ns) (ix ∷ ixs) (inr (d, f), g) =
      ap
        (λ b.
          (if b then make_empty_node enc empty_node i ix tree else n).hash
          ∷ map (λ (n : SimpleChangeLog). n.hash) (fill enc empty_node tree (i + 1) ns ixs))
        d
      ∙ ap
          (λ z. z ∷ map (λ (n : SimpleChangeLog). n.hash) (fill enc empty_node tree (i + 1) ns ixs))
          f
      ∙ ap (λ z. node ix ∷ z) (fill-Good tree (i + 1) ns ixs g)

  -- At first every place is free.
  start-Good :
      (rows : List SimpleChangeLog) (i : ℕ) (ixs : List ℕ)
      → ((l ix : ℕ) → get_elem? ixs l ≡ some ix → Lacks rows (i + l) → node ix ≡ empty_node (i + l))
      → Good rows i (replicate (length ixs) default_node) ixs
  start-Good rows i [] h = tt
  start-Good rows i (ix ∷ ixs) h =
      let here : i + 0 ≡ i = omega arith in
      (
        inl (refl, subst (λ z. Lacks rows z → node ix ≡ empty_node z) here (h 0 ix refl)),
        start-Good rows (i + 1) ixs (λ l iy e.
            let next : i + suc l ≡ i + 1 + l = omega arith in
            subst (λ z. Lacks rows z → node iy ≡ empty_node z) next (h (suc l) iy e)),
      )

  nonempty : (hs : List (List ℕ)) (h : List ℕ) → [] ≢ hs ++ h ∷ []
  nonempty [] h e = ground arith
  nonempty (x ∷ hs) h e = ground arith

  cons_nonempty : {a : List ℕ} {l : List (List ℕ)} → a ∷ l ≢ []
  cons_nonempty e = ground arith

  abbrev pub EndsWith : List SimpleChangeLog → List (List ℕ) → List ℕ → Type 0
  EndsWith ns hs h =
      (p : List SimpleChangeLog × SimpleChangeLog) × (split_last enc empty_node ns ≡ some p)
      × (map (λ (n : SimpleChangeLog). n.hash) p.0 ≡ hs)
      × (p.1.hash ≡ h)

  cons-injective : {a b : List ℕ} {as' bs : List (List ℕ)} → a ∷ as' ≡ b ∷ bs → (a ≡ b) × (as' ≡ bs)
  cons-injective e = (cc, cc)

  pub split_last-hashes :
      (ns : List SimpleChangeLog) (hs : List (List ℕ)) (h : List ℕ)
      → map (λ (n : SimpleChangeLog). n.hash) ns ≡ hs ++ h ∷ []
      → EndsWith ns hs h
  unfolding split_last
  split_last-hashes [] hs h e = absurd (nonempty hs h e)
  split_last-hashes (n ∷ []) [] h e = (([], n), refl, refl, (cons-injective e).0)
  split_last-hashes (n ∷ []) (x ∷ hs) h e = absurd (nonempty hs h (cons-injective e).1)
  split_last-hashes (n ∷ m ∷ ns) [] h e = absurd (cons_nonempty (cons-injective e).1)
  split_last-hashes (n ∷ m ∷ ns) (x ∷ hs) h e =
      let (p, s, a, b) = split_last-hashes (m ∷ ns) hs h (cons-injective e).1 in
      (
        (n ∷ p.0, p.1),
        ap (map_option (λ (q : List SimpleChangeLog × SimpleChangeLog). (n ∷ q.0, q.1))) s,
        ap (λ z. n.hash ∷ z) a ∙ ap (λ z. z ∷ hs) (cons-injective e).0,
        b,
      )

  -- Each place of the list ends with the hash of its node.
  pub found :
      (tree : List ℕ) (rows : List SimpleChangeLog) (ixs : List ℕ)
      → All (IsRight ixs) rows
      → ((l ix : ℕ) → get_elem? ixs l ≡ some ix → Lacks rows l → node ix ≡ empty_node l)
      → map
          (λ (n : SimpleChangeLog). n.hash)
          (fill enc empty_node tree 0 (place rows (replicate (length ixs) default_node)) ixs)
        ≡ map node ixs
  found tree rows ixs right rest = fill-Good tree 0 _ ixs (
      place-Good rows _ ixs right (
        start-Good rows 0 ixs (λ l ix e.
          let same : l ≡ 0 + l = omega arith in
          subst (λ z. Lacks rows z → node ix ≡ empty_node z) same (rest l ix e))))
