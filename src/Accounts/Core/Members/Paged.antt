-- ===== src/Accounts/Core/Members/Paged.antt =====
-- The pages of a collection's members reach every one of them.
use digital_asset_rpc_infras.Base.{
  ℕ, suc, zero, ◌<◌, ◌≡◌, refl, sym, ap, ◌∙◌, Option, none, some, List, [], ◌∷◌, ◌++◌, All, arith,
}
use digital_asset_rpc_infras.Base.Int.{ℤ}
use digital_asset_rpc_infras.Db.Table.{Table, nat_key}
use digital_asset_rpc_infras.Db.Schema.{Pubkey, Asset, AssetAuthority, Db}
use digital_asset_rpc_infras.Db.Session.{DownloadMetadataInfo, ok, Session, execute, pure}
use digital_asset_rpc_infras.Accounts.Core.Members.{
  ids_after, first, last_id, uncompressed, update_authorities, write_authorities, save_authorities,
}

-- Ids in ascending order, without repetition.
abbrev pub IsAscending : List ℕ → Type 0
IsAscending [] = Unit
IsAscending (b ∷ bs) = All (λ c. b < c) bs × IsAscending bs

-- What is left of a list after its first elements.
abbrev pub left : ℕ → List ℕ → List ℕ
left zero bs = bs
left (suc n) [] = []
left (suc n) (b ∷ bs) = left n bs

-- `after` is below every id.
abbrev pub IsBelow : Option ℕ → List ℕ → Type 0
IsBelow none bs = Unit
IsBelow (some a) bs = All (λ c. a < c) bs

pub first-left : (n : ℕ) (bs : List ℕ) → first n bs ++ left n bs ≡ bs
unfolding first
first-left zero bs = refl
first-left (suc n) [] = refl
first-left (suc n) (b ∷ bs) = ap (λ cs. b ∷ cs) (first-left n bs)

after-All : (a : ℕ) (bs : List ℕ) → All (λ c. a < c) bs → ids_after (some a) bs ≡ bs
unfolding ids_after
after-All a [] h = refl
after-All a (b ∷ bs) h =
    let rest = after-All a bs h.1 in let less = h.0 in ground (arith, rest, less)

pub left-IsAscending : (n : ℕ) (bs : List ℕ) → IsAscending bs → IsAscending (left n bs)
left-IsAscending zero bs h = h
left-IsAscending (suc n) [] h = tt
left-IsAscending (suc n) (b ∷ bs) h = left-IsAscending n bs h.1

-- The page that starts with `b` ends with an id `z`; what comes after `z` is what the page left.
abbrev pub NextPage : ℕ → ℕ → List ℕ → Type 0
NextPage n b bs =
    (z : ℕ) × (last_id (first (suc n) (b ∷ bs)) ≡ some z)
    × (ids_after (some z) (b ∷ bs) ≡ left n bs)
    × All (λ c. z < c) (left n bs)
    × (b < suc z)

drops_head :
    (z b : ℕ) (bs cs : List ℕ)
    → b < suc z
    → ids_after (some z) bs ≡ cs
    → ids_after (some z) (b ∷ bs) ≡ cs
unfolding ids_after
drops_head z b bs cs h e = ground (arith, h, e)

pub next_page : (n b : ℕ) (bs : List ℕ) → IsAscending (b ∷ bs) → NextPage n b bs
unfolding first last_id
next_page zero b bs h =
    (b, refl, drops_head b b bs bs (omega arith) (after-All b bs h.0), h.0, omega arith)
next_page (suc n) b [] h =
    (b, refl, drops_head b b [] [] (omega arith) (after-All b [] tt), tt, omega arith)
next_page (suc n) b (c ∷ cs) h =
    let (z, last, rest, above, below) = next_page n c cs h.1 in
    let less = h.0.0 in
    let b_below : b < suc z = omega (arith, less, below) in
    (z, last, drops_head z b (c ∷ cs) (left n cs) b_below rest, above, b_below)

-- A later bound may be put on what an earlier one left.
pub after-after :
    (a z : ℕ) (bs : List ℕ)
    → a < z
    → ids_after (some z) (ids_after (some a) bs) ≡ ids_after (some z) bs
unfolding ids_after
after-after a z [] h = refl
after-after a z (b ∷ bs) h = ground (arith, h, after-after a z bs h)

uncompressed-append :
    (t : Table ℕ Asset) (bs cs : List ℕ)
    → uncompressed t (bs ++ cs) ≡ uncompressed t bs ++ uncompressed t cs
unfolding uncompressed
uncompressed-append t [] cs = refl
uncompressed-append t (b ∷ bs) cs = ground (arith, uncompressed-append t bs cs)

update-append :
    (a : Pubkey) (slot : ℤ) (bs cs : List ℕ) (t : Table ℕ AssetAuthority)
    → update_authorities a slot (bs ++ cs) t
      ≡ update_authorities a slot cs (update_authorities a slot bs t)
unfolding update_authorities
update-append a slot [] cs t = refl
update-append a slot (b ∷ bs) cs t = update-append a slot bs cs _

module _ (a : Pubkey) (slot : ℤ) where
  -- A session that fails nothing.
  abbrev pub sound : Db → List DownloadMetadataInfo → Session
  sound d ns = record { db = d; faults = []; notified = ns }

  abbrev pub with_authorities : List ℕ → Db → Db
  with_authorities ids d = record d { assets = write_authorities a slot ids d.assets }

  pub saved :
      (ids : List ℕ) (d : Db) (ns : List DownloadMetadataInfo)
      → save_authorities a slot ids (sound d ns) ≡ (ok tt, sound (with_authorities ids d) ns)
  unfolding save_authorities pure execute write_authorities update_authorities
  saved [] d ns = refl
  saved (b ∷ bs) d ns = refl

  pub written-append :
      (bs cs : List ℕ) (d : Db)
      → with_authorities
          (uncompressed d.assets.asset cs)
          (with_authorities (uncompressed d.assets.asset bs) d)
        ≡ with_authorities (uncompressed d.assets.asset (bs ++ cs)) d
  unfolding write_authorities
  written-append bs cs d =
      ap (λ t. record d { assets = record d.assets { asset_authority = t } })
        (sym (update-append a slot (uncompressed d.assets.asset bs) _ d.assets.asset_authority)
          ∙ ap (λ ids. update_authorities a slot ids d.assets.asset_authority)
              (sym (uncompressed-append d.assets.asset bs cs)))
