-- ===== src/Accounts/Core/Members/Reached.antt =====
-- The update of a collection's members is one update of all of them.
use digital_asset_rpc_infras.Base.{
  ℕ, suc, zero, ◌<◌, ◌≤◌, ◌≡◌, refl, sym, ap, ◌∙◌, Option, none, some, List, [], ◌∷◌, String,
  length, arith,
}
use digital_asset_rpc_infras.Base.Int.{ℤ}
use digital_asset_rpc_infras.Db.Table.{Table}
use digital_asset_rpc_infras.Db.Schema.{Pubkey, AssetGrouping, Db}
use digital_asset_rpc_infras.Db.Session.{
  DownloadMetadataInfo, Result, ok, Session, Exec, query, pure, continue, ◌>>=◌,
}
use digital_asset_rpc_infras.Accounts.Core.Members.{
  insert_id, group_members, ids_after, first, last_id, uncompressed, write_authorities,
  update_authorities, page, save_page, update_from, update_group_asset_authorities,
}
use digital_asset_rpc_infras.Accounts.Core.Members.Paged.{
  IsAscending, IsBelow, left, first-left, left-IsAscending, next_page, after-after, sound,
  with_authorities, saved, written-append,
}

length-left : (n : ℕ) (bs : List ℕ) → length (left n bs) ≤ length bs
length-left zero bs = omega arith
length-left (suc n) [] = omega arith
length-left (suc n) (b ∷ bs) = omega (arith, length-left n bs)

module _ (n : ℕ) (v : String) (a : Pubkey) (slot : ℤ) where
  turned :
      (rest : Option ℕ → Exec (Unit {0})) (b : ℕ) (bs : List ℕ) (d : Db)
      (ns : List DownloadMetadataInfo)
      → save_page (suc n) v a slot rest (b ∷ bs) (sound a slot d ns)
        ≡ rest
            (last_id (b ∷ bs))
            (sound a slot (with_authorities a slot (uncompressed d.assets.asset (b ∷ bs)) d) ns)
  unfolding save_page query ◌>>=◌
  turned rest b bs d ns =
      ap (λ (r : Result (Unit {0}) × Session). continue r.0 (λ _. rest (last_id (b ∷ bs))) r.1)
        (saved a slot (uncompressed d.assets.asset (b ∷ bs)) d ns)

  -- What comes after `z` of all members is what comes after it of those that are left.
  later_ids :
      (after : Option ℕ) (z b : ℕ) (bs ids : List ℕ)
      → IsBelow after (b ∷ bs)
      → b < suc z
      → ids_after after ids ≡ b ∷ bs
      → ids_after (some z) ids ≡ ids_after (some z) (b ∷ bs)
  unfolding ids_after
  later_ids none z b bs ids h l e = ap (ids_after (some z)) e
  later_ids (some c) z b bs ids h l e =
      let below = h.0 in
      sym (after-after c z ids (omega (arith, below, l))) ∙ ap (ids_after (some z)) e

  one_page :
      (fuel : ℕ) (after : Option ℕ) (ids : List ℕ) (d : Db) (ns : List DownloadMetadataInfo)
      → ids_after after (group_members v d.assets.asset_grouping) ≡ ids
      → update_from (suc n) v a slot (suc fuel) after (sound a slot d ns)
        ≡ save_page
            (suc n)
            v
            a
            slot
            (update_from (suc n) v a slot fuel)
            (first (suc n) ids)
            (sound a slot d ns)
  unfolding update_from query ◌>>=◌ page
  one_page fuel after ids d ns e =
      ap
        (λ is.
          save_page (suc n) v a slot (update_from (suc n) v a slot fuel) (first (suc n) is)
            (sound a slot d ns))
        e

  no_page :
      (rest : Option ℕ → Exec (Unit {0})) (d : Db) (ns : List DownloadMetadataInfo)
      → save_page (suc n) v a slot rest (first (suc n) []) (sound a slot d ns)
        ≡ (ok tt, sound a slot (with_authorities a slot (uncompressed d.assets.asset []) d) ns)
  unfolding first uncompressed save_page pure write_authorities update_authorities
  no_page rest d ns = refl

  same_assets :
      (ids : List ℕ) (d : Db)
      → ((with_authorities a slot ids d).assets.asset ≡ d.assets.asset)
        × ((with_authorities a slot ids d).assets.asset_grouping ≡ d.assets.asset_grouping)
  unfolding write_authorities
  same_assets ids d = (refl, refl)

  -- From `after` on, with a round of fuel for each id that is left and one more.
  reaches :
      (fuel : ℕ) (after : Option ℕ) (ids : List ℕ) (d : Db) (ns : List DownloadMetadataInfo)
      → ids_after after (group_members v d.assets.asset_grouping) ≡ ids
      → IsAscending ids
      → IsBelow after ids
      → length ids < fuel
      → update_from (suc n) v a slot fuel after (sound a slot d ns)
        ≡ (ok tt, sound a slot (with_authorities a slot (uncompressed d.assets.asset ids) d) ns)
  unfolding first
  reaches zero after ids d ns e asc low f = absurd (omega arith)
  reaches (suc fuel) after [] d ns e asc low f =
      one_page fuel after [] d ns e ∙ no_page (update_from (suc n) v a slot fuel) d ns
  reaches (suc fuel) after (b ∷ bs) d ns e asc low f =
      let (z, last, rest, above, less) = next_page n b bs asc in
      let ids = uncompressed d.assets.asset (b ∷ first n bs) in
      let d' = with_authorities a slot ids d in
      let shorter = length-left n bs in
      let (same, same_groups) = same_assets ids d in
      one_page fuel after (b ∷ bs) d ns e
      ∙ turned (update_from (suc n) v a slot fuel) b (first n bs) d ns
      ∙ ap (λ o. update_from (suc n) v a slot fuel o (sound a slot d' ns)) last
      ∙ reaches fuel (some z) (left n bs) d' ns
          (ap (λ g. ids_after (some z) (group_members v g)) same_groups
            ∙ later_ids after z b bs (group_members v d.assets.asset_grouping) low less e
            ∙ rest)
          (left-IsAscending n bs asc.1) above (omega (arith, shorter, f))
      ∙ ap (λ t. (ok tt, sound a slot (with_authorities a slot (uncompressed t (left n bs)) d') ns))
          same
      ∙ ap (λ e. (ok tt, sound a slot e ns)) (written-append a slot (b ∷ first n bs) (left n bs) d)
      ∙ ap
          (λ is.
            (ok tt, sound a slot (with_authorities a slot (uncompressed d.assets.asset is) d) ns))
          (first-left (suc n) (b ∷ bs))

length-insert : (b : ℕ) (bs : List ℕ) → length (insert_id b bs) ≡ suc (length bs)
unfolding insert_id
length-insert b [] = refl
length-insert b (c ∷ cs) = ground (arith, length-insert b cs)

-- There are no more members than rows.
length-group_members :
    (v : String) (t : Table (ℕ × String) AssetGrouping) → length (group_members v t) ≤ length t
unfolding group_members
length-group_members v [] = omega arith
length-group_members v (((id, key), r) ∷ t) =
    ground (arith, length-group_members v t, length-insert id (group_members v t))

-- On a database that fails nothing, the update of a collection's members ends, succeeds, and has done
-- what one update of all its members that are not compressed does, whatever the number of pages, if
-- no asset is a member twice: it is not out of fuel.
pub members_reached :
    (v : String) (a : Pubkey) (slot : ℤ) (d : Db) (ns : List DownloadMetadataInfo)
    → IsAscending (group_members v d.assets.asset_grouping)
    → update_group_asset_authorities v a slot (sound a slot d ns) ≡ (
      ok tt,
      sound a slot
          (record d {
            assets =
                write_authorities a slot
                  (uncompressed d.assets.asset (group_members v d.assets.asset_grouping))
                  d.assets;
          })
          ns,
    )
unfolding update_group_asset_authorities ids_after
members_reached v a slot d ns asc =
    let few = length-group_members v d.assets.asset_grouping in
    reaches 999 v a slot (suc (length d.assets.asset_grouping)) none _ d ns refl asc tt
      (omega (arith, few))
