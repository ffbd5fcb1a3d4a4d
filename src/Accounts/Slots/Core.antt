-- ===== src/Accounts/Slots/Core.antt =====
-- The handler of Core accounts moves no slot back, whatever fails.
use digital_asset_rpc_infras.Base.{ℕ, suc, zero, String, Option, none, List, [], ◌∷◌, length}
use digital_asset_rpc_infras.Base.Int.{ℤ, as_i64}
use digital_asset_rpc_infras.Db.Schema.{Pubkey, SpecificationAssetClass, Db}
use digital_asset_rpc_infras.Db.Session.{Exec}
use digital_asset_rpc_infras.Db.Session.Monotone.{Moves-transaction_beside}
use digital_asset_rpc_infras.Bubblegum.Event.{Externals}
use digital_asset_rpc_infras.Accounts.Token.{AccountInfo}
use digital_asset_rpc_infras.Accounts.Metadata.{burn_v1_asset}
use digital_asset_rpc_infras.Accounts.Core.{
  save_core, save_indexable, save_core_asset, handle_mpl_core_account,
}
use digital_asset_rpc_infras.Accounts.Core.Columns.{
  UpdateAuthority, IndexableAsset, MplCoreAccountData, resolve_authority, write_core_collection,
  save_core_group,
}
use digital_asset_rpc_infras.Accounts.Core.Members.{
  write_authorities, save_authorities, save_page, update_from, update_group_asset_authorities,
}
use digital_asset_rpc_infras.Accounts.Slots.{SlotsGrow, SlotsGrow-refl, SlotsGrow-trans}
use digital_asset_rpc_infras.Accounts.Slots.Statements.{
  write_data-SlotsGrow, write_authority-SlotsGrow, write_burn-SlotsGrow,
}
use digital_asset_rpc_infras.Accounts.Slots.Forward.{
  IsForward, IsForward-pure, IsForward-raise, IsForward-query, IsForward-bind, IsForward-assets,
  owner_columns-IsForward, mint_columns-IsForward, metadata_columns-IsForward,
}
use digital_asset_rpc_infras.Accounts.Slots.Handlers.{notify_some-IsForward}
use digital_asset_rpc_infras.Accounts.Slots.Metadata.{retry-IsForward, save_creators-IsForward}

write_core_collection-SlotsGrow :
    (x : Externals) (id : ℕ) (slot : ℤ) (address : Pubkey) (d : Db)
    → SlotsGrow d (record d { assets = write_core_collection x id slot address d.assets })
unfolding write_core_collection
write_core_collection-SlotsGrow x id slot address d =
    let same = SlotsGrow-refl d in
    record {
      tokens = same.tokens;
      token_accounts = same.token_accounts;
      attachments = same.attachments;
      data_rows = same.data_rows;
      owners = same.owners;
      mints = same.mints;
      metadata_rows = same.metadata_rows;
    }

write_authorities-SlotsGrow :
    (authority : Pubkey) (slot : ℤ) (ids : List ℕ) (d : Db)
    → SlotsGrow d (record d { assets = write_authorities authority slot ids d.assets })
unfolding write_authorities
write_authorities-SlotsGrow authority slot ids d =
    let same = SlotsGrow-refl d in
    record {
      tokens = same.tokens;
      token_accounts = same.token_accounts;
      attachments = same.attachments;
      data_rows = same.data_rows;
      owners = same.owners;
      mints = same.mints;
      metadata_rows = same.metadata_rows;
    }

save_authorities-IsForward :
    (authority : Pubkey) (slot : ℤ) (ids : List ℕ) → IsForward (save_authorities authority slot ids)
unfolding save_authorities
save_authorities-IsForward authority slot [] = IsForward-pure tt
save_authorities-IsForward authority slot (b ∷ bs) =
    IsForward-assets _ _ (write_authorities-SlotsGrow authority slot (b ∷ bs))

module _ (n : ℕ) (v : String) (authority : Pubkey) (slot : ℤ) where
  save_page-IsForward :
      (rest : Option ℕ → Exec (Unit {0})) (entries : List ℕ)
      → ((o : Option ℕ) → IsForward (rest o))
      → IsForward (save_page n v authority slot rest entries)
  unfolding save_page
  save_page-IsForward rest [] h = IsForward-pure tt
  save_page-IsForward rest (b ∷ bs) h =
      IsForward-bind (IsForward-query _ _)
        (λ ids. IsForward-bind (save_authorities-IsForward authority slot ids) (λ _. h _))

  update_from-IsForward :
      (fuel : ℕ) (after : Option ℕ) → IsForward (update_from n v authority slot fuel after)
  unfolding update_from
  update_from-IsForward zero after = IsForward-raise _
  update_from-IsForward (suc fuel) after = IsForward-bind (IsForward-query _ _) (λ entries.
      save_page-IsForward (update_from n v authority slot fuel) entries
        (λ o. update_from-IsForward fuel o))

members-IsForward :
    (v : String) (authority : Pubkey) (slot : ℤ)
    → IsForward (update_group_asset_authorities v authority slot)
unfolding update_group_asset_authorities
members-IsForward v authority slot = record {
  step = λ s.
      (update_from-IsForward 1000 v authority slot (suc (length s.db.assets.asset_grouping))
          none).step
        s;
}

resolve_authority-IsForward : (a : UpdateAuthority) → IsForward (resolve_authority a)
unfolding resolve_authority
resolve_authority-IsForward (UpdateAuthority.address_of k) = IsForward-pure _
resolve_authority-IsForward (UpdateAuthority.collection_of k) =
    IsForward-bind (retry-IsForward _ _ _) (λ _. IsForward-pure _)
resolve_authority-IsForward UpdateAuthority.no_authority = IsForward-pure _

save_core_group-IsForward :
    (x : Externals) (id : ℕ) (slot : ℤ) (a : UpdateAuthority)
    → IsForward (save_core_group x id slot a)
unfolding save_core_group
save_core_group-IsForward x id slot (UpdateAuthority.collection_of k) =
    IsForward-assets _ _ (write_core_collection-SlotsGrow x id slot k)
save_core_group-IsForward x id slot (UpdateAuthority.address_of k) = IsForward-pure tt
save_core_group-IsForward x id slot UpdateAuthority.no_authority = IsForward-pure tt

module _ (x : Externals) (to_snake_case : String → String) where
  save_core-IsForward :
      (id : Pubkey) (a : IndexableAsset) (class : SpecificationAssetClass) (owned : Option Pubkey)
      (authority : Pubkey) (uri : String) (slot : ℕ)
      → IsForward (save_core x to_snake_case id a class owned authority uri slot)
  unfolding save_core
  save_core-IsForward id a class owned authority uri slot =
      IsForward-bind (IsForward-assets _ _ (write_data-SlotsGrow _ _)) (λ _.
        IsForward-bind (metadata_columns-IsForward _ _) (λ _.
          IsForward-bind (mint_columns-IsForward _ _) (λ _.
            IsForward-bind (owner_columns-IsForward _ _) (λ _.
              IsForward-bind (save_core_group-IsForward x id _ a.update_authority)
                (λ _. save_creators-IsForward _ _ _)))))

  save_indexable-IsForward :
      (id : Pubkey) (a : IndexableAsset) (class : SpecificationAssetClass)
      (owner_by : Pubkey → Option Pubkey) (beside : Pubkey → Exec (Unit {0})) (slot : ℕ)
      → ((k : Pubkey) → IsForward (beside k))
      → IsForward (save_indexable x to_snake_case id a class owner_by beside slot)
  unfolding save_indexable
  save_indexable-IsForward id a class owner_by beside slot h =
      IsForward-bind (resolve_authority-IsForward a.update_authority) (λ authority.
        IsForward-bind
          (Moves-transaction_beside SlotsGrow SlotsGrow-refl SlotsGrow-trans _ _ (beside authority)
            _ (write_authority-SlotsGrow id authority (as_i64 slot)) (h authority)
            (save_core-IsForward id a class (owner_by authority) authority _ slot))
          (λ _. IsForward-pure _))

  save_core_asset-IsForward :
      (id : Pubkey) (p : MplCoreAccountData) (slot : ℕ)
      → IsForward (save_core_asset x to_snake_case id p slot)
  unfolding save_core_asset
  save_core_asset-IsForward id (MplCoreAccountData.asset a) slot =
      save_indexable-IsForward id a _ _ _ slot (λ _. IsForward-pure tt)
  save_core_asset-IsForward id (MplCoreAccountData.collection a) slot =
      save_indexable-IsForward id a _ _ _ slot (λ k. members-IsForward _ k _)
  save_core_asset-IsForward id MplCoreAccountData.hashed_asset slot = IsForward-raise _
  save_core_asset-IsForward id MplCoreAccountData.empty_account slot = IsForward-raise _

  pub mpl_core-IsForward :
      (info : AccountInfo) (p : MplCoreAccountData)
      → IsForward (handle_mpl_core_account x to_snake_case info p)
  unfolding handle_mpl_core_account burn_v1_asset
  mpl_core-IsForward info MplCoreAccountData.empty_account =
      IsForward-assets _ _ (write_burn-SlotsGrow _ _)
  mpl_core-IsForward info (MplCoreAccountData.asset a) =
      IsForward-bind (save_core_asset-IsForward info.pubkey (MplCoreAccountData.asset a) info.slot)
        (λ o. notify_some-IsForward x.notifier o)
  mpl_core-IsForward info (MplCoreAccountData.collection a) =
      IsForward-bind
        (save_core_asset-IsForward info.pubkey (MplCoreAccountData.collection a) info.slot)
        (λ o. notify_some-IsForward x.notifier o)
  mpl_core-IsForward info MplCoreAccountData.hashed_asset = IsForward-raise _
