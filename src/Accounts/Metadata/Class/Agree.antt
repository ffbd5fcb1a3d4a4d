-- ===== src/Accounts/Metadata/Class/Agree.antt =====
-- The owner type and the class that an asset is given agree.
use digital_asset_rpc_infras.Base.{
  ℕ, ◌≡◌, ◌↔◌, Bool, true, false, Option, none, some, if◌then◌else◌, ◌==◌, arith,
}
use digital_asset_rpc_infras.Db.Tokens.{Pubkey}
use digital_asset_rpc_infras.Db.Schema.{OwnerType, SpecificationAssetClass}
use digital_asset_rpc_infras.Bubblegum.Event.{TokenStandard}
use digital_asset_rpc_infras.Accounts.Metadata.Class.{
  class_of_standard, owner_type_of_class, wsol_pubkey, owner_type_by_supply, class_by_supply,
  class_before_supply, owner_type_before_supply, class_of, owner_type_of,
}

abbrev pub is_fungible : SpecificationAssetClass → Bool
is_fungible SpecificationAssetClass.fungible_asset = true
is_fungible SpecificationAssetClass.fungible_token = true
is_fungible _ = false

-- An asset of no known owner has no standard, is not wrapped SOL and has no supply.
abbrev pub HasNoOwner : Pubkey → Option TokenStandard → ℕ → Type 0
HasNoOwner mint standard supply = (mint == wsol_pubkey ≡ false) × (standard ≡ none) × (supply ≡ 0)

abbrev Agrees : Bool → Option TokenStandard → ℕ → Type 0
Agrees wrapped standard supply =
    let c =
      if wrapped then SpecificationAssetClass.fungible_token else class_of_standard standard in
    let o = if wrapped then OwnerType.token else owner_type_of_class (class_of_standard standard) in
    ((owner_type_by_supply o supply ≡ OwnerType.token)
      ↔ (is_fungible (class_by_supply c supply) ≡ true))
    × ((owner_type_by_supply o supply ≡ OwnerType.unknown)
        ↔ ((wrapped ≡ false) × (standard ≡ none) × (supply ≡ 0)))

agrees :
    (wrapped : Bool) (standard : Option TokenStandard) (supply : ℕ) → Agrees wrapped standard supply
unfolding class_of_standard owner_type_of_class class_by_supply owner_type_by_supply
agrees true standard supply = ground arith
agrees false none supply = ground arith
agrees false (some TokenStandard.non_fungible) supply = ground arith
agrees false (some TokenStandard.fungible_asset) supply = ground arith
agrees false (some TokenStandard.fungible) supply = ground arith
agrees false (some TokenStandard.non_fungible_edition) supply = ground arith
agrees false (some TokenStandard.programmable_non_fungible) supply = ground arith
agrees false (some TokenStandard.programmable_non_fungible_edition) supply = ground arith

-- An asset is owned by token accounts exactly if its class is that of a fungible asset or token,
-- and its owner type is unknown exactly if it is not wrapped SOL, has no token standard and has no
-- supply.
pub class_agrees :
    (mint : Pubkey) (standard : Option TokenStandard) (supply : ℕ)
    → ((owner_type_of mint standard supply ≡ OwnerType.token)
        ↔ (is_fungible (class_of mint standard supply) ≡ true))
      × ((owner_type_of mint standard supply ≡ OwnerType.unknown) ↔ HasNoOwner mint standard supply)
unfolding class_of owner_type_of class_before_supply owner_type_before_supply
class_agrees mint standard supply = agrees (mint == wsol_pubkey) standard supply
