-- ===== src/Accounts/Metadata/Class.antt =====
-- How v1_asset.rs of program_transformers/src/token_metadata classifies an asset, by the token
-- standard of its metadata and the supply of its mint, and `is_non_fungible` of mod.rs.
pub mod Agree
use digital_asset_rpc_infras.Base.{
  ℕ, Bool, true, false, Option, none, some, if◌then◌else◌, ◌==◌, ltb,
}
use digital_asset_rpc_infras.Db.Tokens.{Pubkey}
use digital_asset_rpc_infras.Db.Schema.{OwnerType, SpecificationAssetClass}
use digital_asset_rpc_infras.Bubblegum.Event.{TokenStandard}

unfoldable pub is_non_fungible_standard : TokenStandard → Bool
is_non_fungible_standard TokenStandard.non_fungible = true
is_non_fungible_standard TokenStandard.non_fungible_edition = true
is_non_fungible_standard TokenStandard.programmable_non_fungible = true
is_non_fungible_standard TokenStandard.programmable_non_fungible_edition = true
is_non_fungible_standard TokenStandard.fungible_asset = false
is_non_fungible_standard TokenStandard.fungible = false

unfoldable pub class_of_standard : Option TokenStandard → SpecificationAssetClass
class_of_standard (some TokenStandard.non_fungible) = SpecificationAssetClass.nft
class_of_standard (some TokenStandard.fungible_asset) = SpecificationAssetClass.fungible_asset
class_of_standard (some TokenStandard.fungible) = SpecificationAssetClass.fungible_token
class_of_standard (some TokenStandard.non_fungible_edition) = SpecificationAssetClass.nft
class_of_standard (some TokenStandard.programmable_non_fungible) =
    SpecificationAssetClass.programmable_nft
class_of_standard (some TokenStandard.programmable_non_fungible_edition) =
    SpecificationAssetClass.programmable_nft
class_of_standard none = SpecificationAssetClass.unknown

unfoldable pub owner_type_of_class : SpecificationAssetClass → OwnerType
owner_type_of_class SpecificationAssetClass.fungible_asset = OwnerType.token
owner_type_of_class SpecificationAssetClass.fungible_token = OwnerType.token
owner_type_of_class SpecificationAssetClass.unknown = OwnerType.unknown
owner_type_of_class _ = OwnerType.single

-- The key So11111111111111111111111111111111111111112.
abbrev pub wsol_pubkey : Pubkey
wsol_pubkey = 2988679396378646993494765771507681406623014513651778753134412041978399162369

unfoldable pub owner_type_by_supply : OwnerType → ℕ → OwnerType
owner_type_by_supply OwnerType.unknown s =
    if s == 1 then OwnerType.single else if ltb 1 s then OwnerType.token else OwnerType.unknown
owner_type_by_supply OwnerType.token s = OwnerType.token
owner_type_by_supply OwnerType.single s = OwnerType.single

unfoldable pub class_by_supply : SpecificationAssetClass → ℕ → SpecificationAssetClass
class_by_supply SpecificationAssetClass.unknown s =
    if ltb 1 s then SpecificationAssetClass.fungible_token else SpecificationAssetClass.unknown
class_by_supply c s = c

-- Single or Unknown.
unfoldable pub searches_owner : OwnerType → Bool
searches_owner OwnerType.single = true
searches_owner OwnerType.unknown = true
searches_owner OwnerType.token = false

-- The class and the owner type before the supply is known; wrapped SOL is fungible in any case.
unfoldable pub class_before_supply : Pubkey → Option TokenStandard → SpecificationAssetClass
unfolding class_of_standard
class_before_supply mint standard =
    if mint == wsol_pubkey
    then SpecificationAssetClass.fungible_token
    else class_of_standard standard

unfoldable pub owner_type_before_supply : Pubkey → Option TokenStandard → OwnerType
unfolding class_of_standard owner_type_of_class
owner_type_before_supply mint standard =
    if mint == wsol_pubkey
    then OwnerType.token
    else owner_type_of_class (class_of_standard standard)

unfoldable pub class_of : Pubkey → Option TokenStandard → ℕ → SpecificationAssetClass
unfolding class_before_supply class_by_supply
class_of mint standard supply = class_by_supply (class_before_supply mint standard) supply

unfoldable pub owner_type_of : Pubkey → Option TokenStandard → ℕ → OwnerType
unfolding owner_type_before_supply owner_type_by_supply
owner_type_of mint standard supply =
    owner_type_by_supply (owner_type_before_supply mint standard) supply
