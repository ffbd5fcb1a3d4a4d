-- ===== src/Bubblegum/Event.antt =====
-- What the parser hands to the transformer (blockbuster/src/programs/bubblegum/mod.rs), the leaf
-- fields common to both schemas (program_transformers/src/bubblegum/mod.rs), and the chain data
-- (digital_asset_types/src/json/chain_data.rs).
use digital_asset_rpc_infras.Base.{
  ℕ, ◌/◌, ◌%◌, ◌^◌, Bool, ◌||◌, Option, none, some, List, [], ◌∷◌, String, ◌==◌, if◌then◌else◌,
}
use digital_asset_rpc_infras.Base.Text.{remove_nul}
use digital_asset_rpc_infras.Db.Json.{JsonValue, JsonFields}
use digital_asset_rpc_infras.Db.Schema.{Pubkey}
use digital_asset_rpc_infras.Db.Session.{DownloadMetadataInfo}

-- spl_account_compression's change log: the nodes from the changed leaf (first) to the root (last).
pub record PathNode : Type 0 where
  pub node : ℕ
  pub index : ℕ

pub record ChangeLogEventV1 : Type 0 where
  pub id : Pubkey
  pub path : List PathNode
  pub seq : ℕ
  pub index : ℕ

pub data LeafSchema : Type 0 where
  v1 : (id owner delegate nonce data_hash creator_hash : ℕ) → LeafSchema
  v2 :
      (id owner delegate nonce data_hash creator_hash collection_hash asset_data_hash flags : ℕ)
      → LeafSchema

pub record LeafSchemaEvent : Type 0 where
  pub schema : LeafSchema
  pub leaf_hash : ℕ

pub data UseMethod : Type 0 where
  burn multiple single : UseMethod

pub record Uses : Type 0 where
  pub use_method : UseMethod
  pub remaining : ℕ
  pub total : ℕ

pub data TokenStandard : Type 0 where
  non_fungible fungible_asset fungible non_fungible_edition : TokenStandard
  programmable_non_fungible programmable_non_fungible_edition : TokenStandard

pub record Creator : Type 0 where
  pub address : Pubkey
  pub verified : Bool
  pub share : ℕ

pub record Collection : Type 0 where
  pub verified : Bool
  pub key : Pubkey

pub record MetadataArgs : Type 0 where
  pub name : String
  pub symbol : String
  pub uri : String
  pub seller_fee_basis_points : ℕ
  pub primary_sale_happened : Bool
  pub is_mutable : Bool
  pub edition_nonce : Option ℕ
  pub collection : Option Collection
  pub uses : Option Uses
  pub creators : List Creator

pub record UpdateArgs : Type 0 where
  pub name : Option String
  pub symbol : Option String
  pub uri : Option String
  pub creators : Option (List Creator)
  pub seller_fee_basis_points : Option ℕ
  pub primary_sale_happened : Option Bool
  pub is_mutable : Option Bool

pub data Payload : Type 0 where
  unknown : Payload
  mint : (args : MetadataArgs) (authority tree_id : Pubkey) → Payload
  decompress : (args : MetadataArgs) → Payload
  cancel_redeem : (root : Pubkey) → Payload
  creator_verification : (metadata : MetadataArgs) (creator : Pubkey) (verify : Bool) → Payload
  collection_verification : (collection : Pubkey) (verify : Bool) → Payload
  update_metadata :
      (current_metadata : MetadataArgs) (update_args : UpdateArgs) (tree_id : Pubkey) → Payload

pub data InstructionName : Type 0 where
  unknown mint_v1 mint_to_collection_v1 redeem cancel_redeem transfer delegate : InstructionName
  decompress_v1 compress burn create_tree verify_creator unverify_creator : InstructionName
  verify_collection unverify_collection set_and_verify_collection : InstructionName
  set_decompressible_state update_metadata burn_v2 collect_v2 create_tree_v2 : InstructionName
  delegate_and_freeze_v2 delegate_v2 freeze_v2 mint_v2 set_collection_v2 : InstructionName
  set_non_transferable_v2 thaw_and_revoke_v2 thaw_v2 transfer_v2 : InstructionName
  unverify_creator_v2 update_asset_data_v2 update_metadata_v2 verify_creator_v2 : InstructionName

pub record BubblegumInstruction : Type 0 where
  pub instruction : InstructionName
  pub tree_update : Option ChangeLogEventV1
  pub leaf_update : Option LeafSchemaEvent
  pub payload : Option Payload

pub record InstructionBundle : Type 0 where
  pub txn_id : String
  pub slot : ℕ

pub record ChainDataV1 : Type 0 where
  pub name : String
  pub symbol : String
  pub edition_nonce : Option ℕ
  pub primary_sale_happened : Bool
  pub token_standard : Option TokenStandard
  pub uses : Option Uses

unfoldable pub sanitize : ChainDataV1 → ChainDataV1
sanitize c = record c { name = remove_nul c.name; symbol = remove_nul c.symbol }

-- What other crates supply: the base-58 codec, the address of an asset derived from its tree and
-- the eight bytes of its leaf, the flag bits of a V2 leaf, the serde forms of two types of
-- mpl_token_metadata, and the notifier that the ingester passes in.
pub record Externals : Type 0 where
  pub bs58_encode : ℕ → String
  pub bs58_decode : String → Option (List ℕ)
  pub key_to_string : Pubkey → String
  pub find_asset_address : Pubkey → List ℕ → Pubkey
  pub mpl_bubblegum_id : Pubkey
  pub non_transferable : ℕ → Bool
  pub asset_lvl_frozen : ℕ → Bool
  pub permanent_lvl_frozen : ℕ → Bool
  pub token_standard_value : TokenStandard → JsonValue
  pub uses_value : Uses → JsonValue
  pub notifier : DownloadMetadataInfo → Option String

-- The fields of a derived `Serialize`, with those that `skip_serializing_if` leaves out.
unfoldable pub optional_field : String → Option JsonValue → JsonFields → JsonFields
optional_field k none rest = rest
optional_field k (some v) rest = JsonFields.field k v rest

unfoldable pub option_value : {A : Type 0} → (A → JsonValue) → Option A → Option JsonValue
option_value f none = none
option_value f (some a) = some (f a)

unfoldable pub chain_data_value : Externals → ChainDataV1 → JsonValue
unfolding optional_field option_value
chain_data_value x c = JsonValue.object (
    JsonFields.field "name" (JsonValue.string c.name) (
      JsonFields.field "symbol" (JsonValue.string c.symbol) (
        optional_field "edition_nonce" (option_value JsonValue.number c.edition_nonce) (
          JsonFields.field "primary_sale_happened" (JsonValue.bool c.primary_sale_happened) (
            optional_field "token_standard" (option_value x.token_standard_value c.token_standard)
              (optional_field "uses" (option_value x.uses_value c.uses) JsonFields.end))))))

pub record NormalizedLeafFields : Type 0 where
  pub id : Pubkey
  pub owner : Pubkey
  pub delegate : Pubkey
  pub nonce : ℕ
  pub data_hash : ℕ
  pub creator_hash : ℕ
  pub collection_hash : Option ℕ
  pub asset_data_hash : Option ℕ
  pub flags : Option ℕ

unfoldable pub normalize : LeafSchema → NormalizedLeafFields
normalize (LeafSchema.v1 id owner delegated nonce data_hash creator_hash) = record {
  id = id;
  owner = owner;
  delegate = delegated;
  nonce = nonce;
  data_hash = data_hash;
  creator_hash = creator_hash;
  collection_hash = none;
  asset_data_hash = none;
  flags = none;
}
normalize (LeafSchema.v2 id owner delegated nonce data_hash creator_hash collection data' flags) =
    record {
      id = id;
      owner = owner;
      delegate = delegated;
      nonce = nonce;
      data_hash = data_hash;
      creator_hash = creator_hash;
      collection_hash = some collection;
      asset_data_hash = some data';
      flags = some flags;
    }

-- The delegate column of a leaf: none if the owner delegates to nobody.
unfoldable pub delegate_of : Pubkey → Pubkey → Option Pubkey
delegate_of owner delegated = if owner == delegated || delegated == 0 then none else some delegated

-- `u32::to_le_bytes`, padded to eight bytes.
unfoldable pub u32_to_u8_array : ℕ → List ℕ
u32_to_u8_array n =
    (n % 256) ∷ (n / 2 ^ 8 % 256) ∷ (n / 2 ^ 16 % 256) ∷ (n / 2 ^ 24 % 256) ∷ 0 ∷ 0 ∷ 0 ∷ 0 ∷ []
