-- ===== src/Accounts/Core/Columns.antt =====
-- What program_transformers/src/mpl_core_program/v1_asset.rs reads of a Core account, and the columns
-- and rows it makes of it.
use digital_asset_rpc_infras.Base.{
  ℕ, Bool, true, false, Option, none, some, List, [], ◌∷◌, String, if◌then◌else◌,
}
use digital_asset_rpc_infras.Base.Int.{ℤ, pos, leb_ℤ}
use digital_asset_rpc_infras.Db.Json.{JsonValue}
use digital_asset_rpc_infras.Db.Table.{find, upsert, nat_key, string_key, pair_key}
use digital_asset_rpc_infras.Db.Schema.{
  Pubkey, ChainMutability, Mutability, AssetData, AssetGrouping, AssetAuthority, AssetTables, Db,
}
use digital_asset_rpc_infras.Db.Session.{
  Exec, storage_write_error, asset_index_error, execute_assets, pure, ◌>>=◌,
}
use digital_asset_rpc_infras.Bubblegum.Event.{Creator, sanitize, Externals, chain_data_value}
use digital_asset_rpc_infras.Accounts.Retry.{find_model_with_retry}
use digital_asset_rpc_infras.Accounts.Metadata.{retry_intervals}
use digital_asset_rpc_infras.Accounts.Core.Plugins.{
  remove_plugins_nesting, transform_plugins_authority, convert_keys_to_snake_case,
}

-- mpl_core's types. Of a plugin the program reads the authority, the royalties and the freeze.
pub data UpdateAuthority : Type 0 where
  no_authority : UpdateAuthority
  address_of collection_of : Pubkey → UpdateAuthority

pub data PluginAuthority : Type 0 where
  nobody owner update_authority : PluginAuthority
  address_of : Pubkey → PluginAuthority

pub record RoyaltyCreator : Type 0 where
  pub address : Pubkey
  pub percentage : ℕ

pub data Plugin : Type 0 where
  royalties : (basis_points : ℕ) (creators : List RoyaltyCreator) → Plugin
  freeze_delegate : (frozen : Bool) → Plugin
  other : Plugin

pub record PluginSchema : Type 0 where
  pub authority : PluginAuthority
  pub content : Plugin

-- The three plugins that are looked up, and what the maps of plugins serialize to, `none` for an
-- empty list of unknown ones.
pub record IndexableAsset : Type 0 where
  pub owner : Option Pubkey
  pub update_authority : UpdateAuthority
  pub name : String
  pub uri : String
  pub num_minted : Option ℕ
  pub current_size : Option ℕ
  pub royalties_plugin : Option PluginSchema
  pub transfer_delegate_plugin : Option PluginSchema
  pub freeze_delegate_plugin : Option PluginSchema
  pub plugins : JsonValue
  pub unknown_plugins : Option JsonValue
  pub external_plugins : JsonValue
  pub unknown_external_plugins : Option JsonValue

-- blockbuster/src/programs/mpl_core_program/mod.rs
pub data MplCoreAccountData : Type 0 where
  asset collection : IndexableAsset → MplCoreAccountData
  hashed_asset empty_account : MplCoreAccountData

-- `Pubkey::default()`, and the authority of a collection that has no row: no bytes at all.
abbrev pub default_key : Pubkey
default_key = 0

unfoldable pub authority_column : Option AssetAuthority → Pubkey
authority_column none = default_key
authority_column (some r) = r.authority

unfoldable pub resolve_authority : UpdateAuthority → Exec Pubkey
unfolding authority_column
resolve_authority (UpdateAuthority.address_of address) = pure address
resolve_authority (UpdateAuthority.collection_of address) = do
  model ←
      find_model_with_retry storage_write_error (λ (d : Db). find address d.assets.asset_authority)
        retry_intervals
  pure (authority_column model)
resolve_authority UpdateAuthority.no_authority = pure default_key

unfoldable pub core_mutability : UpdateAuthority → ChainMutability
core_mutability UpdateAuthority.no_authority = ChainMutability.immutable
core_mutability (UpdateAuthority.address_of _) = ChainMutability.mutable
core_mutability (UpdateAuthority.collection_of _) = ChainMutability.mutable

unfoldable pub core_data : Externals → IndexableAsset → String → ℤ → AssetData
unfolding core_mutability sanitize
core_data x a uri slot = record {
  chain_data_mutability = core_mutability a.update_authority;
  chain_data = chain_data_value x (
      sanitize (record {
        name = a.name;
        symbol = "";
        edition_nonce = none;
        primary_sale_happened = false;
        token_standard = none;
        uses = none;
      }));
  metadata_url = uri;
  metadata_mutability = Mutability.mutable;
  metadata = JsonValue.string "processing";
  slot_updated = slot;
  reindex = some true;
  raw_name = some a.name;
  raw_symbol = none;
  base_info_seq = some (pos 0);
}

unfoldable pub royalties_of : Option PluginSchema → ℕ × List RoyaltyCreator
royalties_of none = (0, [])
royalties_of (some p) = elim p.content [ royalties b cs ↦ (b, cs) | _ ↦ (0, []) ]

unfoldable pub delegate_by : PluginAuthority → Option Pubkey → Pubkey → Option Pubkey
delegate_by PluginAuthority.owner owned authority = owned
delegate_by PluginAuthority.update_authority owned authority = some authority
delegate_by (PluginAuthority.address_of address) owned authority = some address
delegate_by PluginAuthority.nobody owned authority = none

unfoldable pub transfer_delegate : Option PluginSchema → Option Pubkey → Pubkey → Option Pubkey
unfolding delegate_by
transfer_delegate none owned authority = none
transfer_delegate (some p) owned authority = delegate_by p.authority owned authority

unfoldable pub frozen_of : Option PluginSchema → Bool
frozen_of none = false
frozen_of (some p) = elim p.content [ freeze_delegate frozen ↦ frozen | _ ↦ false ]

-- All creators of a Core asset are verified.
unfoldable pub core_creators : List RoyaltyCreator → List Creator
core_creators [] = []
core_creators (c ∷ cs) =
    record { address = c.address; verified = true; share = c.percentage } ∷ core_creators cs

-- A conflict keeps `seq`; `excluded.slot >= slot` is not true of NULL.
unfoldable pub not_older_group : ℤ → Option ℤ → Bool
not_older_group slot none = false
not_older_group slot (some old) = leb_ℤ old slot

unfoldable pub write_core_collection : Externals → ℕ → ℤ → Pubkey → AssetTables → AssetTables
unfolding not_older_group
write_core_collection x id slot address t =
    let set = λ (r : AssetGrouping). record r {
      group_value = some (x.key_to_string address);
      verified = true;
      group_info_seq = some (pos 0);
      slot_updated = some slot;
    } in
    record t {
      asset_grouping =
          upsert (id, "collection")
            (set (record {
              group_value = none;
              seq = none;
              slot_updated = none;
              verified = false;
              group_info_seq = none;
            }))
            (λ r. if not_older_group slot r.slot_updated then set r else r) t.asset_grouping;
    }

unfoldable pub save_core_group : Externals → ℕ → ℤ → UpdateAuthority → Exec (Unit {0})
unfolding write_core_collection
save_core_group x id slot (UpdateAuthority.collection_of address) =
    execute_assets asset_index_error (write_core_collection x id slot address)
save_core_group x id slot (UpdateAuthority.address_of _) = pure tt
save_core_group x id slot UpdateAuthority.no_authority = pure tt

-- `known` plugins lose a level of nesting, `unknown` ones do not.
unfoldable pub known_plugins : (String → String) → String → JsonValue → JsonValue
known_plugins to_snake_case nested_key v =
    convert_keys_to_snake_case to_snake_case
      (transform_plugins_authority (remove_plugins_nesting nested_key v))

unfoldable pub unknown_plugins_column : (String → String) → Option JsonValue → Option JsonValue
unknown_plugins_column to_snake_case none = none
unknown_plugins_column to_snake_case (some v) =
    some (convert_keys_to_snake_case to_snake_case (transform_plugins_authority v))
