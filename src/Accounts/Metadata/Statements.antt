-- ===== src/Accounts/Metadata/Statements.antt =====
-- The statements of `save_v1_asset` and `burn_v1_asset` in
-- program_transformers/src/token_metadata/v1_asset.rs on the tables of assets.
use digital_asset_rpc_infras.Base.{
  ℕ, ◌+◌, Bool, true, false, Option, none, some, List, [], ◌∷◌, String, if◌then◌else◌,
}
use digital_asset_rpc_infras.Base.Int.{ℤ, pos, ltb_ℤ, as_i16}
use digital_asset_rpc_infras.Db.Versioned.{newer}
use digital_asset_rpc_infras.Db.Json.{JsonValue}
use digital_asset_rpc_infras.Db.Table.{Table, upsert, nat_key, int_key, string_key, pair_key}
use digital_asset_rpc_infras.Db.Schema.{
  Pubkey, ChainMutability, Mutability, Asset, default_asset, AssetData, AssetCreator, AssetGrouping,
  AssetTables,
}
use digital_asset_rpc_infras.Db.Trigger.{update_slot_updated}
use digital_asset_rpc_infras.Bubblegum.Event.{
  TokenStandard, Creator, Collection, Uses, ChainDataV1, sanitize, Externals, chain_data_value,
}

-- What mpl_token_metadata unpacks.
pub record Metadata : Type 0 where
  pub update_authority : Pubkey
  pub mint : Pubkey
  pub name : String
  pub symbol : String
  pub uri : String
  pub seller_fee_basis_points : ℕ
  pub creators : Option (List Creator)
  pub primary_sale_happened : Bool
  pub is_mutable : Bool
  pub edition_nonce : Option ℕ
  pub token_standard : Option TokenStandard
  pub collection : Option Collection
  pub uses : Option Uses

-- `excluded.slot > slot`, which is not true of NULL.
unfoldable pub strictly_newer : ℤ → Option ℤ → Bool
strictly_newer s none = false
strictly_newer s (some t) = ltb_ℤ t s

unfoldable pub burn_set : ℤ → Asset → Asset
burn_set slot r = record r { slot_updated = some slot; burnt = true }

unfoldable pub write_burn : ℕ → ℤ → AssetTables → AssetTables
unfolding burn_set strictly_newer
write_burn id slot t = record t {
  asset =
      upsert id (burn_set slot default_asset)
        (λ r.
          if strictly_newer slot r.slot_updated then update_slot_updated (burn_set slot r) else r)
        t.asset;
}

unfoldable pub account_mutability : Bool → ChainMutability
account_mutability true = ChainMutability.mutable
account_mutability false = ChainMutability.immutable

unfoldable pub account_chain_data : Metadata → ChainDataV1
unfolding sanitize
account_chain_data m = sanitize (record {
  name = m.name;
  symbol = m.symbol;
  edition_nonce = m.edition_nonce;
  primary_sale_happened = m.primary_sale_happened;
  token_standard = m.token_standard;
  uses = m.uses;
})

unfoldable pub data_row : Externals → Metadata → String → ℤ → AssetData
unfolding account_mutability account_chain_data
data_row x m uri slot = record {
  chain_data_mutability = account_mutability m.is_mutable;
  chain_data = chain_data_value x (account_chain_data m);
  metadata_url = uri;
  metadata_mutability = Mutability.mutable;
  metadata = JsonValue.string "processing";
  slot_updated = slot;
  reindex = some true;
  raw_name = some m.name;
  raw_symbol = some m.symbol;
  base_info_seq = some (pos 0);
}

-- A conflict keeps `metadata`.
unfoldable pub write_data : ℕ → AssetData → AssetTables → AssetTables
write_data id new t = record t {
  asset_data =
      upsert id new
        (λ old.
          if ltb_ℤ old.slot_updated new.slot_updated
          then record new { metadata = old.metadata }
          else old)
        t.asset_data;
}

-- A conflict keeps `scopes`.
unfoldable pub write_authority : ℕ → Pubkey → ℤ → AssetTables → AssetTables
write_authority id authority slot t = record t {
  asset_authority =
      upsert id (record { scopes = none; authority = authority; seq = pos 0; slot_updated = slot })
        (λ old.
          if ltb_ℤ old.slot_updated slot
          then record old { authority = authority; seq = pos 0; slot_updated = slot }
          else old)
        t.asset_authority;
}

-- A conflict keeps `seq`.
unfoldable pub write_collection : Externals → ℕ → ℤ → Collection → AssetTables → AssetTables
unfolding strictly_newer
write_collection x id slot c t =
    let set = λ (r : AssetGrouping). record r {
      group_value = some (x.key_to_string c.key);
      verified = c.verified;
      group_info_seq = some (pos 0);
      slot_updated = some slot;
    } in
    record t {
      asset_grouping =
          upsert (id, "collection")
            (set (record {
              group_value = none;
              seq = none;
              slot_updated = none;
              verified = false;
              group_info_seq = none;
            }))
            (λ r. if strictly_newer slot r.slot_updated then set r else r) t.asset_grouping;
    }

unfoldable pub creator_row : Creator → ℤ → AssetCreator
creator_row c slot = record {
  creator = some c.address;
  share = c.share;
  verified = c.verified;
  seq = some (pos 0);
  slot_updated = some slot;
}

-- The rows of one INSERT, in order; `i as i16` is the position of the creator at index `i`.
unfoldable pub insert_creators :
    ℕ → ℕ → ℤ → List Creator → Table (ℕ × ℤ) AssetCreator → Table (ℕ × ℤ) AssetCreator
unfolding creator_row
insert_creators i id slot [] t = t
insert_creators i id slot (c ∷ cs) t = insert_creators (i + 1) id slot cs (
    upsert (id, as_i16 i) (creator_row c slot)
      (λ old. if newer slot old.slot_updated then creator_row c slot else old) t)

unfoldable pub write_creators : ℕ → ℤ → List Creator → AssetTables → AssetTables
unfolding insert_creators
write_creators id slot cs t = record t {
  asset_creators = insert_creators 0 id slot cs t.asset_creators;
}
