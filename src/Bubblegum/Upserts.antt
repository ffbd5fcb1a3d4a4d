-- ===== src/Bubblegum/Upserts.antt =====
-- program_transformers/src/bubblegum/db.rs: the upserts of the other tables, and the functions, each
-- of them one statement.
pub mod Statements
pub mod Frame
use digital_asset_rpc_infras.Base.{
  ℕ, ◌+◌, Bool, true, false, Option, none, some, List, [], ◌∷◌, String, if◌then◌else◌,
}
use digital_asset_rpc_infras.Base.Int.{ℤ, pos, as_i16}
use digital_asset_rpc_infras.Db.Versioned.{in_sequence}
use digital_asset_rpc_infras.Db.Json.{JsonValue}
use digital_asset_rpc_infras.Db.Table.{
  upsert, insert_or_keep, int_key, nat_key, string_key, pair_key,
}
use digital_asset_rpc_infras.Db.Schema.{
  Pubkey, ChainMutability, Mutability, AssetData, AssetCreator, AssetGrouping, AssetAuthority,
  AssetTables,
}
use digital_asset_rpc_infras.Db.Session.{
  Exec, execute_assets, storage_write_error, asset_index_error,
}
use digital_asset_rpc_infras.Bubblegum.Event.{Externals, Creator, Collection}
use digital_asset_rpc_infras.Bubblegum.Writes.{
  LeafInfo, BaseInfo, leaf_write, owner_write, compression_write, seq_write, base_write,
  upsert_asset,
}

-- On a conflict every column but `metadata` is set.
unfoldable pub upsert_data : ℕ → AssetData → ℤ → AssetTables → AssetTables
upsert_data id new seq t = record t {
  asset_data =
      upsert id new
        (λ old.
          if in_sequence seq old.base_info_seq then record new { metadata = old.metadata } else old)
        t.asset_data;
}

unfoldable pub upsert_grouping : ℕ → Option String → Bool → ℤ → ℤ → AssetTables → AssetTables
upsert_grouping asset_id group_value verified slot_updated seq t =
    let set = λ (r : AssetGrouping). record r {
      group_value = group_value;
      verified = verified;
      slot_updated = some slot_updated;
      group_info_seq = some seq;
    } in
    record t {
      asset_grouping =
          upsert (asset_id, "collection")
            (set (record {
              group_value = none;
              seq = none;
              slot_updated = none;
              verified = false;
              group_info_seq = none;
            }))
            (λ r. if in_sequence seq r.group_info_seq then set r else r) t.asset_grouping;
    }

unfoldable pub upsert_creator : ℕ → ℤ → AssetCreator → ℤ → AssetTables → AssetTables
upsert_creator asset_id position new seq t = record t {
  asset_creators =
      upsert (asset_id, position) new (λ old. if in_sequence seq old.seq then new else old)
        t.asset_creators;
}

-- The rows of one INSERT, in order; `i as i16` is the position of the creator at index `i`.
unfoldable pub upsert_creators_from : ℕ → ℕ → List Creator → ℤ → ℤ → AssetTables → AssetTables
unfolding upsert_creator
upsert_creators_from i asset_id [] slot_updated seq t = t
upsert_creators_from i asset_id (c ∷ cs) slot_updated seq t =
    upsert_creators_from (i + 1) asset_id cs slot_updated seq (
      upsert_creator asset_id (as_i16 i)
        (record {
          creator = some c.address;
          share = c.share;
          verified = c.verified;
          seq = some seq;
          slot_updated = some slot_updated;
        })
        seq t)

unfoldable pub upsert_creators : ℕ → List Creator → ℤ → ℤ → AssetTables → AssetTables
unfolding upsert_creators_from
upsert_creators asset_id [] slot_updated seq t =
    upsert_creator asset_id (pos 0)
      (record {
        creator = none;
        share = 100;
        verified = false;
        seq = some seq;
        slot_updated = some slot_updated;
      })
      seq t
upsert_creators asset_id (c ∷ cs) slot_updated seq t =
    upsert_creators_from 0 asset_id (c ∷ cs) slot_updated seq t

unfoldable pub insert_authority : ℕ → Pubkey → ℤ → ℤ → AssetTables → AssetTables
insert_authority asset_id authority slot_updated seq t = record t {
  asset_authority =
      insert_or_keep asset_id
        (record { scopes = none; authority = authority; seq = seq; slot_updated = slot_updated })
        t.asset_authority;
}

-- The functions of db.rs, each one statement.
module _ (x : Externals) where
  unfoldable pub upsert_asset_with_leaf_info : ℕ → LeafInfo → Exec (Unit {0})
  upsert_asset_with_leaf_info id i =
      execute_assets storage_write_error (upsert_asset id (leaf_write x i))

unfoldable pub upsert_asset_with_owner_and_delegate_info :
    ℕ → Pubkey → Option Pubkey → ℤ → Exec (Unit {0})
upsert_asset_with_owner_and_delegate_info id owner delegate seq =
    execute_assets storage_write_error (upsert_asset id (owner_write owner delegate seq))

unfoldable pub upsert_asset_with_compression_info :
    ℕ → Bool → Bool → ℕ → Option Pubkey → Exec (Unit {0})
upsert_asset_with_compression_info id compressed compressible supply supply_mint =
    execute_assets storage_write_error
      (upsert_asset id (compression_write compressed compressible supply supply_mint))

unfoldable pub upsert_asset_with_seq : ℕ → ℤ → Exec (Unit {0})
upsert_asset_with_seq id seq = execute_assets storage_write_error (upsert_asset id (seq_write seq))

unfoldable pub upsert_asset_base_info : ℕ → BaseInfo → Exec (Unit {0})
upsert_asset_base_info id i = execute_assets asset_index_error (upsert_asset id (base_write id i))

unfoldable pub group_columns : Externals → Option Collection → Option String × Bool
group_columns x none = (none, false)
group_columns x (some c) = (some (x.key_to_string c.key), c.verified)

module _ (x : Externals) where
  unfoldable pub upsert_collection_info : ℕ → Option Collection → ℤ → ℤ → Exec (Unit {0})
  unfolding group_columns
  upsert_collection_info asset_id collection slot_updated seq =
      let (group_value, verified) = group_columns x collection in
      execute_assets storage_write_error
        (upsert_grouping asset_id group_value verified slot_updated seq)

unfoldable pub upsert_asset_data :
    ℕ
    → ChainMutability
    → JsonValue
    → String
    → Mutability
    → JsonValue
    → ℤ
    → Option Bool
    → String
    → String
    → ℤ
    → Exec (Unit {0})
upsert_asset_data id chain_mutability chain_data url mutability metadata slot reindex name symbol
      seq =
    execute_assets storage_write_error (
      upsert_data id
        (record {
          chain_data_mutability = chain_mutability;
          chain_data = chain_data;
          metadata_url = url;
          metadata_mutability = mutability;
          metadata = metadata;
          slot_updated = slot;
          reindex = reindex;
          raw_name = some name;
          raw_symbol = some symbol;
          base_info_seq = some seq;
        })
        seq)

unfoldable pub upsert_asset_creators : ℕ → List Creator → ℤ → ℤ → Exec (Unit {0})
upsert_asset_creators id creators slot_updated seq =
    execute_assets storage_write_error (upsert_creators id creators slot_updated seq)

unfoldable pub upsert_asset_authority : ℕ → Pubkey → ℤ → ℤ → Exec (Unit {0})
upsert_asset_authority asset_id authority slot_updated seq =
    execute_assets asset_index_error (insert_authority asset_id authority slot_updated seq)
