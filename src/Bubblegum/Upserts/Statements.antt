-- ===== src/Bubblegum/Upserts/Statements.antt =====
-- Each upsert, if it succeeds, makes its one write; blocks of them make the list of their writes.
use digital_asset_rpc_infras.Base.{ℕ, Bool, true, false, Option, none, some, List, [], ◌∷◌, String}
use digital_asset_rpc_infras.Base.Int.{ℤ}
use digital_asset_rpc_infras.Base.Reorder.{run}
use digital_asset_rpc_infras.Db.Json.{JsonValue}
use digital_asset_rpc_infras.Db.Schema.{Pubkey, ChainMutability, Mutability}
use digital_asset_rpc_infras.Db.Session.{Exec, execute_assets, storage_write_error, ◌>>◌}
use digital_asset_rpc_infras.Db.Session.Rules.{Does, Does-bind, Does-execute}
use digital_asset_rpc_infras.Bubblegum.Event.{Externals, Creator, Collection}
use digital_asset_rpc_infras.Bubblegum.Writes.{LeafInfo, BaseInfo, upsert_asset, burn_write}
use digital_asset_rpc_infras.Bubblegum.Writes.Ops.{
  leaf, owner, seq, base, compressed, burn, write_of,
}
use digital_asset_rpc_infras.Bubblegum.Effects.{
  TableOp, asset, data_row, creators, authority, grouping, apply_op,
}
use digital_asset_rpc_infras.Bubblegum.Upserts.{
  upsert_asset_with_leaf_info, upsert_asset_with_owner_and_delegate_info,
  upsert_asset_with_compression_info, upsert_asset_with_seq, upsert_asset_base_info,
  upsert_collection_info, upsert_asset_data, upsert_asset_creators, upsert_asset_authority,
}

-- `m` makes the writes `ops` and returns `a`, if it succeeds.
pub record Makes (x : Externals) (ops : List TableOp) {A : Type 0} (a : A) (m : Exec A)
    : Type 0 where
  pub does : Does (run (apply_op x) ops) a m

module _ (x : Externals) where
  pub then_more :
      {A : Type 0} {o : TableOp} {ops : List TableOp} {a : A} {m : Exec (Unit {0})} (n : Exec A)
      → Does (apply_op x o) tt m
      → Makes x ops a n
      → Makes x (o ∷ ops) a (m >> n)
  then_more n d e = record { does = Does-bind (λ _. n) d e.does }

  pub last_one :
      {o : TableOp} {m : Exec (Unit {0})} → Does (apply_op x o) tt m → Makes x (o ∷ []) tt m
  last_one d = record { does = d }

  pub leaf-Does :
      (id : ℕ) (i : LeafInfo)
      → Does (apply_op x (asset id (leaf i))) tt (upsert_asset_with_leaf_info x id i)
  unfolding apply_op write_of upsert_asset_with_leaf_info
  leaf-Does id i = Does-execute _ _

  pub owner-Does :
      (id : ℕ) (o : Pubkey) (d : Option Pubkey) (s : ℤ)
      → Does
          (apply_op x (asset id (owner o d s)))
          tt
          (upsert_asset_with_owner_and_delegate_info id o d s)
  unfolding apply_op write_of upsert_asset_with_owner_and_delegate_info
  owner-Does id o d s = Does-execute _ _

  pub seq-Does :
      (id : ℕ) (s : ℤ) → Does (apply_op x (asset id (seq s))) tt (upsert_asset_with_seq id s)
  unfolding apply_op write_of upsert_asset_with_seq
  seq-Does id s = Does-execute _ _

  pub base-Does :
      (id : ℕ) (i : BaseInfo)
      → Does (apply_op x (asset id (base i))) tt (upsert_asset_base_info id i)
  unfolding apply_op write_of upsert_asset_base_info
  base-Does id i = Does-execute _ _

  pub burn-Does :
      (id : ℕ)
      → Does
          (apply_op x (asset id burn))
          tt
          (execute_assets storage_write_error (upsert_asset id burn_write))
  unfolding apply_op write_of
  burn-Does id = Does-execute _ _

  pub compressed-Does :
      (id : ℕ)
      → Does
          (apply_op x (asset id compressed))
          tt
          (upsert_asset_with_compression_info id true false 1 none)
  unfolding apply_op write_of upsert_asset_with_compression_info
  compressed-Does id = Does-execute _ _

  pub data_row-Does :
      (id : ℕ) (cm : ChainMutability) (cd : JsonValue) (url : String) (mm : Mutability)
      (md : JsonValue) (slot : ℤ) (reindex : Option Bool) (name symbol : String) (s : ℤ)
      → Does
          (apply_op x (
            data_row id
              (record {
                chain_data_mutability = cm;
                chain_data = cd;
                metadata_url = url;
                metadata_mutability = mm;
                metadata = md;
                slot_updated = slot;
                reindex = reindex;
                raw_name = some name;
                raw_symbol = some symbol;
                base_info_seq = some s;
              })
              s))
          tt
          (upsert_asset_data id cm cd url mm md slot reindex name symbol s)
  unfolding apply_op upsert_asset_data
  data_row-Does id cm cd url mm md slot reindex name symbol s = Does-execute _ _

  pub creators-Does :
      (id : ℕ) (cs : List Creator) (slot s : ℤ)
      → Does (apply_op x (creators id cs slot s)) tt (upsert_asset_creators id cs slot s)
  unfolding apply_op upsert_asset_creators
  creators-Does id cs slot s = Does-execute _ _

  pub authority-Does :
      (id : ℕ) (a : Pubkey) (slot s : ℤ)
      → Does (apply_op x (authority id a slot s)) tt (upsert_asset_authority id a slot s)
  unfolding apply_op upsert_asset_authority
  authority-Does id a slot s = Does-execute _ _

  pub grouping-Does :
      (id : ℕ) (c : Option Collection) (slot s : ℤ)
      → Does (apply_op x (grouping id c slot s)) tt (upsert_collection_info x id c slot s)
  unfolding apply_op upsert_collection_info
  grouping-Does id c slot s = Does-execute _ _
