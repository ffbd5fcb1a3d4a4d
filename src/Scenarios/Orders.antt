-- ===== src/Scenarios/Orders.antt =====
-- Two events of one asset, in both orders and twice, and an asset that was decompressed.
use mathlib.Core.List.{Permᴰ, Memᴰ}
use digital_asset_rpc_infras.Base.{
  ℕ, ◌≡◌, ◌≢◌, refl, inr, true, none, some, [], ◌∷◌, ◌++◌, String, arith,
}
use digital_asset_rpc_infras.Base.Int.{ℤ, pos}
use digital_asset_rpc_infras.Base.Reorder.{run}
use digital_asset_rpc_infras.Db.Json.{JsonValue}
use digital_asset_rpc_infras.Db.Table.{find, nat_key, string_key, pair_key}
use digital_asset_rpc_infras.Db.Schema.{
  Asset, AssetData, Instruction, ClItem, ChainMutability, Mutability, default_asset, empty_db,
  AssetTables, OwnerType, SpecificationVersions, SpecificationAssetClass, RoyaltyTargetType,
}
use digital_asset_rpc_infras.Bubblegum.Instruction.{
  instruction_from, to_pascal_case, instruction_from-to_pascal_case,
}
use digital_asset_rpc_infras.Bubblegum.Writes.Ops.{owner, seq, base}
use digital_asset_rpc_infras.Bubblegum.Effects.{TableOp, asset, data_row, grouping, apply_op}
use digital_asset_rpc_infras.Bubblegum.ChangeLog.Nodes.{NodeKey, write_node, nodes_order_free}
use digital_asset_rpc_infras.Bubblegum.Convergence.Rows.{order_free, replay, decompressed_stays}
use digital_asset_rpc_infras.Bubblegum.Convergence.Settled.{settled, order_settled, replay_settled}
use digital_asset_rpc_infras.Bubblegum.Convergence.Data.{data_order_free}
use digital_asset_rpc_infras.Bubblegum.Convergence.Grouping.{group_order_free}
use digital_asset_rpc_infras.Scenarios.Transfers.{ext}

five_six : pos 5 ≢ pos 6
five_six = λ e. ground arith

five_zero : pos 5 ≢ pos 0
five_zero = λ e. ground arith

six_zero : pos 6 ≢ pos 0
six_zero = λ e. ground arith

abbrev new_owner : TableOp
new_owner = asset 7 (owner 4 none (pos 6))

abbrev new_seq : TableOp
new_seq = asset 7 (seq (pos 6))

-- The asset 7 is there.
abbrev with_asset : AssetTables
with_asset = record empty_db.assets { asset = (7, default_asset) ∷ [] }

asset_found : find 7 with_asset.asset ≡ some default_asset
unfolding find
asset_found = refl

abbrev base_by : ℤ → ℤ → TableOp
base_by slot s = asset 7 (
    base (record {
      owner_type = OwnerType.single;
      specification_version = SpecificationVersions.v1;
      specification_asset_class = SpecificationAssetClass.nft;
      royalty_target_type = RoyaltyTargetType.creators;
      royalty_target = none;
      royalty_amount = 500;
      slot_updated = slot;
      seq = s;
    }))

abbrev old_base : TableOp
old_base = base_by (pos 9) (pos 5)

abbrev new_base : TableOp
new_base = base_by (pos 10) (pos 6)

order_free_example :
    find 7 (run (apply_op ext) (old_base ∷ new_base ∷ []) with_asset).asset
    ≡ find 7 (run (apply_op ext) (new_base ∷ old_base ∷ []) with_asset).asset
order_free_example =
    order_free ext {us = old_base ∷ new_base ∷ []} {vs = new_base ∷ old_base ∷ []}
      (Permᴰ.swap refl refl) ((inr (tt, tt, five_six), tt), (tt, tt)) 7 default_asset with_asset
      asset_found

order_settled_example :
    settled (find 7 (run (apply_op ext) (old_base ∷ new_base ∷ []) empty_db.assets).asset)
    ≡ settled (find 7 (run (apply_op ext) (new_base ∷ old_base ∷ []) empty_db.assets).asset)
order_settled_example =
    order_settled ext {us = old_base ∷ new_base ∷ []} {vs = new_base ∷ old_base ∷ []}
      (Permᴰ.swap refl refl) ((inr (tt, tt, five_six), tt), (tt, tt)) 7 empty_db.assets

replay_example :
    find 7 (run (apply_op ext) ((old_base ∷ new_seq ∷ []) ++ old_base ∷ []) with_asset).asset
    ≡ find 7 (run (apply_op ext) (old_base ∷ new_seq ∷ []) with_asset).asset
replay_example =
    replay ext {u = old_base} {us = old_base ∷ new_seq ∷ []} (Memᴰ.head refl)
      ((inr (tt, six_zero, tt), tt), (tt, tt)) 7 default_asset with_asset asset_found

replay_settled_example :
    settled (
      find 7
        (run (apply_op ext) ((old_base ∷ new_seq ∷ []) ++ old_base ∷ []) empty_db.assets).asset)
    ≡ settled (find 7 (run (apply_op ext) (old_base ∷ new_seq ∷ []) empty_db.assets).asset)
replay_settled_example =
    replay_settled ext {u = old_base} {us = old_base ∷ new_seq ∷ []} (Memᴰ.head refl)
      ((inr (tt, six_zero, tt), tt), (tt, tt)) 7 empty_db.assets

abbrev named : String → ℤ → AssetData
named name s = record {
  chain_data_mutability = ChainMutability.mutable;
  chain_data = JsonValue.null;
  metadata_url = "u";
  metadata_mutability = Mutability.mutable;
  metadata = JsonValue.string "processing";
  slot_updated = pos 9;
  reindex = some true;
  raw_name = some name;
  raw_symbol = some "S";
  base_info_seq = some s;
}

abbrev old_name : TableOp
old_name = data_row 7 (named "a" (pos 5)) (pos 5)

abbrev new_name : TableOp
new_name = data_row 7 (named "b" (pos 6)) (pos 6)

data_order_free_example :
    find 7 (run (apply_op ext) (old_name ∷ new_name ∷ []) empty_db.assets).asset_data
    ≡ find 7 (run (apply_op ext) (new_name ∷ old_name ∷ []) empty_db.assets).asset_data
data_order_free_example =
    data_order_free ext {us = old_name ∷ new_name ∷ []} {vs = new_name ∷ old_name ∷ []}
      (Permᴰ.swap refl refl)
      ((inr (five_six, (refl, five_zero), (refl, six_zero), refl), tt), (tt, tt)) 7 empty_db.assets

abbrev joined : TableOp
joined = grouping 7 (some (record { verified = true; key = 12 })) (pos 9) (pos 5)

abbrev left : TableOp
left = grouping 7 none (pos 9) (pos 6)

group_order_free_example :
    find (7, "collection") (run (apply_op ext) (joined ∷ left ∷ []) empty_db.assets).asset_grouping
    ≡ find
        (7, "collection")
        (run (apply_op ext) (left ∷ joined ∷ []) empty_db.assets).asset_grouping
group_order_free_example =
    group_order_free ext {us = joined ∷ left ∷ []} {vs = left ∷ joined ∷ []} (Permᴰ.swap refl refl)
      ((inr (five_six, five_zero, six_zero), tt), (tt, tt)) 7 empty_db.assets

abbrev node_at : ℕ → ℤ → NodeKey × ClItem
node_at hash s = ((100, 1), record { leaf_idx = none; seq = s; level = 2; hash = hash })

nodes_order_free_example :
    find
      (100, 1)
      (run write_node (node_at 70 (pos 5) ∷ node_at 71 (pos 6) ∷ []) empty_db.trees).cl_items
    ≡ find
        (100, 1)
        (run write_node (node_at 71 (pos 6) ∷ node_at 70 (pos 5) ∷ []) empty_db.trees).cl_items
nodes_order_free_example =
    nodes_order_free {us = node_at 70 (pos 5) ∷ node_at 71 (pos 6) ∷ []}
      {vs = node_at 71 (pos 6) ∷ node_at 70 (pos 5) ∷ []} (Permᴰ.swap refl refl)
      ((inr five_six, tt), (tt, tt)) (100, 1) empty_db.trees

abbrev decompressed : Asset
decompressed = record default_asset { seq = some (pos 0) }

abbrev with_decompressed : AssetTables
with_decompressed = record empty_db.assets { asset = (7, decompressed) ∷ [] }

decompressed_found : find 7 with_decompressed.asset ≡ some decompressed
unfolding find
decompressed_found = refl

decompressed_stays_example :
    find 7 (run (apply_op ext) (new_owner ∷ new_seq ∷ []) with_decompressed).asset
    ≡ some decompressed
decompressed_stays_example =
    decompressed_stays ext 7 decompressed (new_owner ∷ new_seq ∷ []) with_decompressed
      decompressed_found refl ((λ e. cc), ((λ e. cc), tt))

instruction_from-to_pascal_case_example :
    instruction_from (to_pascal_case Instruction.burn_v2) ≡ Instruction.burn_v2
instruction_from-to_pascal_case_example = instruction_from-to_pascal_case Instruction.burn_v2
