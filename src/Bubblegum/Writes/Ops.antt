-- ===== src/Bubblegum/Writes/Ops.antt =====
-- The writes that the handlers make to one row of `asset`, by their arguments.
use digital_asset_rpc_infras.Base.{ℕ, true, false, Option, none}
use digital_asset_rpc_infras.Base.Int.{ℤ}
use digital_asset_rpc_infras.Db.Schema.{Pubkey}
use digital_asset_rpc_infras.Bubblegum.Event.{Externals}
use digital_asset_rpc_infras.Bubblegum.Writes.{
  Write, LeafInfo, leaf_write, owner_write, compression_write, seq_write, BaseInfo, base_write,
  burn_write,
}

-- Only `mint` writes compression columns, and
-- always the same ones.
pub data AssetOp : Type 0 where
  leaf : LeafInfo → AssetOp
  owner : Pubkey → Option Pubkey → ℤ → AssetOp
  seq : ℤ → AssetOp
  base : BaseInfo → AssetOp
  compressed : AssetOp
  burn : AssetOp

module _ (x : Externals) (id : ℕ) where
  unfoldable pub write_of : AssetOp → Write
  write_of (leaf i) = leaf_write x i
  write_of (owner o d s) = owner_write o d s
  write_of (seq s) = seq_write s
  write_of (base i) = base_write id i
  write_of compressed = compression_write true false 1 none
  write_of burn = burn_write
