-- ===== src/Db/Trigger.antt =====
-- migration/src/m20240124_181900_add_slot_updated_column_per_update_type.rs: the trigger that runs
-- before each UPDATE of a row of `asset`, also that of an upsert whose WHERE clause holds, and not
-- before an INSERT.
use digital_asset_rpc_infras.Base.{Option, none, some, if◌then◌else◌}
use digital_asset_rpc_infras.Base.Int.{ℤ, leb_ℤ}
use digital_asset_rpc_infras.Db.Schema.{Asset}

-- `GREATEST` of nullable numbers, which leaves NULLs out.
abbrev pub greatest : Option ℤ → Option ℤ → Option ℤ
greatest none b = b
greatest (some a) none = some a
greatest (some a) (some b) = if leb_ℤ a b then some b else some a

abbrev pub update_slot_updated : Asset → Asset
update_slot_updated r = record r {
  slot_updated = greatest r.slot_updated_token_account (
      greatest r.slot_updated_mint_account
        (greatest r.slot_updated_metadata_account r.slot_updated_cnft_transaction));
}
