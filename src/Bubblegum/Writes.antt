-- ===== src/Bubblegum/Writes.antt =====
-- The upserts of the `asset` table in program_transformers/src/bubblegum (db.rs and burn.rs): the
-- columns that each sets, and the WHERE clause that is appended to its statement. On a fresh row
-- each sets the same columns as on an old one.
pub mod Ops
pub mod Commute
pub mod Settled
use digital_asset_rpc_infras.Base.{
  ℕ, Bool, true, false, not, ◌&&◌, ◌||◌, Option, none, some, String, if◌then◌else◌, map_option,
}
use digital_asset_rpc_infras.Base.Int.{ℤ, pos, leb_ℤ, eqb_ℤ}
use digital_asset_rpc_infras.Base.Text.{trim}
use digital_asset_rpc_infras.Db.Versioned.{unlocked, newer, in_sequence}
use digital_asset_rpc_infras.Db.Table.{upsert, nat_key}
use digital_asset_rpc_infras.Db.Schema.{
  Pubkey, OwnerType, RoyaltyTargetType, SpecificationVersions, SpecificationAssetClass, Asset,
  default_asset, AssetTables,
}
use digital_asset_rpc_infras.Db.Trigger.{update_slot_updated}
use digital_asset_rpc_infras.Bubblegum.Event.{Externals}

-- A write of the `asset` table: what SET changes, and when WHERE lets it.
pub record Write : Type 0 where
  pub set : Asset → Asset
  pub allowed : Asset → Bool

abbrev pub apply_write : Write → Asset → Asset
apply_write w r = if w.allowed r then update_slot_updated (w.set r) else r

unfoldable pub upsert_asset : ℕ → Write → AssetTables → AssetTables
upsert_asset id w t = record t { asset = upsert id (w.set default_asset) (apply_write w) t.asset }

-- The arguments of `upsert_asset_with_leaf_info`.
pub record LeafInfo : Type 0 where
  pub nonce : ℤ
  pub tree_id : Pubkey
  pub leaf : ℕ
  pub data_hash : ℕ
  pub creator_hash : ℕ
  pub collection_hash : Option ℕ
  pub asset_data_hash : Option ℕ
  pub flags : Option ℕ
  pub seq : ℤ

module _ (x : Externals) where
  abbrev pub hash_text : ℕ → String
  hash_text h = trim (x.bs58_encode h)

  -- The columns of a V2 leaf are set only if the event has flags.
  unfoldable pub if_v2 : {A : Type 0} → Option ℕ → (ℕ → A) → A → A
  if_v2 none new old = old
  if_v2 (some flags) new old = new flags

  unfoldable pub frozen_by : Option ℕ → Bool
  frozen_by none = false
  frozen_by (some flags) = x.asset_lvl_frozen flags || x.permanent_lvl_frozen flags

  unfoldable pub leaf_write : LeafInfo → Write
  unfolding if_v2 frozen_by
  leaf_write i = record {
    set = λ r. record r {
      nonce = some i.nonce;
      tree_id = some i.tree_id;
      leaf = some i.leaf;
      data_hash = some (hash_text i.data_hash);
      creator_hash = some (hash_text i.creator_hash);
      leaf_seq = some i.seq;
      frozen = frozen_by i.flags;
      collection_hash =
          if_v2 i.flags (λ _. map_option hash_text i.collection_hash) r.collection_hash;
      asset_data_hash =
          if_v2 i.flags (λ _. map_option hash_text i.asset_data_hash) r.asset_data_hash;
      bubblegum_flags = if_v2 i.flags some r.bubblegum_flags;
      non_transferable = if_v2 i.flags (λ f. some (x.non_transferable f)) r.non_transferable;
    };
    allowed = λ r. unlocked r.seq && newer i.seq r.leaf_seq;
  }

unfoldable pub owner_write : Pubkey → Option Pubkey → ℤ → Write
owner_write owner delegate seq = record {
  set = λ r. record r { owner = some owner; delegate = delegate; owner_delegate_seq = some seq };
  allowed = λ r. unlocked r.seq && newer seq r.owner_delegate_seq;
}

unfoldable pub compression_write : Bool → Bool → ℕ → Option Pubkey → Write
compression_write compressed compressible supply supply_mint = record {
  set = λ r. record r {
    compressed = compressed;
    compressible = compressible;
    supply = supply;
    supply_mint = supply_mint;
  };
  allowed = λ r. unlocked r.seq;
}

unfoldable pub seq_write : ℤ → Write
seq_write seq = record {
  set = λ r. record r { seq = some seq };
  allowed = λ r. in_sequence seq r.seq;
}

-- The arguments of `upsert_asset_base_info`, whose callers agree on all others.
pub record BaseInfo : Type 0 where
  pub owner_type : OwnerType
  pub specification_version : SpecificationVersions
  pub specification_asset_class : SpecificationAssetClass
  pub royalty_target_type : RoyaltyTargetType
  pub royalty_target : Option Pubkey
  pub royalty_amount : ℕ
  pub slot_updated : ℤ
  pub seq : ℤ

unfoldable pub base_write : ℕ → BaseInfo → Write
base_write id i = record {
  set = λ r. record r {
    owner_type = i.owner_type;
    specification_version = some i.specification_version;
    specification_asset_class = some i.specification_asset_class;
    royalty_target_type = i.royalty_target_type;
    royalty_target = i.royalty_target;
    royalty_amount = i.royalty_amount;
    asset_data = some id;
    slot_updated_cnft_transaction = some i.slot_updated;
    base_info_seq = some i.seq;
  };
  allowed = λ r. unlocked r.seq && newer i.seq r.base_info_seq;
}

-- burn.rs, lines 44-64: no WHERE clause.
unfoldable pub burn_write : Write
burn_write = record { set = λ r. record r { burnt = true }; allowed = λ r. true }
