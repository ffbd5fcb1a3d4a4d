-- ===== src/Scenarios/Members.antt =====
-- A collection of two members, of which one has an older authority.
use digital_asset_rpc_infras.Base.{◌≡◌, true, none, some, [], ◌∷◌, arith}
use digital_asset_rpc_infras.Base.Int.{pos}
use digital_asset_rpc_infras.Db.Schema.{AssetGrouping, AssetAuthority, Db, default_asset, empty_db}
use digital_asset_rpc_infras.Db.Session.{ok}
use digital_asset_rpc_infras.Accounts.Core.Members.{
  has_value, insert_id, group_members, uncompressed, write_authorities,
  update_group_asset_authorities,
}
use digital_asset_rpc_infras.Accounts.Core.Members.Paged.{IsAscending, sound}
use digital_asset_rpc_infras.Accounts.Core.Members.Reached.{members_reached}

abbrev member : AssetGrouping
member = record {
  group_value = some "collection key";
  seq = none;
  slot_updated = some (pos 3);
  verified = true;
  group_info_seq = some (pos 0);
}

abbrev old_authority : AssetAuthority
old_authority = record { scopes = none; authority = 8; seq = pos 0; slot_updated = pos 3 }

abbrev collection : Db
collection = record empty_db {
  assets = record empty_db.assets {
    asset = (50, default_asset) ∷ (40, default_asset) ∷ [];
    asset_grouping = ((50, "collection"), member) ∷ ((40, "collection"), member) ∷ [];
    asset_authority = (50, old_authority) ∷ (40, old_authority) ∷ [];
  };
}

in_order : IsAscending (group_members "collection key" collection.assets.asset_grouping)
unfolding group_members has_value insert_id
in_order = ((omega arith, tt), (tt, tt))

members_reached_example :
    update_group_asset_authorities "collection key" 9 (pos 7) (sound 9 (pos 7) collection []) ≡ (
      ok tt,
      sound 9
          (pos 7)
          (record collection {
            assets =
                write_authorities 9
                  (pos 7)
                  (uncompressed collection.assets.asset
                    (group_members "collection key" collection.assets.asset_grouping))
                  collection.assets;
          })
          [],
    )
members_reached_example = members_reached "collection key" 9 (pos 7) collection [] in_order
