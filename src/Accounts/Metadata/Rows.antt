-- ===== src/Accounts/Metadata/Rows.antt =====
-- What `save_v1_asset` leaves in the tables of metadata: all of its rows or none.
use digital_asset_rpc_infras.Base.{
  ℕ, ◌≡◌, refl, Option, none, some, List, [], ◌∷◌, String, arith, unwrap_or,
}
use digital_asset_rpc_infras.Base.Int.{ℤ, as_i64}
use digital_asset_rpc_infras.Base.Text.{remove_nul, trim}
use digital_asset_rpc_infras.Db.Table.{Table, nat_key}
use digital_asset_rpc_infras.Db.Tokens.{TokenTables}
use digital_asset_rpc_infras.Db.Schema.{
  AssetTables, AssetData, AssetAuthority, AssetGrouping, AssetCreator,
}
use digital_asset_rpc_infras.Db.Session.{Error, execute_tokens, execute}
use digital_asset_rpc_infras.Db.Session.Rules.{Does, Does-bind, Does-execute, Does-pure}
use digital_asset_rpc_infras.Bubblegum.Event.{Externals, Creator, Collection}
use digital_asset_rpc_infras.Accounts.Upserts.{
  write_metadata_account, upsert_assets_metadata_account_columns,
}
use digital_asset_rpc_infras.Accounts.Attachments.{AttachmentExternals}
use digital_asset_rpc_infras.Accounts.Metadata.{
  save_collection, save_creators, save_metadata, metadata_columns,
}
use digital_asset_rpc_infras.Accounts.Metadata.Statements.{
  Metadata, data_row, write_data, write_authority, write_collection, write_creators,
  insert_creators,
}

-- The tables that hold metadata.
abbrev pub MetadataTables : Type 0
MetadataTables =
    Table ℕ AssetData
    × Table ℕ AssetAuthority
    × Table (ℕ × String) AssetGrouping
    × Table (ℕ × ℤ) AssetCreator

abbrev pub tables_of : AssetTables → MetadataTables
tables_of t = (t.asset_data, t.asset_authority, t.asset_grouping, t.asset_creators)

-- The tables of assets with those, and no row of `asset`.
abbrev pub with_tables : MetadataTables → AssetTables
with_tables (data_table, authorities, groups, creators) = record {
  asset = [];
  asset_data = data_table;
  asset_creators = creators;
  asset_grouping = groups;
  asset_authority = authorities;
}

-- The write of a collection, which may be missing.
abbrev pub collection_table :
    Externals
    → ℕ
    → ℤ
    → Option Collection
    → Table (ℕ × String) AssetGrouping
    → Table (ℕ × String) AssetGrouping
collection_table x id slot none g = g
collection_table x id slot (some c) g =
    (write_collection x id slot c (with_tables ([], [], g, []))).asset_grouping

abbrev pub collection_writes : Externals → ℕ → ℤ → Option Collection → AssetTables → AssetTables
collection_writes x id slot o t = record t {
  asset_grouping = collection_table x id slot o t.asset_grouping;
}

-- Those tables after the writes of one metadata account, each write made on its own.
abbrev pub metadata_writes : Externals → Metadata → ℕ → MetadataTables → MetadataTables
metadata_writes x m slot ts =
    let t = with_tables ts in
    (
      (write_data m.mint (data_row x m (remove_nul (trim m.uri)) (as_i64 slot)) t).asset_data,
      (write_authority m.mint m.update_authority (as_i64 slot) t).asset_authority,
      collection_table x m.mint (as_i64 slot) m.collection t.asset_grouping,
      (write_creators m.mint (as_i64 slot) (unwrap_or m.creators []) t).asset_creators,
    )

Does-execute_tokens :
    (w : String → Error) (f : TokenTables → TokenTables) → Does (λ t. t) tt (execute_tokens w f)
unfolding execute
Does-execute_tokens w f = record { on_ok = λ s b h. ground arith }

Does-collection :
    (x : Externals) (id : ℕ) (slot : ℤ) (o : Option Collection)
    → Does (collection_writes x id slot o) tt (save_collection x id slot o)
unfolding save_collection write_collection
Does-collection x id slot none = Does-pure tt
Does-collection x id slot (some c) = Does-execute _ (write_collection x id slot c)

Does-creators :
    (id : ℕ) (slot : ℤ) (cs : List Creator)
    → Does (write_creators id slot cs) tt (save_creators id slot cs)
unfolding save_creators write_creators insert_creators
Does-creators id slot [] = Does-pure tt
Does-creators id slot (c ∷ cs) = Does-execute _ (write_creators id slot (c ∷ cs))

module _ (x : Externals) (c : AttachmentExternals) (m : Metadata) (supply slot : ℕ) where
  abbrev pub uri_of : String
  uri_of = remove_nul (trim m.uri)

  abbrev pub block : AssetTables → AssetTables
  block t = write_creators m.mint (as_i64 slot) (unwrap_or m.creators []) (
      collection_writes x m.mint (as_i64 slot) m.collection (
        write_authority m.mint m.update_authority (as_i64 slot) (
          write_metadata_account (metadata_columns x c m supply slot)
            (write_data m.mint (data_row x m uri_of (as_i64 slot)) t))))

  pub Does-save_metadata : Does block tt (save_metadata x c m uri_of supply slot)
  unfolding save_metadata upsert_assets_metadata_account_columns
  Does-save_metadata = Does-bind _ (Does-execute _ _) (
      Does-bind _ (Does-execute _ _) (
        Does-bind _ (Does-execute_tokens _ _) (
          Does-bind _ (Does-execute _ _)
            (Does-bind _ (Does-collection x m.mint _ m.collection) (Does-creators m.mint _ _)))))

  pub block_tables :
      (t : AssetTables) → tables_of (block t) ≡ metadata_writes x m slot (tables_of t)
  unfolding write_data write_authority write_metadata_account write_collection write_creators
  block_tables t = refl
