-- ===== src/Lib.antt =====
-- The digital asset RPC infrastructure, as far as it is modelled: how Bubblegum events (compressed
-- NFTs) become rows, how lost ones are looked for, how updates of accounts (mints, token accounts,
-- metadata, Core assets) become rows, how the API pages through rows, and how it proves that a leaf is
-- in its tree.
--
-- The ingester parses a transaction (blockbuster), hands each Bubblegum instruction to
-- `handle_bubblegum_instruction` (program_transformers/src/bubblegum/mod.rs), and that calls one
-- handler. A handler first saves the change log of the tree (`save_changelog_event` of db.rs): the
-- nodes of the path go to `cl_items`, an audit row to `cl_audits_v2`, and a row of `backfill_items`
-- asks for the tree to be checked for gaps. Then it opens a transaction and writes the asset tables
-- with the upserts of db.rs, each guarded by a sequence number in its WHERE clause.
--
-- An account that changed goes to `handle_account_update` (program_transformers/src/lib.rs), which
-- picks the handler of the program that owns it. Those write `tokens`, `token_accounts` and the
-- attachments, and through the upserts of asset_upserts.rs the columns of `asset` that come from a
-- mint, from a token account and from metadata, each group guarded by the slot of its last write.
--
--   Base            numbers, integers (`as i64` and `as i16` wrap), text, lists, reordering of steps
--   Db/Json         values of JSON columns
--   Db/Table        a table with a unique key and INSERT .. ON CONFLICT
--   Db/Versioned    the WHERE clauses on sequence numbers
--   Db/Schema       digital_asset_types/src/dao/generated
--   Db/Trigger      migration/src/m20240124_181900_add_slot_updated_column_per_update_type.rs: the
--                   trigger that computes `slot_updated` before each UPDATE of a row of `asset`
--   Db/Tokens       the rows of tokens, token accounts and attachments there
--   Db/Session      statements, transactions, faults of the database (program_transformers/src/error.rs
--                   for the errors); Db/Session/Rules, Monotone and Inversion follow blocks
--   Bubblegum/Event blockbuster/src/programs/bubblegum/mod.rs, and the leaf fields of bubblegum/mod.rs
--   Bubblegum/Instruction  digital_asset_types/src/dao/extensions/instruction.rs, and `ix_str`
--   Bubblegum/ChangeLog    `save_changelog_event` and `insert_change_log` of db.rs
--   Bubblegum/Writes, Upserts  the statements of db.rs on the asset tables, and that of burn.rs
--   Bubblegum/Handlers     transfer.rs, delegate.rs, burn.rs, redeem.rs, cancel_redeem.rs,
--                          creator_verification.rs and collection_verification.rs
--   Bubblegum/Metadata     mint.rs and update_metadata.rs
--   Bubblegum/Dispatch     `handle_bubblegum_instruction`
--   Bubblegum/Effects      the specification: the writes of an instruction as a list
--   Bubblegum/Convergence  what reordered and repeated writes leave: Rows of a row of `asset` that is
--                          there, Settled of any, but for the column that the trigger computes
--   Accounts/Upserts       program_transformers/src/asset_upserts.rs
--   Accounts/Token         token/mod.rs there; Owner, Lost and Order are about it
--   Accounts/Extensions    token_extensions/mod.rs there, and
--                          blockbuster/src/programs/token_extensions/mod.rs
--   Accounts/Attachments   token_metadata/master_edition.rs, token_inscription/mod.rs
--   Accounts/Metadata      token_metadata/mod.rs and v1_asset.rs; Class, Statements: parts of it;
--                          Rows, Whole and Holder are about it
--   Accounts/Core          mpl_core_program/mod.rs and v1_asset.rs; Columns: the rows an asset has,
--                          Plugins: the JSON of plugins, Members: the update of a collection's
--                          members
--   Accounts/Json, Retry, Close, Dispatch  `filter_non_null_fields`, `find_model_with_retry`,
--                          `handle_token_program_close_ix` and `handle_account_update` of lib.rs
--   Accounts/Slots         that no handler of accounts moves a slot back
--   Transactions/Order     blockbuster/src/instruction.rs; Known is about it
--   Transactions/Handle    `handle_transaction` of program_transformers/src/lib.rs; Refines is about it
--   Api/Options     das_api/src/api/api_impl.rs and validation.rs, and the types of
--                   digital_asset_types/src/dao/mod.rs and src/rpc/filter.rs
--   Api/Page        digital_asset_types/src/dapi/common/asset.rs (`create_pagination`) and
--                   src/dao/scopes/asset.rs (`paginate`), and what a database answers to the clauses
--   Api/Proof       digital_asset_types/src/dapi/change_logs.rs
--   TreeGaps        ops/src/bubblegum/tree.rs: the gaps that the query finds, and `crawl`
--   Scenarios       concrete events and sessions
--
-- A function of the program has its name here; a block in it that has no name of its own is named for
-- what it does. A session holds the three parts of the database (the asset tables, the tables of
-- trees and those of tokens) and the list of outcomes that the database will give, one for each statement, BEGIN and
-- COMMIT: theorems about every session are about every fault. A 32-byte key or hash is the number that
-- its bytes spell. The base-58 codec, program addresses, flag bits, the serde forms of two enumerations
-- and the notifier are fields of `Externals`, of which nothing is assumed. Loops are structural
-- recursion on lists; `get_required_nodes_for_proof` runs on fuel, 64, since an index is an `i64`,
-- and `crawl` on fuel for its requests, whose number has no bound.
-- A session has no other writer: a retry of `find_model_with_retry` finds what the first query finds.
-- The pages of a collection's members are read on fuel, a round for each row of `asset_grouping` and
-- one more; out of fuel, it fails with an error that the program does not have. What other crates make of plugins, editions and keys are parameters of Accounts.
-- The hash function of a tree and the order of bytes in the database are parameters of Api.
--
-- Not modelled: the parsers of instructions and accounts (parameters here), the rest of the API's
-- queries and its JSON-RPC server, the ingester's streams and tasks, migrations (but for the
-- trigger) and tools; of
-- the modelled handlers the logs, the columns that only the database fills, and errors of serde_json.
-- A tree's depth is below 63, so that the arithmetic on node indices does not overflow.
pub mod Base
pub mod Db
pub mod Bubblegum
pub mod Accounts
pub mod Api
pub mod TreeGaps
pub mod Scenarios
pub mod Transactions
