-- ===== src/Db.antt =====
-- The database as the program uses it: keyed tables with upserts, the rows of
-- digital_asset_types/src/dao/generated, and statements that may fail, inside transactions.
pub mod Json
pub mod Table
pub mod Tokens
pub mod Versioned
pub mod Schema
pub mod Trigger
pub mod Session
