-- ===== src/Api.antt =====
-- The read API: how das_api/src/api/api_impl.rs checks the options of a page, and how
-- digital_asset_types/src/dapi and dao/scopes/asset.rs turn them into a query.
pub mod Options
pub mod Page
pub mod Proof
