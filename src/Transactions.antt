-- ===== src/Transactions.antt =====
-- The instructions of a transaction: their order, and what handles each.
pub mod Order
pub mod Handle
