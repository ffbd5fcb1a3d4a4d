-- ===== src/Scenarios.antt =====
-- Concrete events and sessions, on which the theorems of Bubblegum are applied.
pub mod Transfers
pub mod Nft
mod Accounts
mod Transactions
mod Members
pub mod Orders
pub mod Paging
pub mod Proofs
pub mod Gaps
