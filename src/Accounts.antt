-- ===== src/Accounts.antt =====
-- The account handlers of program_transformers: what updates of token accounts, mints, metadata
-- accounts, editions and inscriptions write.
pub mod Upserts
pub mod Json
pub mod Slots
pub mod Token
pub mod Attachments
pub mod Retry
pub mod Metadata
pub mod Extensions
pub mod Close
pub mod Core
pub mod Dispatch
