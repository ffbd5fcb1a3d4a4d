-- ===== src/Bubblegum.antt =====
-- The Bubblegum transformer (program_transformers/src/bubblegum): the events that it is given, the
-- upserts of db.rs, the change log, and one handler for each kind of instruction.
pub mod Event
pub mod Instruction
pub mod ChangeLog
pub mod Writes
pub mod Upserts
pub mod Handlers
pub mod Metadata
pub mod Dispatch
pub mod Effects
pub mod Convergence
