-- ===== src/Bubblegum/Convergence.antt =====
-- Events may be handled late, out of order and more than once (a tree is backfilled while new
-- changes arrive). These modules show which rows do not depend on that.
pub mod Rows
pub mod Settled
pub mod Data
pub mod Grouping
