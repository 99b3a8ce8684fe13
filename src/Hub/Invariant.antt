-- ===== src/Hub/Invariant.antt =====
-- Invariants of the hub as a whole.
pub mod Replies
pub mod Producers
pub mod Passes
pub mod Queue
