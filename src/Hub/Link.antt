-- ===== src/Hub/Link.antt =====
-- The state of the link, and what keeps it consistent.
pub mod Kept
pub mod OneRequest
pub mod Producers
