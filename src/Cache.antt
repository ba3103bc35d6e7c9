-- ===== src/Cache.antt =====
-- The disk cache (cache.go): what is deleted, when, and what the console is told of it. The
-- children have the policy, the sweep and their properties.
pub mod Plan
pub mod Candidates
pub mod Policy
pub mod Pressure
pub mod Account
pub mod Scan
pub mod Sweep
pub mod Run
pub mod Owned
pub mod Removed
pub mod Spared
pub mod Media
mod SweepTests
mod Tests
