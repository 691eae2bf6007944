-- ===== src/Compaction.antt =====
-- Compaction of the pack catalog: src/worker/do/repo/catalog/compaction.
pub mod Plan
pub mod Lease
pub mod Commit
pub mod Cycle
pub mod Requests
mod Examples
