-- ===== src/Gc.antt =====
-- Garbage collection of a repository's packs: src/worker/do/repo/catalog/gcOperation.ts,
-- gcPublication.ts and the first part of reachabilityGc.ts.
pub mod Operation
pub mod Progress
pub mod Publication
pub mod Request
pub mod Invariant
pub mod Protection
pub mod Change
pub mod Steps
pub mod Lifecycle
pub mod Diagram
pub mod Merged
pub mod Kept
pub mod Committed
pub mod Retained
pub mod Completes
pub mod Fencing
pub mod Expiry
pub mod Discard
pub mod Accounts
mod Examples
