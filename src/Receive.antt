-- ===== src/Receive.antt =====
-- Receives: src/worker/do/repo/catalog/receive.ts.
pub mod Finalize
pub mod Publication
pub mod Outcomes
pub mod Leases
pub mod Fence
pub mod Request
pub mod Reconcile
mod Examples
