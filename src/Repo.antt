-- ===== src/Repo.antt =====
-- The durable state of one repository (src/worker/do/repo) and the helpers that its operations
-- share: the catalog table, leases, the schedule of compaction and the alarm.
pub mod State
pub mod Catalog
pub mod Shared
pub mod Activity
pub mod Scheduler
mod Examples
