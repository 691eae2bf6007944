-- ===== src/Gc/Operation.antt =====
-- do/repo/catalog/gcOperation.ts: an operation is registered, claimed by one worker at a time, and
-- woken by the alarm. Each function is one storage transaction, with the time `now`.
mod Register
mod Claim
mod Wake
unfoldable pub use Register.*
unfoldable pub use Claim.*
unfoldable pub use Wake.*
