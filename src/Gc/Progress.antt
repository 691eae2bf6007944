-- ===== src/Gc/Progress.antt =====
-- do/repo/catalog/gcOperation.ts: `recordGcProgress`, by which a worker reports how far it is.
mod Kinds
mod Work
mod Store
unfoldable pub use Kinds.*
unfoldable pub use Work.*
unfoldable pub use Store.*
