-- ===== src/Gc/Publication.antt =====
-- do/repo/catalog/gcPublication.ts: the transaction that publishes a collection. Receives may have
-- come in since its snapshot; their refs are left alone and their packs stay in the catalog.
mod Parts
mod Chosen
mod Commit
unfoldable pub use Parts.*
unfoldable pub use Chosen.*
unfoldable pub use Commit.*
