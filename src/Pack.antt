-- ===== src/Pack.antt =====
-- Pack files: the headers of their entries.
pub mod Bits
pub mod Header
mod Examples
