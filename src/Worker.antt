-- ===== src/Worker.antt =====
-- The crate pigtree-scan-worker: its arguments, and what it reads of a directory.
pub mod Args
pub mod Entries
pub mod FindData
