-- ===== src/Engine.antt =====
-- The crate pigtree-engine: the directory graph and its builder.
pub mod Graph
pub mod Builder
pub mod Ingest
pub mod Objects
pub mod Load
