-- ===== src/Protocol.antt =====
-- The crate pigtree-protocol: checksums, frames, the observation stream and JSON texts.
pub mod Io
pub mod Utf8
pub mod Crc32c
pub mod Frame
pub mod Observation
pub mod Protobuf
pub mod Messages
pub mod Json
