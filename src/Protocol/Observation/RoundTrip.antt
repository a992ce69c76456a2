-- ===== src/Protocol/Observation/RoundTrip.antt =====
-- Each record of a stream of version 2, written and read back.
pub mod Files
pub mod Directories
pub mod Marks
pub mod Records
