-- ===== src/Protocol/Json/RoundTrip.antt =====
-- The reader of JSON reads back what the program renders.
pub mod Strings
pub mod Numbers
pub mod Values
pub mod Texts
pub mod Shapes
pub mod Responses
pub mod Entries
pub mod Arrays
pub mod Scans
pub mod Lines
