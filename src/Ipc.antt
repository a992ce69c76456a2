-- ===== src/Ipc.antt =====
-- The crate pigtree-ipc: the framed session, command lines, scan targets, pipes and their security.
pub mod Session
pub mod CommandLine
pub mod Validator
pub mod Pipe
pub mod Security
