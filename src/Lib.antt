-- ===== src/Lib.antt =====
-- PigTree scans a directory on Windows, and shows what takes its space. A scan worker writes a
-- stream of observations; the engine decodes it, builds a directory graph and answers queries; the
-- ends of a session talk in frames with a checksum; the command line turns the outcome into an
-- exit code.
--
-- The files and the code that they model, with paths from the repository's root:
--   Base: shared helpers, lists over the native numbers, results, byte order, maps, bits, texts.
--   Protocol/Crc32c: crates/pigtree-protocol/src/crc32c.rs, the table and `compute_crc32c`.
--   Protocol/Frame: crates/pigtree-protocol/src/frame.rs, `encode_frame`, `decode_frame`,
--     `read_frame` and `write_frame`.
--   Protocol/Observation: crates/pigtree-protocol/src/observation.rs; Write is
--     `ObservationWriter`, Read is `ObservationReader` with both stream versions, Status is
--     `ExternalReferenceStatus`.
--   Protocol/Protobuf, Protocol/Messages: the conversions of
--     crates/pigtree-protocol/src/protobuf.rs and messages of
--     crates/pigtree-protocol/proto/session.proto.
--   Protocol/Json: crates/pigtree-protocol/src/json.rs, all its formatters; Json/Value and
--     Json/Reader are JSON values and a reader of them, written from RFC 8259; Json/Time is
--     `format_utc_iso`, and Time/Calendar the rules of the calendar.
--   Protocol/Io, Protocol/Utf8: what the decoders use of the standard library: a stream of bytes
--     that ends or fails, and the test that bytes are UTF-8.
--   Engine/Builder, Engine/Ingest: `GraphBuilder` of crates/pigtree-engine/src/builder.rs, from
--     `new` to `ingest_record`, and `reconstruct_path`; Engine/Builder/Invariant has its invariant.
--   Engine/Load: the loop of `build_from_reader_with_progress` in the same file; Load/Lookup is about
--     the ids in the builder that it ends with.
--   Engine/Objects: the record of one file object in `compute_aggregates` of the same file.
--   Engine/Graph: crates/pigtree-engine/src/graph.rs, `EntryStorage::get`, `get_children_page`,
--     `entry` and `streams_for_entry`.
--   Ipc/Session: `FramedSession` of crates/pigtree-ipc/src/transport.rs.
--   Ipc/CommandLine: `quote_windows_arg` and `build_windows_command_line` of
--     crates/pigtree-ipc/src/process.rs; CommandLine/Argv has the rules by which a program splits its
--     command line.
--   Ipc/Validator: crates/pigtree-ipc/src/validator.rs, the classifications, `is_lexical_unc` and
--     `validate_scan_target`; Validator/Network says what a network path is.
--   Ipc/Pipe: `has_incoming_data` and `peek_frame_readiness` of crates/pigtree-ipc/src/pipe.rs.
--   Ipc/Security: the comparison of secrets, `is_broad_sid` and `build_pipe_sddl` of
--     crates/pigtree-ipc/src/security.rs; Security/Groups has the broad groups and their spellings.
--   Worker/Args: `parse_worker_args` of crates/pigtree-scan-worker/src/lib.rs; Args/Launch is the
--     command line that crates/pigtree-engine/src/runner.rs starts the worker with.
--   Worker/Entries: `parse_extd_entries` of crates/pigtree-scan-worker/src/lib.rs; Entries/Layout is
--     the documented layout of its buffers.
--   Worker/FindData: `find_data_to_facts` and `filetime_to_unix_ms` of the same file.
--   Cli: the exit code of crates/pigtree-cli/src/lib.rs.
--   Tests: runs and the theorems at concrete inputs.
--
-- Frames carry the messages of a session. The observation reader feeds the builder through the
-- loop of Engine/Load; the builder's entries and index become the storage that the queries read. The
-- engine starts the worker with a command line, the worker parses it; the engine peeks at a pipe
-- before it decodes a frame. What the engine answers is printed as JSON.
--
-- An unsigned integer is a natural number, with `% 2 ^ 32` where the code narrows a `usize`, and
-- with the range of its type as a hypothesis where a theorem needs it. A `String` and a byte slice
-- are lists of bytes. A `HashMap` is an association list, of which only lookups are used. A method
-- on `&mut self` returns its result and the state it leaves, in an error too. A read out of range,
-- where the code panics, is `none` in the queries of the graph, and a default value where an
-- earlier test or the invariant keeps the index in range.
--
-- The loop of Engine/Load runs on fuel, one unit for a record: more units than there are records
-- are enough for a stream that the writer made. The loop of
-- `reconstruct_path` runs on the limit of 10000 that the code has. The loop of `parse_extd_entries`
-- runs on a unit for each byte of the buffer and one more, which is enough on every buffer: a record
-- has 88 bytes or more. `trim` and the printing of a number run on the length and on the value. The
-- reader of JSON has four units for each byte. All other functions are structural.
--
-- What Windows, the file system and the clock answer is an argument: a record of functions in
-- Ipc/Validator, the result of the call in Ipc/Pipe. A text is ASCII or UTF-8 in bytes; from the
-- standard library `trim`, `parse::<usize>`, `from_utf16_lossy` and the printing of numbers are
-- written out. A handle is a number of 64 bits, an `i64` of a directory buffer its 64 bits.
--
-- Not modelled: the directory sums, the offline LCA, the order of children and `finish`; the
-- progress reports; the remaining queries of the graph; the traversal of the scan worker; the request
-- loops of the engine and the command line; everything else that calls Windows (handles of pipes,
-- processes, jobs and tokens, SHA-256) and the desktop application. The encoding of protobuf messages
-- is a parameter of Ipc/Session.
pub mod Base
pub mod Protocol
pub mod Engine
pub mod Ipc
pub mod Worker
pub mod Cli
mod Tests
