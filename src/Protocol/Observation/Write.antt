-- ===== src/Protocol/Observation/Write.antt =====
-- `ObservationWriter` of crates/pigtree-protocol/src/observation.rs over an in-memory buffer, whose
-- writes do not fail: an action takes the bytes written so far to its result and the bytes then.
use pig_tree.Base.{
  ℕ, List, [], ◌∷◌, ◌++◌, Option, none, some, Result, ok, err, length, ltb, if◌then◌else◌,
}
use pig_tree.Base.Bytes.{to_le_bytes}
use pig_tree.Protocol.Io.{ErrorKind, invalid_input}
use pig_tree.Protocol.Observation.{
  worker_magic, worker_stream_version, ObjectIdentity, ValueKnowledge, known, not_observed,
  unavailable, directory, file, special_object, coverage_gap, terminal, content_stream,
  DirectoryObservation, FileObservation, SpecialObservation, CoverageGapObservation,
  StreamObservation, TerminalObservation, record_tag_byte, outcome_byte,
}

abbrev pub Write : Type 0
Write = List ℕ → Result ErrorKind (Unit {0}) × List ℕ

abbrev pub continue : Result ErrorKind (Unit {0}) → Write → Write
continue (ok _) k out = k out
continue (err e) k out = (err e, out)

infixl 5 ◌>>◌
abbrev pub ◌>>◌ : Write → Write → Write
◌>>◌ m k out = continue (m out).0 k (m out).1

abbrev pub write_all : List ℕ → Write
write_all bytes out = (ok tt, out ++ bytes)

unfoldable pub write_u16_str : List ℕ → Write
write_u16_str s out =
    if ltb 0xffff (length s)
    then (err invalid_input, out)
    else (do write_all (to_le_bytes 2 (length s)); write_all s) out

unfoldable pub write_object_identity : Option ObjectIdentity → Write
write_object_identity (some id) = do
  write_all (1 ∷ [])
  write_all id.volume_guid
  write_all (to_le_bytes 16 id.file_id)
write_object_identity none = write_all (0 ∷ [])

unfoldable pub write_link_knowledge : ValueKnowledge ℕ → Write
write_link_knowledge not_observed = do write_all (0 ∷ []); write_all (to_le_bytes 4 0)
write_link_knowledge (known count) = do write_all (1 ∷ []); write_all (to_le_bytes 4 count)
write_link_knowledge unavailable = do write_all (2 ∷ []); write_all (to_le_bytes 4 0)
write_link_knowledge ValueKnowledge.not_applicable = do
  write_all (3 ∷ [])
  write_all (to_le_bytes 4 0)

-- The `match` on an allocated size in `write_directory` and `write_file`.
unfoldable pub write_allocated : Option ℕ → Write
write_allocated (some alloc) = do write_all (1 ∷ []); write_all (to_le_bytes 8 alloc)
write_allocated none = do write_all (0 ∷ []); write_all (to_le_bytes 8 0)

-- The `match` in `write_stream`.
unfoldable pub write_stream_allocated : Option ℕ → Write
write_stream_allocated (some alloc) = do write_all (1 ∷ []); write_all (to_le_bytes 8 alloc)
write_stream_allocated none = write_all (0 ∷ [])

-- `ObservationWriter::new`.
unfoldable pub new : List ℕ → Write
new target_path = do
  write_all worker_magic
  write_all (to_le_bytes 2 worker_stream_version)
  write_u16_str target_path

unfoldable pub write_directory : DirectoryObservation → Write
write_directory dir = do
  write_all (record_tag_byte directory ∷ [])
  write_all (to_le_bytes 4 dir.entry_id)
  write_all (to_le_bytes 4 dir.parent_id)
  write_all (to_le_bytes 4 dir.file_attributes)
  write_all (to_le_bytes 4 dir.reparse_tag)
  write_all (to_le_bytes 8 dir.creation_time_utc_ms)
  write_all (to_le_bytes 8 dir.last_write_time_utc_ms)
  write_all (to_le_bytes 8 dir.last_access_time_utc_ms)
  write_allocated dir.allocated_size
  write_object_identity dir.object_id
  write_link_knowledge dir.total_link_count
  write_u16_str dir.name

unfoldable pub write_file : FileObservation → Write
write_file f = do
  write_all (record_tag_byte file ∷ [])
  write_all (to_le_bytes 4 f.entry_id)
  write_all (to_le_bytes 4 f.parent_id)
  write_all (to_le_bytes 8 f.logical_size)
  write_allocated f.allocated_size
  write_all (to_le_bytes 4 f.file_attributes)
  write_all (to_le_bytes 4 f.reparse_tag)
  write_all (to_le_bytes 8 f.creation_time_utc_ms)
  write_all (to_le_bytes 8 f.last_write_time_utc_ms)
  write_all (to_le_bytes 8 f.last_access_time_utc_ms)
  write_object_identity f.object_id
  write_link_knowledge f.total_link_count
  write_u16_str f.name

unfoldable pub write_special : SpecialObservation → Write
write_special special = do
  write_all (record_tag_byte special_object ∷ [])
  write_all (to_le_bytes 4 special.entry_id)
  write_all (to_le_bytes 4 special.parent_id)
  write_all (to_le_bytes 4 special.file_attributes)
  write_all (to_le_bytes 4 special.reparse_tag)
  write_all (to_le_bytes 8 special.creation_time_utc_ms)
  write_all (to_le_bytes 8 special.last_write_time_utc_ms)
  write_all (to_le_bytes 8 special.last_access_time_utc_ms)
  write_object_identity special.object_id
  write_u16_str special.name

unfoldable pub write_stream : StreamObservation → Write
write_stream stream = do
  write_all (record_tag_byte content_stream ∷ [])
  write_all (to_le_bytes 4 stream.parent_entry_id)
  write_all (to_le_bytes 8 stream.logical_size)
  write_stream_allocated stream.allocated_size
  write_u16_str stream.name

unfoldable pub write_coverage_gap : CoverageGapObservation → Write
write_coverage_gap gap = do
  write_all (record_tag_byte coverage_gap ∷ [])
  write_all (to_le_bytes 4 gap.error_code)
  write_u16_str gap.path
  write_u16_str gap.error_message

unfoldable pub write_terminal : TerminalObservation → Write
write_terminal term = do
  write_all (record_tag_byte terminal ∷ [])
  write_all (outcome_byte term.outcome ∷ [])
  write_all (to_le_bytes 8 term.total_directories)
  write_all (to_le_bytes 8 term.total_files)
  write_all (to_le_bytes 8 term.total_logical_bytes)
  write_all (to_le_bytes 8 term.total_allocated_bytes)
  write_all (to_le_bytes 4 term.coverage_gap_count)
  write_all (to_le_bytes 8 term.duration_ms)
