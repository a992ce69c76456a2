-- ===== src/Engine/Ingest.antt =====
-- The ingestion of each kind of observation record, and of a whole stream of them, from
-- crates/pigtree-engine/src/builder.rs.
pub mod Identity
pub mod Invariant
pub mod Path
pub mod Storage
pub mod Terminal
use pig_tree.Base.{
  ℕ, zero, suc, ◌+◌, ◌-◌, ◌%◌, ◌^◌, Option, none, some, List, [], ◌∷◌, ◌++◌, Bool, true, false, not,
  ◌&&◌, ◌||◌, get_elem?, length, ltb, leb, ◌==◌, if◌then◌else◌, reverse, Result, ok, err,
}
use pig_tree.Base.Dict.{Dict, Eq, lookup, insert, nat_eq}
use pig_tree.Protocol.Observation.{
  ObjectIdentity, ValueKnowledge, not_observed, TerminalObservation, DirectoryObservation,
  FileObservation, SpecialObservation, StreamObservation, ObservationRecord, directory_record,
  file_record, special_record, stream_record, gap_record, terminal_record,
}
use pig_tree.Engine.Graph.{no_object, EntryKind, directory, file, CompactEntry}
use pig_tree.Engine.Builder.{
  GraphBuildError, unknown_stream_parent, record_after_terminal, aggregate_mismatch,
  total_directories, total_files, total_logical_bytes, total_allocated_bytes, coverage_gap_count,
  as_u32, saturating_add, unwrap_or_zero, GraphBuilder, Build, validate_and_insert_entry,
}
use Identity.{identity_eq}

-- `self.validate_and_insert_entry(..)?` and what follows it.
abbrev pub then_update :
    Result GraphBuildError (Unit {0}) × GraphBuilder
    → (GraphBuilder → GraphBuilder)
    → Result GraphBuildError (Unit {0}) × GraphBuilder
then_update (ok _, b) f = (ok tt, f b)
then_update (err e, b) f = (err e, b)

abbrev pub directory_entry : DirectoryObservation → CompactEntry
directory_entry dir = record {
  id = dir.entry_id;
  parent_id = dir.parent_id;
  name = dir.name;
  kind = directory;
  allocated_size_known = true;
  logical_size = none;
  allocated_size = dir.allocated_size;
  referenced_allocated_bytes = unwrap_or_zero dir.allocated_size;
  unique_allocated_bytes = unwrap_or_zero dir.allocated_size;
  known_subtotal_allocated_bytes = unwrap_or_zero dir.allocated_size;
  object_index = no_object;
  file_attributes = dir.file_attributes;
  reparse_tag = dir.reparse_tag;
  child_start = 0;
  child_count = 0;
  creation_time_utc_ms = dir.creation_time_utc_ms;
  last_write_time_utc_ms = dir.last_write_time_utc_ms;
  last_access_time_utc_ms = dir.last_access_time_utc_ms;
}

abbrev pub is_known : Option ℕ → Bool
is_known none = false
is_known (some _) = true

abbrev pub file_entry : FileObservation → CompactEntry
file_entry f = record {
  id = f.entry_id;
  parent_id = f.parent_id;
  name = f.name;
  kind = file;
  allocated_size_known = is_known f.allocated_size;
  logical_size = some f.logical_size;
  allocated_size = f.allocated_size;
  referenced_allocated_bytes = unwrap_or_zero f.allocated_size;
  unique_allocated_bytes = unwrap_or_zero f.allocated_size;
  known_subtotal_allocated_bytes = unwrap_or_zero f.allocated_size;
  object_index = no_object;
  file_attributes = f.file_attributes;
  reparse_tag = f.reparse_tag;
  child_start = 0;
  child_count = 0;
  creation_time_utc_ms = f.creation_time_utc_ms;
  last_write_time_utc_ms = f.last_write_time_utc_ms;
  last_access_time_utc_ms = f.last_access_time_utc_ms;
}

abbrev pub special_entry : SpecialObservation → CompactEntry
special_entry special = record {
  id = special.entry_id;
  parent_id = special.parent_id;
  name = special.name;
  kind = EntryKind.special;
  allocated_size_known = false;
  logical_size = none;
  allocated_size = none;
  referenced_allocated_bytes = 0;
  unique_allocated_bytes = 0;
  known_subtotal_allocated_bytes = 0;
  object_index = no_object;
  file_attributes = special.file_attributes;
  reparse_tag = special.reparse_tag;
  child_start = 0;
  child_count = 0;
  creation_time_utc_ms = special.creation_time_utc_ms;
  last_write_time_utc_ms = special.last_write_time_utc_ms;
  last_access_time_utc_ms = special.last_access_time_utc_ms;
}

abbrev pub count_directory : DirectoryObservation → GraphBuilder → GraphBuilder
count_directory dir b = record b {
  dir_object_ids = elim dir.object_id [
    | none ↦ b.dir_object_ids
    | some oid ↦ insert dir.entry_id oid b.dir_object_ids
  ];
  dir_count = b.dir_count + 1;
  allocated_bytes = elim dir.allocated_size [
    | none ↦ b.allocated_bytes
    | some alloc ↦ saturating_add b.allocated_bytes alloc
  ];
}

unfoldable pub ingest_directory : DirectoryObservation → Build
ingest_directory dir b =
    then_update
      (validate_and_insert_entry dir.entry_id dir.parent_id (directory_entry dir)
        (unwrap_or_zero dir.allocated_size) b)
      (count_directory dir)

-- `map.entry(oid).or_default().push(id)`.
abbrev pub push_at :
    ObjectIdentity → ℕ → Dict ObjectIdentity (List ℕ) → Dict ObjectIdentity (List ℕ)
push_at oid id m =
    insert oid (elim (lookup oid m) [ none ↦ id ∷ [] | some ids ↦ ids ++ (id ∷ []) ]) m

abbrev pub count_file : FileObservation → GraphBuilder → GraphBuilder
count_file f b = record b {
  file_object_map = elim f.object_id [
    | none ↦ b.file_object_map
    | some oid ↦ push_at oid f.entry_id b.file_object_map
  ];
  file_link_counts = elim f.total_link_count [
    | not_observed ↦ b.file_link_counts
    | _ ↦ insert f.entry_id f.total_link_count b.file_link_counts
  ];
  file_count = b.file_count + 1;
  logical_bytes = saturating_add b.logical_bytes f.logical_size;
  allocated_bytes = elim f.allocated_size [
    | none ↦ b.allocated_bytes
    | some alloc ↦ saturating_add b.allocated_bytes alloc
  ];
  allocated_bytes_known = elim f.allocated_size [
    | none ↦ false
    | some alloc ↦ b.allocated_bytes_known
  ];
}

unfoldable pub ingest_file : FileObservation → Build
ingest_file f b =
    then_update (validate_and_insert_entry f.entry_id f.parent_id (file_entry f) 0 b) (count_file f)

unfoldable pub ingest_special : SpecialObservation → Build
ingest_special special b =
    then_update
      (validate_and_insert_entry special.entry_id special.parent_id (special_entry special) 0 b)
      (λ c. record c { special_count = c.special_count + 1 })

unfoldable pub storage_get_idx : ℕ → GraphBuilder → Option ℕ
storage_get_idx id b =
    if b.is_dense
    then (if id == 0 || ltb (length b.entries) id then none else some (id - 1))
    else lookup id b.id_to_idx

-- The stream waits, with the place of its parent, for the end of the ingestion.
abbrev pub pend_stream : Option ℕ → StreamObservation → Build
pend_stream none stream b = (err (unknown_stream_parent stream.parent_entry_id), b)
pend_stream (some entry_idx) stream b = (
  ok tt,
  record b {
    pending_streams =
        b.pending_streams
        ++ ((
          entry_idx,
          record {
            name = stream.name;
            logical_bytes = stream.logical_size;
            allocated_bytes = stream.allocated_size;
          },
        )
            ∷ []);
  },
)

unfoldable pub ingest_stream : StreamObservation → Build
ingest_stream stream b = pend_stream (storage_get_idx stream.parent_entry_id b) stream b

unfoldable pub ingest_terminal : TerminalObservation → Build
ingest_terminal term b =
    if not (term.total_directories == b.dir_count)
    then (err (aggregate_mismatch total_directories term.total_directories b.dir_count), b)
    else if not (term.total_files == b.file_count)
    then (err (aggregate_mismatch total_files term.total_files b.file_count), b)
    else if not (term.total_logical_bytes == b.logical_bytes)
    then (err (aggregate_mismatch total_logical_bytes term.total_logical_bytes b.logical_bytes), b)
    else if not (term.total_allocated_bytes == b.allocated_bytes)
    then (
      err (aggregate_mismatch total_allocated_bytes term.total_allocated_bytes b.allocated_bytes),
      b,
    )
    else if not (term.coverage_gap_count == as_u32 (length b.gaps))
    then (err (aggregate_mismatch coverage_gap_count term.coverage_gap_count (length b.gaps)), b)
    else (ok tt, record b { terminal = some term })

abbrev pub dispatch : ObservationRecord → Build
dispatch (directory_record dir) b =
    ingest_directory dir
      (record b { current_dir_id = if dir.parent_id == 0 then dir.entry_id else dir.parent_id })
dispatch (file_record f) b = ingest_file f (record b { current_dir_id = f.parent_id })
dispatch (special_record special) b =
    ingest_special special (record b { current_dir_id = special.parent_id })
dispatch (stream_record stream) b = ingest_stream stream b
dispatch (gap_record gap) b = (ok tt, record b { gaps = b.gaps ++ (gap ∷ []) })
dispatch (terminal_record term) b = ingest_terminal term b

unfoldable pub ingest_record : ObservationRecord → Build
ingest_record rec b = elim b.terminal [
  | none ↦ dispatch rec b
  | some _ ↦ (err record_after_terminal, b)
]
