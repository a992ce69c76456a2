-- ===== src/Tests/Data.antt =====
-- Inputs that several tests share: a root directory with one file, and their records.
use pig_tree.Base.{ℕ, none, some, List, [], ◌∷◌}
use pig_tree.Protocol.Observation.{
  DirectoryObservation, FileObservation, TerminalObservation, ObservationRecord, directory_record,
  file_record, terminal_record, finished, known, not_observed,
}
use pig_tree.Engine.Builder.{GraphBuilder, new}
use pig_tree.Engine.Ingest.{ingest_record}

abbrev pub target : List ℕ
target = 67 ∷ 58 ∷ []

abbrev pub root : DirectoryObservation
root = record {
  entry_id = 1;
  parent_id = 0;
  name = target;
  file_attributes = 16;
  reparse_tag = 0;
  creation_time_utc_ms = 5;
  last_write_time_utc_ms = 6;
  last_access_time_utc_ms = 7;
  object_id = none;
  allocated_size = some 4096;
  total_link_count = not_observed;
}

abbrev pub leaf : FileObservation
leaf = record {
  entry_id = 2;
  parent_id = 1;
  name = 97 ∷ [];
  logical_size = 10;
  allocated_size = some 512;
  file_attributes = 32;
  reparse_tag = 0;
  creation_time_utc_ms = 5;
  last_write_time_utc_ms = 6;
  last_access_time_utc_ms = 7;
  object_id = none;
  total_link_count = known 2;
}

abbrev pub totals : TerminalObservation
totals = record {
  outcome = finished;
  total_directories = 1;
  total_files = 1;
  total_logical_bytes = 10;
  total_allocated_bytes = 4608;
  coverage_gap_count = 0;
  duration_ms = 3;
}

abbrev pub run : List ObservationRecord
run = directory_record root ∷ file_record leaf ∷ terminal_record totals ∷ []

-- The builder behind the root, and behind the file.
abbrev pub with_root : GraphBuilder
with_root = (ingest_record (directory_record root) (new target)).1

abbrev pub with_leaf : GraphBuilder
with_leaf = (ingest_record (file_record leaf) with_root).1
