-- ===== src/Tests/Records.antt =====
-- The observation stream at concrete inputs.
use pig_tree.Base.{ℕ, ◌≡◌, refl, List, [], ◌∷◌, ◌++◌, some, ok, arith, All}
use pig_tree.Protocol.Io.{eof}
use pig_tree.Protocol.Utf8.{is_utf8}
use pig_tree.Protocol.Observation.{file_record}
use pig_tree.Protocol.Observation.Write
use pig_tree.Protocol.Observation.Write.{◌>>◌}
use pig_tree.Protocol.Observation.Read
use pig_tree.Protocol.Observation.Read.{ObservationReader, read_record}
use pig_tree.Protocol.Observation.Parts.{IsShort}
use pig_tree.Protocol.Observation.RoundTrip.Records.{
  IsRecord, write_record, reader_at, read_record-write_record,
}
use pig_tree.Engine.Builder
use pig_tree.Engine.Load.{load, ingest_all}
use pig_tree.Engine.Load.Stream.{write_records, load-write_records}
use pig_tree.Tests.Data.{target, leaf, run}

target-IsShort : IsShort target
unfolding is_utf8
target-IsShort = record { fits = omega arith; utf8 = refl }

name-IsShort : IsShort leaf.name
unfolding is_utf8
name-IsShort = record { fits = omega arith; utf8 = refl }

run-IsRecord : All IsRecord run
run-IsRecord = (
  record {
    entry_id = omega arith;
    parent_id = omega arith;
    name = target-IsShort;
    file_attributes = omega arith;
    reparse_tag = omega arith;
    creation_time_utc_ms = omega arith;
    last_write_time_utc_ms = omega arith;
    last_access_time_utc_ms = omega arith;
    object_id = tt;
    allocated_size = omega arith;
    total_link_count = tt;
  },
  (
    record {
      entry_id = omega arith;
      parent_id = omega arith;
      name = name-IsShort;
      logical_size = omega arith;
      allocated_size = omega arith;
      file_attributes = omega arith;
      reparse_tag = omega arith;
      creation_time_utc_ms = omega arith;
      last_write_time_utc_ms = omega arith;
      last_access_time_utc_ms = omega arith;
      object_id = tt;
      total_link_count = omega arith;
    },
    (
      record {
        total_directories = omega arith;
        total_files = omega arith;
        total_logical_bytes = omega arith;
        total_allocated_bytes = omega arith;
        coverage_gap_count = omega arith;
        duration_ms = omega arith;
      },
      tt,
    ),
  ),
)

read_record-write_record_example :
    (bytes : List ℕ) × (write_record (file_record leaf) [] ≡ (ok tt, bytes))
    × (read_record (reader_at target (bytes ++ (5 ∷ [])) eof)
        ≡ ok (some (file_record leaf), reader_at target (5 ∷ []) eof))
read_record-write_record_example =
    read_record-write_record (file_record leaf) [] target (5 ∷ []) eof run-IsRecord.1.0

load-write_records_example :
    (bytes : List ℕ) × ((r : ObservationReader) × ((Write.new target >> write_records run) []
        ≡ (ok tt, bytes))
      × (Read.new (record { bytes = bytes; end = eof }) ≡ ok r)
      × (load 4 r (Builder.new r.target_path) ≡ some (ingest_all run (Builder.new target))))
load-write_records_example =
    load-write_records run target 4 target-IsShort run-IsRecord (omega arith)
