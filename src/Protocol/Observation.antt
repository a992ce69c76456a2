-- ===== src/Protocol/Observation.antt =====
-- The records that the scan worker sends to the engine, from
-- crates/pigtree-protocol/src/observation.rs. Integers are numbers, a `[u8; 16]` is a list of
-- sixteen, a `String` the list of its bytes.
pub mod Status
pub mod Write
pub mod Read
pub mod Parts
pub mod RoundTrip
use pig_tree.Base.{ℕ, Option, none, some, List, [], ◌∷◌, Bool, true, false, Result, ok, err}
use pig_tree.Base.{◌==◌, if◌then◌else◌}
use pig_tree.Protocol.Io.{ErrorKind, unexpected_eof}

abbrev pub worker_magic : List ℕ
worker_magic = 0x50 ∷ 0x54 ∷ 0x57 ∷ 0x4F ∷ []

abbrev pub worker_stream_version_v1 : ℕ
worker_stream_version_v1 = 0x0001

abbrev pub worker_stream_version_v2 : ℕ
worker_stream_version_v2 = 0x0002

abbrev pub worker_stream_version : ℕ
worker_stream_version = worker_stream_version_v2

pub record ObjectIdentity : Type 0 where
  pub volume_guid : List ℕ
  pub file_id : ℕ

pub data ValueKnowledge (A : Type 0) : Type 0 where
  known : A → ValueKnowledge A
  not_observed unavailable not_applicable : ValueKnowledge A

pub data ExternalReferenceStatus : Type 0 where
  confirmed_none confirmed_external indeterminate : ExternalReferenceStatus
  inconsistent_evidence not_applicable : ExternalReferenceStatus

pub data RecordTag : Type 0 where
  directory file special_object coverage_gap terminal content_stream : RecordTag

pub data RunOutcome : Type 0 where
  finished cancelled failed : RunOutcome

pub record DirectoryObservation : Type 0 where
  pub entry_id : ℕ
  pub parent_id : ℕ
  pub name : List ℕ
  pub file_attributes : ℕ
  pub reparse_tag : ℕ
  pub creation_time_utc_ms : ℕ
  pub last_write_time_utc_ms : ℕ
  pub last_access_time_utc_ms : ℕ
  pub object_id : Option ObjectIdentity
  pub allocated_size : Option ℕ
  pub total_link_count : ValueKnowledge ℕ

pub record FileObservation : Type 0 where
  pub entry_id : ℕ
  pub parent_id : ℕ
  pub name : List ℕ
  pub logical_size : ℕ
  pub allocated_size : Option ℕ
  pub file_attributes : ℕ
  pub reparse_tag : ℕ
  pub creation_time_utc_ms : ℕ
  pub last_write_time_utc_ms : ℕ
  pub last_access_time_utc_ms : ℕ
  pub object_id : Option ObjectIdentity
  pub total_link_count : ValueKnowledge ℕ

pub record SpecialObservation : Type 0 where
  pub entry_id : ℕ
  pub parent_id : ℕ
  pub name : List ℕ
  pub file_attributes : ℕ
  pub reparse_tag : ℕ
  pub creation_time_utc_ms : ℕ
  pub last_write_time_utc_ms : ℕ
  pub last_access_time_utc_ms : ℕ
  pub object_id : Option ObjectIdentity

pub record CoverageGapObservation : Type 0 where
  pub path : List ℕ
  pub error_code : ℕ
  pub error_message : List ℕ

pub record StreamObservation : Type 0 where
  pub parent_entry_id : ℕ
  pub name : List ℕ
  pub logical_size : ℕ
  pub allocated_size : Option ℕ

pub record TerminalObservation : Type 0 where
  pub outcome : RunOutcome
  pub total_directories : ℕ
  pub total_files : ℕ
  pub total_logical_bytes : ℕ
  pub total_allocated_bytes : ℕ
  pub coverage_gap_count : ℕ
  pub duration_ms : ℕ

pub data ObservationRecord : Type 0 where
  directory_record : DirectoryObservation → ObservationRecord
  file_record : FileObservation → ObservationRecord
  special_record : SpecialObservation → ObservationRecord
  stream_record : StreamObservation → ObservationRecord
  gap_record : CoverageGapObservation → ObservationRecord
  terminal_record : TerminalObservation → ObservationRecord

pub data ObservationDecodeError : Type 0 where
  premature_eof invalid_utf8 : ObservationDecodeError
  invalid_magic : List ℕ → ObservationDecodeError
  unsupported_version invalid_record_tag invalid_outcome : ℕ → ObservationDecodeError
  invalid_value_knowledge_tag invalid_boolean_tag invalid_external_status :
      ℕ → ObservationDecodeError
  io : ErrorKind → ObservationDecodeError

-- `From<io::Error>`.
abbrev pub from_io_error : {A : Type 0} → Result ErrorKind A → Result ObservationDecodeError A
from_io_error (ok a) = ok a
from_io_error (err unexpected_eof) = err premature_eof
from_io_error (err e) = err (io e)

-- `tag as u8`.
abbrev pub record_tag_byte : RecordTag → ℕ
record_tag_byte directory = 0x01
record_tag_byte file = 0x02
record_tag_byte special_object = 0x03
record_tag_byte coverage_gap = 0x04
record_tag_byte terminal = 0x05
record_tag_byte content_stream = 0x06

-- `RecordTag::from_u8`.
unfoldable pub record_tag_from_u8 : ℕ → Result ObservationDecodeError RecordTag
record_tag_from_u8 val =
    if val == 0x01
    then ok directory
    else if val == 0x02
    then ok file
    else if val == 0x03
    then ok special_object
    else if val == 0x04
    then ok coverage_gap
    else if val == 0x05
    then ok terminal
    else if val == 0x06
    then ok content_stream
    else err (invalid_record_tag val)

-- `outcome as u8`.
abbrev pub outcome_byte : RunOutcome → ℕ
outcome_byte finished = 0
outcome_byte cancelled = 1
outcome_byte failed = 2

-- `RunOutcome::from_u8`.
unfoldable pub outcome_from_u8 : ℕ → Result ObservationDecodeError RunOutcome
outcome_from_u8 val =
    if val == 0
    then ok finished
    else if val == 1
    then ok cancelled
    else if val == 2
    then ok failed
    else err (invalid_outcome val)
