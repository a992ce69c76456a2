-- ===== src/Protocol/Messages.antt =====
-- More messages of crates/pigtree-protocol/proto/session.proto: the responses of the engine and the
-- reports of a scan. A `string` field is a text, an unsigned integer a natural number, an enum the
-- number of its constant.
use pig_tree.Base.{ℕ, List, Bool, Option}
use pig_tree.Base.Text.{Text}
use pig_tree.Protocol.Protobuf.{LinkCountKnowledgeProto}

pub record PingResponse : Type 0 where
  pub timestamp_utc_ms : ℕ
  pub echo_timestamp_utc_ms : ℕ

pub record EchoResponse : Type 0 where
  pub payload : Text

pub record HealthResponse : Type 0 where
  pub status : Text
  pub uptime_ms : ℕ
  pub memory_private_bytes : ℕ
  pub handle_count : ℕ

pub record StatusResponse : Type 0 where
  pub state : Text
  pub active_runs : ℕ
  pub total_observations : ℕ
  pub session_id : Text

pub record VersionResponse : Type 0 where
  pub engine_version : Text
  pub protocol_version : ℕ
  pub build_date : Text
  pub commit_hash : Text
  pub capabilities : List Text

pub record HardLinkObjectReport : Type 0 where
  pub volume_guid : List ℕ
  pub file_id_hi : ℕ
  pub file_id_lo : ℕ
  pub observed_alias_count : ℕ
  pub total_link_count : Option LinkCountKnowledgeProto
  pub external_reference_status : ℕ
  pub entry_paths : List Text

pub record CoverageGapReport : Type 0 where
  pub display_path : Text
  pub status_code : Text
  pub native_error : ℕ
  pub error_message : Text

pub record ScanProgress : Type 0 where
  pub operation_id : Text
  pub sequence_number : ℕ
  pub timestamp_iso : Text
  pub observed_directories : ℕ
  pub observed_files : ℕ
  pub observed_logical_bytes : ℕ
  pub observed_referenced_allocated_bytes : ℕ
  pub coverage_gaps : ℕ
  pub current_phase : Text
  pub current_directory : Text

pub record ScanResponse : Type 0 where
  pub operation_id : Text
  pub target_path : Text
  pub run_outcome : ℕ
  pub observation_started_iso : Text
  pub observation_completed_iso : Text
  pub scope_coverage : ℕ
  pub directory_count : ℕ
  pub file_count : ℕ
  pub special_count : ℕ
  pub logical_bytes : ℕ
  pub allocated_bytes : ℕ
  pub allocated_bytes_known : Bool
  pub coverage_gaps : List CoverageGapReport
  pub duration_ms : ℕ
  pub referenced_allocated_bytes : ℕ
  pub unique_allocated_bytes : ℕ
  pub known_subtotal_allocated_bytes : ℕ
  pub indeterminate_external_reference_objects : ℕ
  pub hard_links : List HardLinkObjectReport
