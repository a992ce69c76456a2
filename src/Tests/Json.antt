-- ===== src/Tests/Json.antt =====
-- The JSON texts at concrete inputs.
use pig_tree.Base.{◌+◌, ◌≡◌, refl, true, false, [], ◌∷◌, some, none, All, dec_lt}
use pig_tree.Base.Text.{Text, codes, hex_digit, decimal, digits}
use pig_tree.Protocol.Protobuf.{DirectoryEntryNode}
use pig_tree.Protocol.Messages.{
  PingResponse, EchoResponse, HealthResponse, StatusResponse, VersionResponse, HardLinkObjectReport,
  CoverageGapReport, ScanProgress, ScanResponse,
}
use pig_tree.Protocol.Json.{
  escape_char, escape_chars, escape_json_string, format_diagnostic, format_success_envelope,
  format_error_envelope, format_cancelled_envelope,
}
use pig_tree.Protocol.Json.Entry.{
  format_directory_entry_json, format_directory_entry_ndjson, format_directory_entry_ndjson_event,
}
use pig_tree.Protocol.Json.Scan.{
  format_scan_progress_ndjson_event, format_scan_terminal_ndjson_event,
  format_scan_cancelled_ndjson_event,
}
use pig_tree.Protocol.Json.Value.{num, render}
use pig_tree.Protocol.Json.Reader.{read_text}
use pig_tree.Protocol.Json.RoundTrip.Responses.{
  diagnostic_value, success_value, error_value, cancelled_value, read_text_envelopes,
}
use pig_tree.Protocol.Json.RoundTrip.Entries.{entry_value, data_event, read_text_directory_entry}
use pig_tree.Protocol.Json.RoundTrip.Lines.{IsPrintable, events-IsPrintable}
use pig_tree.Protocol.Json.Time.{civil_date, format_utc_iso}
use pig_tree.Protocol.Json.Time.Calendar.{IsDayNumber}
use pig_tree.Protocol.Json.Time.Civil.{civil_date-IsDayNumber}

-- A name with a quote, a backslash, a line feed and a control character.
abbrev odd : Text
odd = b'a' ∷ b'"' ∷ 92 ∷ 10 ∷ 1 ∷ []

escaped : escape_json_string odd ≡ codes "\"a\\\"\\\\\\n\\u0001\""
unfolding escape_json_string escape_chars escape_char hex_digit
escaped = refl

abbrev id : Text
id = codes "op-1"

abbrev node : DirectoryEntryNode
node = record {
  id = 2;
  parent_id = 1;
  name = odd;
  entry_kind = 2;
  logical_bytes = 10;
  referenced_allocated_bytes = 4096;
  allocated_size_known = true;
  child_count = 0;
  has_children = false;
  unique_allocated_bytes = 4096;
  observed_alias_count = 1;
  total_link_count = some (record { status = 1; count = 3 });
  external_reference_status = 2;
  known_subtotal_allocated_bytes = 4096;
  content_streams =
      record { name = odd; logical_bytes = 5; allocated_bytes = 8; allocated_size_known = true }
      ∷ [];
}

abbrev progress : ScanProgress
progress = record {
  operation_id = id;
  sequence_number = 7;
  timestamp_iso = codes "t";
  observed_directories = 1;
  observed_files = 2;
  observed_logical_bytes = 3;
  observed_referenced_allocated_bytes = 4;
  coverage_gaps = 1;
  current_phase = codes "enumerating";
  current_directory = odd;
}

abbrev link : HardLinkObjectReport
link = record {
  volume_guid = 1 ∷ 255 ∷ [];
  file_id_hi = 1;
  file_id_lo = 2;
  observed_alias_count = 2;
  total_link_count = none;
  external_reference_status = 3;
  entry_paths = odd ∷ codes "b" ∷ [];
}

abbrev gap : CoverageGapReport
gap = record {
  display_path = odd;
  status_code = codes "denied";
  native_error = 5;
  error_message = codes "no";
}

abbrev response : ScanResponse
response = record {
  operation_id = id;
  target_path = codes "C:";
  run_outcome = 1;
  observation_started_iso = codes "t0";
  observation_completed_iso = codes "t1";
  scope_coverage = 2;
  directory_count = 1;
  file_count = 2;
  special_count = 0;
  logical_bytes = 10;
  allocated_bytes = 8192;
  allocated_bytes_known = false;
  coverage_gaps = gap ∷ gap ∷ [];
  duration_ms = 12;
  referenced_allocated_bytes = 8192;
  unique_allocated_bytes = 4096;
  known_subtotal_allocated_bytes = 4096;
  indeterminate_external_reference_objects = 0;
  hard_links = link ∷ [];
}

read_text_envelopes_example :
    (read_text (format_diagnostic id odd odd) ≡ some (diagnostic_value id odd odd))
    × (read_text (format_success_envelope id (render (num 5) [])) ≡ some (success_value id (num 5)))
    × (read_text (format_error_envelope id id odd) ≡ some (error_value id id odd))
    × (read_text (format_cancelled_envelope id id) ≡ some (cancelled_value id id))
read_text_envelopes_example = read_text_envelopes id id odd odd (num 5)

abbrev ping : PingResponse
ping = record { timestamp_utc_ms = 100; echo_timestamp_utc_ms = 200 }

abbrev echo : EchoResponse
echo = record { payload = odd }

abbrev health : HealthResponse
health = record {
  status = codes "HEALTHY";
  uptime_ms = 1234;
  memory_private_bytes = 5678;
  handle_count = 90;
}

abbrev status : StatusResponse
status = record {
  state = codes "IDLE";
  active_runs = 1;
  total_observations = 2;
  session_id = codes "sess-1";
}

abbrev version : VersionResponse
version = record {
  engine_version = codes "0.1";
  protocol_version = 1;
  build_date = codes "today";
  commit_hash = odd;
  capabilities = [];
}

read_text_directory_entry_example :
    (read_text (format_directory_entry_json node) ≡ some (entry_value node))
    × (read_text (format_directory_entry_ndjson node) ≡ some (entry_value node))
    × (read_text (format_directory_entry_ndjson_event id 3 (codes "t") node)
        ≡ some (data_event id 3 (codes "t") (entry_value node)))
read_text_directory_entry_example = read_text_directory_entry id 3 (codes "t") node

events-IsPrintable_example :
    All IsPrintable (format_scan_progress_ndjson_event progress)
    × All IsPrintable (format_scan_terminal_ndjson_event response 9)
    × All IsPrintable (format_scan_cancelled_ndjson_event (codes "now") id 9 none odd)
    × All IsPrintable (format_directory_entry_ndjson_event id 9 (codes "t") node)
events-IsPrintable_example =
    events-IsPrintable progress response node 9 (codes "now") id (codes "t") odd none

epoch_day : format_utc_iso 1788006896 789 ≡ codes "2026-08-29T12:34:56.789Z"
unfolding format_utc_iso decimal digits dec_lt
epoch_day = refl

civil_date-IsDayNumber_example : IsDayNumber (civil_date 20694) (20694 + 719528)
civil_date-IsDayNumber_example = civil_date-IsDayNumber 20694
