-- ===== src/Protocol/Json/RoundTrip/Scans.antt =====
-- The texts of a scan in crates/pigtree-protocol/src/json.rs, and the JSON objects that they are
-- meant to be.
use pig_tree.Base.{ℕ, Option, [], ◌∷◌, ◌≡◌, refl}
use pig_tree.Base.Text.{Text, codes}
use pig_tree.Protocol.Messages.{ScanProgress, ScanResponse}
use pig_tree.Protocol.Json.{escape_char, escape_chars, escape_json_string}
use pig_tree.Protocol.Json.Scan.{
  scan_run_outcome_to_str, scope_coverage_to_str, allocation_knowledge_str, directory_entries,
  format_scan_progress_ndjson_event, format_scan_terminal_ndjson_event, timestamp_or,
  format_scan_cancelled_ndjson_event,
}
use pig_tree.Protocol.Json.Arrays.{format_coverage_gap, format_hard_link}
use pig_tree.Protocol.Json.RoundTrip.Arrays.{gap_value, gaps_agree, hard_link_value, links_agree}
use pig_tree.Protocol.Json.Value.{Value, str, num, arr, render}
use pig_tree.Protocol.Json.RoundTrip.Shapes.{object, values}
use pig_tree.Protocol.Json.RoundTrip.Entries.{data_event}

abbrev pub terminal_value : ScanResponse → Value
terminal_value resp = object (
    (codes "operation_id", str resp.operation_id)
    ∷ (codes "schema_version", str (codes "2.0"))
    ∷ (codes "run_outcome", str (scan_run_outcome_to_str resp.run_outcome))
    ∷ (
      codes "observation_interval",
      object (
          (codes "started_at", str resp.observation_started_iso)
          ∷ (codes "completed_at", str resp.observation_completed_iso)
          ∷ []),
    )
    ∷ (codes "scope_coverage", str (scope_coverage_to_str resp.scope_coverage))
    ∷ (codes "directory_entries", num (directory_entries resp))
    ∷ (codes "directories", num resp.directory_count)
    ∷ (codes "files", num resp.file_count)
    ∷ (codes "special_objects", num resp.special_count)
    ∷ (codes "logical_bytes", num resp.logical_bytes)
    ∷ (
      codes "referenced_allocated_bytes",
      object (
          (codes "value", num resp.referenced_allocated_bytes)
          ∷ (codes "knowledge", str (allocation_knowledge_str resp.allocated_bytes_known))
          ∷ []),
    )
    ∷ (
      codes "unique_allocated_bytes",
      object (
          (codes "value", num resp.unique_allocated_bytes)
          ∷ (codes "knowledge", str (allocation_knowledge_str resp.allocated_bytes_known))
          ∷ []),
    )
    ∷ (codes "known_subtotal_allocated_bytes", num resp.known_subtotal_allocated_bytes)
    ∷ (
      codes "indeterminate_external_reference_objects",
      num resp.indeterminate_external_reference_objects,
    )
    ∷ (codes "hard_links", arr (values format_hard_link hard_link_value resp.hard_links))
    ∷ (codes "coverage_gaps", arr (values format_coverage_gap gap_value resp.coverage_gaps))
    ∷ [])

abbrev pub outcome_value : ScanResponse → Value
outcome_value resp = object (
    (codes "run_outcome", str (scan_run_outcome_to_str resp.run_outcome))
    ∷ (
      codes "observation_interval",
      object (
          (codes "started_at", str resp.observation_started_iso)
          ∷ (codes "completed_at", str resp.observation_completed_iso)
          ∷ []),
    )
    ∷ (codes "scope_coverage", str (scope_coverage_to_str resp.scope_coverage))
    ∷ (codes "directory_entries", num (directory_entries resp))
    ∷ (codes "directories", num resp.directory_count)
    ∷ (codes "files", num resp.file_count)
    ∷ (codes "special_objects", num resp.special_count)
    ∷ (codes "logical_bytes", num resp.logical_bytes)
    ∷ (
      codes "referenced_allocated_bytes",
      object (
          (codes "value", num resp.referenced_allocated_bytes)
          ∷ (codes "knowledge", str (allocation_knowledge_str resp.allocated_bytes_known))
          ∷ []),
    )
    ∷ (
      codes "unique_allocated_bytes",
      object (
          (codes "value", num resp.unique_allocated_bytes)
          ∷ (codes "knowledge", str (allocation_knowledge_str resp.allocated_bytes_known))
          ∷ []),
    )
    ∷ (codes "known_subtotal_allocated_bytes", num resp.known_subtotal_allocated_bytes)
    ∷ (
      codes "indeterminate_external_reference_objects",
      num resp.indeterminate_external_reference_objects,
    )
    ∷ (codes "hard_links", arr (values format_hard_link hard_link_value resp.hard_links))
    ∷ (codes "coverage_gaps", arr (values format_coverage_gap gap_value resp.coverage_gaps))
    ∷ [])

abbrev pub progress_value : ScanProgress → Value
progress_value p = object (
    (codes "operation_id", str p.operation_id)
    ∷ (codes "sequence_number", num p.sequence_number)
    ∷ (codes "timestamp", str p.timestamp_iso)
    ∷ (codes "schema_version", str (codes "2.0"))
    ∷ (codes "phase", str p.current_phase)
    ∷ (codes "channel", str (codes "progress"))
    ∷ (codes "provenance", str (codes "win32_directory_traversal"))
    ∷ (
      codes "payload",
      object (
          (codes "observed_directories", num p.observed_directories)
          ∷ (codes "observed_files", num p.observed_files)
          ∷ (codes "observed_logical_bytes", num p.observed_logical_bytes)
          ∷ (codes "observed_referenced_allocated_bytes", num p.observed_referenced_allocated_bytes)
          ∷ (codes "coverage_gaps", num p.coverage_gaps)
          ∷ (codes "current_directory", str p.current_directory)
          ∷ []),
    )
    ∷ [])

abbrev pub cancellation_value : Text → Value
cancellation_value message = object (
    (codes "run_outcome", str (codes "cancelled"))
    ∷ (codes "status", str (codes "cancelled"))
    ∷ (codes "message", str message)
    ∷ [])

pub terminal_event_render :
    (resp : ScanResponse) (n : ℕ)
    → format_scan_terminal_ndjson_event resp n
      ≡ render
          (data_event resp.operation_id n resp.observation_completed_iso (outcome_value resp))
          []
unfolding format_scan_terminal_ndjson_event render escape_json_string escape_chars escape_char
terminal_event_render resp n =
    rw (links_agree resp.hard_links _) (rw (gaps_agree resp.coverage_gaps _) refl)

pub progress_render :
    (p : ScanProgress) → format_scan_progress_ndjson_event p ≡ render (progress_value p) []
unfolding format_scan_progress_ndjson_event render escape_json_string escape_chars escape_char
progress_render p = refl

pub cancellation_render :
    (now i : Text) (n : ℕ) (t : Option Text) (m : Text)
    → format_scan_cancelled_ndjson_event now i n t m
      ≡ render (data_event i n (timestamp_or now t) (cancellation_value m)) []
unfolding format_scan_cancelled_ndjson_event render escape_json_string escape_chars escape_char
cancellation_render now i n t m = refl
