-- ===== src/Protocol/Json/Scan.antt =====
-- The texts of a scan in crates/pigtree-protocol/src/json.rs: progress, the end, and a cancellation.
use pig_tree.Base.{
  ℕ, ◌+◌, ◌%◌, ◌^◌, Bool, true, false, Option, none, some, [], ◌∷◌, ◌++◌, ◌==◌, if◌then◌else◌,
}
use pig_tree.Base.Text.{Text, codes, decimal}
use pig_tree.Protocol.Messages.{ScanProgress, ScanResponse}
use pig_tree.Protocol.Json.{escape_json_string}
use pig_tree.Protocol.Json.Arrays.{format_coverage_gaps_array, format_hard_links_array}

unfoldable pub scan_run_outcome_to_str : ℕ → Text
scan_run_outcome_to_str outcome =
    if outcome == 1
    then codes "finished"
    else if outcome == 2
    then codes "cancelled"
    else if outcome == 3
    then codes "failed"
    else codes "failed"

unfoldable pub scope_coverage_to_str : ℕ → Text
scope_coverage_to_str coverage =
    if coverage == 1
    then codes "complete"
    else if coverage == 2
    then codes "partial"
    else if coverage == 3
    then codes "indeterminate"
    else codes "indeterminate"

unfoldable pub allocation_knowledge_str : Bool → Text
allocation_knowledge_str true = codes "known"
allocation_knowledge_str false = codes "not_observed"

-- `directory_count + file_count + special_count`, in `u64`.
unfoldable pub directory_entries : ScanResponse → ℕ
directory_entries resp = (resp.directory_count + resp.file_count + resp.special_count) % 2 ^ 64

unfoldable pub format_scan_terminal_json : ScanResponse → Text
format_scan_terminal_json resp =
    codes "{\"operation_id\":"
    ++ (escape_json_string resp.operation_id
        ++ (codes ",\"schema_version\":\"2.0\",\"run_outcome\":"
            ++ (escape_json_string (scan_run_outcome_to_str resp.run_outcome)
                ++ (codes ",\"observation_interval\":{\"started_at\":"
                    ++ (escape_json_string resp.observation_started_iso
                        ++ (codes ",\"completed_at\":"
                            ++ (escape_json_string resp.observation_completed_iso
                                ++ (codes "},\"scope_coverage\":"
                                    ++ (escape_json_string
                                          (scope_coverage_to_str resp.scope_coverage)
                                        ++ (codes ",\"directory_entries\":"
                                            ++ (decimal (directory_entries resp)
                                                ++ (codes ",\"directories\":"
                                                    ++ (decimal resp.directory_count
                                                        ++ (codes ",\"files\":"
                                                            ++ (decimal resp.file_count
                                                            ++ (codes ",\"special_objects\":"
                                                            ++ (decimal resp.special_count
                                                            ++ (codes ",\"logical_bytes\":"
                                                            ++ (decimal resp.logical_bytes
                                                            ++ (codes
                                                            ",\"referenced_allocated_bytes\":{\"value\":"
                                                            ++ (decimal
                                                            resp.referenced_allocated_bytes
                                                            ++ (codes ",\"knowledge\":"
                                                            ++ (escape_json_string (
                                                            allocation_knowledge_str
                                                            resp.allocated_bytes_known)
                                                            ++ (codes
                                                            "},\"unique_allocated_bytes\":{\"value\":"
                                                            ++ (decimal resp.unique_allocated_bytes
                                                            ++ (codes ",\"knowledge\":"
                                                            ++ (escape_json_string (
                                                            allocation_knowledge_str
                                                            resp.allocated_bytes_known)
                                                            ++ (codes
                                                            "},\"known_subtotal_allocated_bytes\":"
                                                            ++ (decimal
                                                            resp.known_subtotal_allocated_bytes
                                                            ++ (codes
                                                            ",\"indeterminate_external_reference_objects\":"
                                                            ++ (decimal
                                                            resp.indeterminate_external_reference_objects
                                                            ++ (codes ",\"hard_links\":"
                                                            ++ (format_hard_links_array
                                                            resp.hard_links
                                                            ++ (codes ",\"coverage_gaps\":"
                                                            ++ (format_coverage_gaps_array
                                                            resp.coverage_gaps
                                                            ++ (codes
                                                            "}"))))))))))))))))))))))))))))))))))))

unfoldable pub format_scan_progress_ndjson_event : ScanProgress → Text
format_scan_progress_ndjson_event p =
    codes "{\"operation_id\":"
    ++ (escape_json_string p.operation_id
        ++ (codes ",\"sequence_number\":"
            ++ (decimal p.sequence_number
                ++ (codes ",\"timestamp\":"
                    ++ (escape_json_string p.timestamp_iso
                        ++ (codes ",\"schema_version\":\"2.0\",\"phase\":"
                            ++ (escape_json_string p.current_phase
                                ++ (codes
                                      ",\"channel\":\"progress\",\"provenance\":\"win32_directory_traversal\",\"payload\":{\"observed_directories\":"
                                    ++ (decimal p.observed_directories
                                        ++ (codes ",\"observed_files\":"
                                            ++ (decimal p.observed_files
                                                ++ (codes ",\"observed_logical_bytes\":"
                                                    ++ (decimal p.observed_logical_bytes
                                                        ++ (codes
                                                            ",\"observed_referenced_allocated_bytes\":"
                                                            ++ (decimal
                                                            p.observed_referenced_allocated_bytes
                                                            ++ (codes ",\"coverage_gaps\":"
                                                            ++ (decimal p.coverage_gaps
                                                            ++ (codes ",\"current_directory\":"
                                                            ++ (escape_json_string
                                                            p.current_directory
                                                            ++ (codes "}}"))))))))))))))))))))

unfoldable pub format_scan_terminal_ndjson_event : ScanResponse → ℕ → Text
format_scan_terminal_ndjson_event resp sequence_number =
    codes "{\"operation_id\":"
    ++ (escape_json_string resp.operation_id
        ++ (codes ",\"sequence_number\":"
            ++ (decimal sequence_number
                ++ (codes ",\"timestamp\":"
                    ++ (escape_json_string resp.observation_completed_iso
                        ++ (codes
                              ",\"schema_version\":\"2.0\",\"phase\":\"finalizing\",\"channel\":\"data\",\"provenance\":\"win32_directory_traversal\",\"payload\":{\"run_outcome\":"
                            ++ (escape_json_string (scan_run_outcome_to_str resp.run_outcome)
                                ++ (codes ",\"observation_interval\":{\"started_at\":"
                                    ++ (escape_json_string resp.observation_started_iso
                                        ++ (codes ",\"completed_at\":"
                                            ++ (escape_json_string resp.observation_completed_iso
                                                ++ (codes "},\"scope_coverage\":"
                                                    ++ (escape_json_string (
                                                          scope_coverage_to_str resp.scope_coverage)
                                                        ++ (codes ",\"directory_entries\":"
                                                            ++ (decimal (directory_entries resp)
                                                            ++ (codes ",\"directories\":"
                                                            ++ (decimal resp.directory_count
                                                            ++ (codes ",\"files\":"
                                                            ++ (decimal resp.file_count
                                                            ++ (codes ",\"special_objects\":"
                                                            ++ (decimal resp.special_count
                                                            ++ (codes ",\"logical_bytes\":"
                                                            ++ (decimal resp.logical_bytes
                                                            ++ (codes
                                                            ",\"referenced_allocated_bytes\":{\"value\":"
                                                            ++ (decimal
                                                            resp.referenced_allocated_bytes
                                                            ++ (codes ",\"knowledge\":"
                                                            ++ (escape_json_string (
                                                            allocation_knowledge_str
                                                            resp.allocated_bytes_known)
                                                            ++ (codes
                                                            "},\"unique_allocated_bytes\":{\"value\":"
                                                            ++ (decimal resp.unique_allocated_bytes
                                                            ++ (codes ",\"knowledge\":"
                                                            ++ (escape_json_string (
                                                            allocation_knowledge_str
                                                            resp.allocated_bytes_known)
                                                            ++ (codes
                                                            "},\"known_subtotal_allocated_bytes\":"
                                                            ++ (decimal
                                                            resp.known_subtotal_allocated_bytes
                                                            ++ (codes
                                                            ",\"indeterminate_external_reference_objects\":"
                                                            ++ (decimal
                                                            resp.indeterminate_external_reference_objects
                                                            ++ (codes ",\"hard_links\":"
                                                            ++ (format_hard_links_array
                                                            resp.hard_links
                                                            ++ (codes ",\"coverage_gaps\":"
                                                            ++ (format_coverage_gaps_array
                                                            resp.coverage_gaps
                                                            ++ (codes
                                                            "}}"))))))))))))))))))))))))))))))))))))))))

-- `now` is `format_utc_iso` of the clock.
unfoldable pub timestamp_or : Text → Option Text → Text
timestamp_or now none = now
timestamp_or now (some []) = now
timestamp_or now (some (c ∷ t)) = c ∷ t

unfoldable pub format_scan_cancelled_ndjson_event : Text → Text → ℕ → Option Text → Text → Text
format_scan_cancelled_ndjson_event now operation_id sequence_number timestamp_iso message =
    codes "{\"operation_id\":"
    ++ (escape_json_string operation_id
        ++ (codes ",\"sequence_number\":"
            ++ (decimal sequence_number
                ++ (codes ",\"timestamp\":"
                    ++ (escape_json_string (timestamp_or now timestamp_iso)
                        ++ (codes
                              ",\"schema_version\":\"2.0\",\"phase\":\"finalizing\",\"channel\":\"data\",\"provenance\":\"win32_directory_traversal\",\"payload\":{\"run_outcome\":\"cancelled\",\"status\":\"cancelled\",\"message\":"
                            ++ (escape_json_string message ++ (codes "}}"))))))))
