-- ===== src/Protocol/Json.antt =====
-- crates/pigtree-protocol/src/json.rs: the escape of a string, the envelopes of the command line and
-- the responses of the engine. Value has the JSON values that the texts stand for, Reader a reader of
-- JSON, and RoundTrip that it reads what the formatters write.
pub mod Value
pub mod Reader
pub mod Arrays
pub mod Scan
pub mod Entry
pub mod Time
pub mod RoundTrip
use pig_tree.Base.{ℕ, List, [], ◌∷◌, ◌++◌, ◌/◌, ◌%◌, ltb, ◌==◌, if◌then◌else◌}
use pig_tree.Base.Text.{Text, codes, decimal, hex2}
use pig_tree.Protocol.Messages.{
  PingResponse, EchoResponse, HealthResponse, StatusResponse, VersionResponse,
}

-- The `match` of the loop. A character above 127 is pushed as it is, so its bytes are; `{:04x}` of a
-- byte is two zeros and two digits.
unfoldable pub escape_char : ℕ → Text
unfolding hex2
escape_char c =
    if c == b'"'
    then codes "\\\""
    else if c == 92
    then codes "\\\\"
    else if c == 10
    then codes "\\n"
    else if c == 13
    then codes "\\r"
    else if c == 9
    then codes "\\t"
    else if c == 8
    then codes "\\b"
    else if c == 12
    then codes "\\f"
    else if ltb c 0x20
    then codes "\\u00" ++ hex2 c
    else c ∷ []

unfoldable pub escape_chars : Text → Text
escape_chars [] = []
escape_chars (c ∷ s) = escape_char c ++ escape_chars s

unfoldable pub escape_json_string : Text → Text
escape_json_string s = b'"' ∷ (escape_chars s ++ codes "\"")

unfoldable pub format_diagnostic : Text → Text → Text → Text
format_diagnostic level target message =
    codes "{\"level\":"
    ++ (escape_json_string level
        ++ (codes ",\"target\":"
            ++ (escape_json_string target
                ++ (codes ",\"message\":" ++ (escape_json_string message ++ (codes "}"))))))

unfoldable pub format_success_envelope : Text → Text → Text
format_success_envelope request_id data_json =
    codes "{\"version\":\"1.0\",\"request_id\":"
    ++ (escape_json_string request_id
        ++ (codes ",\"status\":\"success\",\"data\":" ++ (data_json ++ (codes "}"))))

unfoldable pub format_error_envelope : Text → Text → Text → Text
format_error_envelope request_id error_code error_message =
    codes "{\"version\":\"1.0\",\"request_id\":"
    ++ (escape_json_string request_id
        ++ (codes ",\"status\":\"error\",\"error\":{\"code\":"
            ++ (escape_json_string error_code
                ++ (codes ",\"message\":" ++ (escape_json_string error_message ++ (codes "}}"))))))

unfoldable pub format_cancelled_envelope : Text → Text → Text
format_cancelled_envelope request_id reason =
    codes "{\"version\":\"1.0\",\"request_id\":"
    ++ (escape_json_string request_id
        ++ (codes
              ",\"status\":\"cancelled\",\"error\":{\"code\":\"OPERATION_CANCELLED\",\"message\":"
            ++ (escape_json_string reason ++ (codes "}}"))))

unfoldable pub format_ping_response : PingResponse → Text
format_ping_response resp =
    codes "{\"timestamp_utc_ms\":"
    ++ (decimal resp.timestamp_utc_ms
        ++ (codes ",\"echo_timestamp_utc_ms\":"
            ++ (decimal resp.echo_timestamp_utc_ms ++ (codes "}"))))

unfoldable pub format_echo_response : EchoResponse → Text
format_echo_response resp =
    codes "{\"payload\":" ++ (escape_json_string resp.payload ++ (codes "}"))

unfoldable pub format_health_response : HealthResponse → Text
format_health_response resp =
    codes "{\"status\":"
    ++ (escape_json_string resp.status
        ++ (codes ",\"uptime_ms\":"
            ++ (decimal resp.uptime_ms
                ++ (codes ",\"memory_private_bytes\":"
                    ++ (decimal resp.memory_private_bytes
                        ++ (codes ",\"handle_count\":"
                            ++ (decimal resp.handle_count ++ (codes "}"))))))))

unfoldable pub format_status_response : StatusResponse → Text
format_status_response resp =
    codes "{\"state\":"
    ++ (escape_json_string resp.state
        ++ (codes ",\"active_runs\":"
            ++ (decimal resp.active_runs
                ++ (codes ",\"total_observations\":"
                    ++ (decimal resp.total_observations
                        ++ (codes ",\"session_id\":"
                            ++ (escape_json_string resp.session_id ++ (codes "}"))))))))

unfoldable pub format_version_response : VersionResponse → Text
format_version_response resp =
    codes "{\"engine_version\":"
    ++ (escape_json_string resp.engine_version
        ++ (codes ",\"protocol_version\":"
            ++ (decimal resp.protocol_version
                ++ (codes ",\"build_date\":"
                    ++ (escape_json_string resp.build_date
                        ++ (codes ",\"commit_hash\":"
                            ++ (escape_json_string resp.commit_hash ++ (codes "}"))))))))
