-- ===== src/Protocol/Json/RoundTrip/Responses.antt =====
-- The envelopes and the responses of crates/pigtree-protocol/src/json.rs, and the JSON objects that
-- they are meant to be.
use pig_tree.Base.{some, [], ◌∷◌, ◌≡◌}
use pig_tree.Base.Text.{Text, codes}
use pig_tree.Protocol.Messages.{
  PingResponse, EchoResponse, HealthResponse, StatusResponse, VersionResponse,
}
use pig_tree.Protocol.Json.{
  escape_char, escape_chars, escape_json_string, format_diagnostic, format_success_envelope,
  format_error_envelope, format_cancelled_envelope,
}
use pig_tree.Protocol.Json.Value.{Value, str, num, render}
use pig_tree.Protocol.Json.Reader.{read_text}
use pig_tree.Protocol.Json.RoundTrip.Texts.{read_text-render}
use pig_tree.Protocol.Json.RoundTrip.Shapes.{object, render-append}

abbrev pub diagnostic_value : Text → Text → Text → Value
diagnostic_value level target message = object (
    (codes "level", str level) ∷ (codes "target", str target) ∷ (codes "message", str message) ∷ [])

abbrev pub success_value : Text → Value → Value
success_value request_id content = object (
    (codes "version", str (codes "1.0"))
    ∷ (codes "request_id", str request_id)
    ∷ (codes "status", str (codes "success"))
    ∷ (codes "data", content)
    ∷ [])

abbrev pub error_value : Text → Text → Text → Value
error_value request_id error_code error_message = object (
    (codes "version", str (codes "1.0"))
    ∷ (codes "request_id", str request_id)
    ∷ (codes "status", str (codes "error"))
    ∷ (
      codes "error",
      object ((codes "code", str error_code) ∷ (codes "message", str error_message) ∷ []),
    )
    ∷ [])

abbrev pub cancelled_value : Text → Text → Value
cancelled_value request_id reason = object (
    (codes "version", str (codes "1.0"))
    ∷ (codes "request_id", str request_id)
    ∷ (codes "status", str (codes "cancelled"))
    ∷ (
      codes "error",
      object
          ((codes "code", str (codes "OPERATION_CANCELLED")) ∷ (codes "message", str reason) ∷ []),
    )
    ∷ [])

abbrev pub ping_value : PingResponse → Value
ping_value resp = object (
    (codes "timestamp_utc_ms", num resp.timestamp_utc_ms)
    ∷ (codes "echo_timestamp_utc_ms", num resp.echo_timestamp_utc_ms)
    ∷ [])

abbrev pub echo_value : EchoResponse → Value
echo_value resp = object ((codes "payload", str resp.payload) ∷ [])

abbrev pub health_value : HealthResponse → Value
health_value resp = object (
    (codes "status", str resp.status)
    ∷ (codes "uptime_ms", num resp.uptime_ms)
    ∷ (codes "memory_private_bytes", num resp.memory_private_bytes)
    ∷ (codes "handle_count", num resp.handle_count)
    ∷ [])

abbrev pub status_value : StatusResponse → Value
status_value resp = object (
    (codes "state", str resp.state)
    ∷ (codes "active_runs", num resp.active_runs)
    ∷ (codes "total_observations", num resp.total_observations)
    ∷ (codes "session_id", str resp.session_id)
    ∷ [])

abbrev pub version_value : VersionResponse → Value
version_value resp = object (
    (codes "engine_version", str resp.engine_version)
    ∷ (codes "protocol_version", num resp.protocol_version)
    ∷ (codes "build_date", str resp.build_date)
    ∷ (codes "commit_hash", str resp.commit_hash)
    ∷ [])

-- A diagnostic and the three envelopes are JSON, whatever bytes the texts in them have; the reader
-- finds each text and the data unchanged.
pub read_text_envelopes :
    (request_id a b c : Text) (content : Value)
    → (read_text (format_diagnostic a b c) ≡ some (diagnostic_value a b c))
      × (read_text (format_success_envelope request_id (render content []))
          ≡ some (success_value request_id content))
      × (read_text (format_error_envelope request_id a b) ≡ some (error_value request_id a b))
      × (read_text (format_cancelled_envelope request_id a) ≡ some (cancelled_value request_id a))
unfolding format_diagnostic format_success_envelope format_error_envelope format_cancelled_envelope
    render escape_json_string escape_chars escape_char
read_text_envelopes request_id a b c content = (
  read_text-render (diagnostic_value a b c),
  rw (render-append content [] (codes "}")) (read_text-render (success_value request_id content)),
  read_text-render (error_value request_id a b),
  read_text-render (cancelled_value request_id a),
)
