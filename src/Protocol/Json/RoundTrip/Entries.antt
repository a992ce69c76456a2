-- ===== src/Protocol/Json/RoundTrip/Entries.antt =====
-- The text of a directory entry in crates/pigtree-protocol/src/json.rs, and the JSON object that it
-- is meant to be.
use pig_tree.Base.{
  ℕ, Bool, true, false, Option, none, some, List, [], ◌∷◌, ◌++◌, ◌≡◌, refl, ap, map, ◌==◌,
  if◌then◌else◌, append_assoc,
}
use pig_tree.Base.Text.{Text, codes, decimal, join}
use pig_tree.Protocol.Protobuf.{LinkCountKnowledgeProto, ContentStreamProto, DirectoryEntryNode}
use pig_tree.Protocol.Json.{escape_char, escape_chars, escape_json_string}
use pig_tree.Protocol.Json.Entry.{
  entry_kind_to_str, link_count_knowledge_to_str, external_reference_status_to_str,
  format_link_count_knowledge, format_content_stream, format_content_streams,
  format_directory_entry_json, format_directory_entry_ndjson, format_directory_entry_ndjson_event,
}
use pig_tree.Protocol.Json.Value.{
  Value, Fields, str, num, bool, null, arr, obj, no_fields, field, render, render_fields,
}
use pig_tree.Protocol.Json.Reader.{read_text}
use pig_tree.Protocol.Json.RoundTrip.Texts.{read_text-render}
use pig_tree.Protocol.Json.RoundTrip.Shapes.{object, values, join-items, render-append}

-- A count is present just when it is known.
abbrev pub known_count : Bool → LinkCountKnowledgeProto → Value
known_count true p =
    object ((codes "value", num p.count) ∷ (codes "knowledge", str (codes "known")) ∷ [])
known_count false p =
    object
      ((codes "value", null) ∷ (codes "knowledge", str (link_count_knowledge_to_str p.status)) ∷ [])

abbrev pub link_count_value : Option LinkCountKnowledgeProto → Value
link_count_value (some p) = known_count (p.status == 1) p
link_count_value none =
    object ((codes "value", null) ∷ (codes "knowledge", str (codes "not_observed")) ∷ [])

known_count-render :
    (b : Bool) (p : LinkCountKnowledgeProto)
    → (if b
        then (codes "{\"value\":" ++ (decimal p.count ++ codes ",\"knowledge\":\"known\"}"))
        else (codes "{\"value\":null,\"knowledge\":"
            ++ (escape_json_string (link_count_knowledge_to_str p.status) ++ codes "}")))
      ≡ render (known_count b p) []
unfolding render escape_json_string escape_chars escape_char
known_count-render true p = refl
known_count-render false p = refl

format_link_count_knowledge-render :
    (p : Option LinkCountKnowledgeProto)
    → format_link_count_knowledge p ≡ render (link_count_value p) []
unfolding format_link_count_knowledge render escape_json_string escape_chars escape_char
format_link_count_knowledge-render (some p) = known_count-render (p.status == 1) p
format_link_count_knowledge-render none = refl

pub link_count_agree :
    (p : Option LinkCountKnowledgeProto) (rest : Text)
    → format_link_count_knowledge p ++ rest ≡ render (link_count_value p) rest
link_count_agree p rest =
    rw (format_link_count_knowledge-render p) (render-append (link_count_value p) [] rest)

abbrev pub stream_value : ContentStreamProto → Value
stream_value s = object (
    (codes "name", str s.name)
    ∷ (codes "logical_bytes", num s.logical_bytes)
    ∷ (codes "allocated_bytes", num s.allocated_bytes)
    ∷ (codes "allocated_size_known", bool s.allocated_size_known)
    ∷ [])

-- Without streams the field is left out.
abbrev pub stream_fields : List ContentStreamProto → Fields
stream_fields [] = no_fields
stream_fields (s ∷ ss) =
    field (codes "content_streams") (arr (values format_content_stream stream_value (s ∷ ss)))
      no_fields

stream_agree :
    (s : ContentStreamProto) (rest : Text)
    → format_content_stream s ++ rest ≡ render (stream_value s) rest
unfolding format_content_stream render escape_json_string escape_chars escape_char
stream_agree s rest = render-append (stream_value s) [] rest

streams_agree :
    (ss : List ContentStreamProto)
    → format_content_streams ss ++ codes "}" ≡ render_fields (stream_fields ss) []
unfolding format_content_streams render escape_json_string escape_chars escape_char
streams_agree [] = refl
streams_agree (s ∷ ss) =
    rw
      (append_assoc (join (codes ",") (map format_content_stream (s ∷ ss))) (codes "]") (codes "}"))
      (ap (λ (t : Text). codes ",\"content_streams\":[" ++ t)
        (join-items format_content_stream stream_value stream_agree s ss (codes "}")))

abbrev pub append_fields : List (Text × Value) → Fields → Fields
append_fields [] fs = fs
append_fields ((k, v) ∷ kvs) fs = field k v (append_fields kvs fs)

abbrev pub entry_value : DirectoryEntryNode → Value
entry_value node = obj (
    append_fields
      ((codes "schema_version", str (codes "2.0"))
        ∷ (codes "id", num node.id)
        ∷ (codes "parent_id", num node.parent_id)
        ∷ (codes "name", str node.name)
        ∷ (codes "entry_kind", str (entry_kind_to_str node.entry_kind))
        ∷ (codes "logical_bytes", num node.logical_bytes)
        ∷ (codes "referenced_allocated_bytes", num node.referenced_allocated_bytes)
        ∷ (codes "unique_allocated_bytes", num node.unique_allocated_bytes)
        ∷ (codes "allocated_size_known", bool node.allocated_size_known)
        ∷ (codes "known_subtotal_allocated_bytes", num node.known_subtotal_allocated_bytes)
        ∷ (codes "child_count", num node.child_count)
        ∷ (codes "has_children", bool node.has_children)
        ∷ (codes "observed_alias_count", num node.observed_alias_count)
        ∷ (codes "total_link_count", link_count_value node.total_link_count)
        ∷ (
          codes "external_reference_status",
          str (external_reference_status_to_str node.external_reference_status),
        )
        ∷ [])
      (stream_fields node.content_streams))

format_directory_entry_json-render :
    (node : DirectoryEntryNode) → format_directory_entry_json node ≡ render (entry_value node) []
unfolding format_directory_entry_json render escape_json_string escape_chars escape_char
format_directory_entry_json-render node =
    rw (streams_agree node.content_streams) (rw (link_count_agree node.total_link_count _) refl)

-- The envelope of an event on the data channel.
abbrev pub data_event : Text → ℕ → Text → Value → Value
data_event operation_id sequence_number timestamp_iso payload = object (
    (codes "operation_id", str operation_id)
    ∷ (codes "sequence_number", num sequence_number)
    ∷ (codes "timestamp", str timestamp_iso)
    ∷ (codes "schema_version", str (codes "2.0"))
    ∷ (codes "phase", str (codes "finalizing"))
    ∷ (codes "channel", str (codes "data"))
    ∷ (codes "provenance", str (codes "win32_directory_traversal"))
    ∷ (codes "payload", payload)
    ∷ [])

pub format_directory_entry_ndjson_event-render :
    (i : Text) (n : ℕ) (t : Text) (node : DirectoryEntryNode)
    → format_directory_entry_ndjson_event i n t node
      ≡ render (data_event i n t (entry_value node)) []
unfolding format_directory_entry_ndjson_event render escape_json_string escape_chars escape_char
format_directory_entry_ndjson_event-render i n t node =
    rw (format_directory_entry_json-render node)
      (rw (render-append (entry_value node) [] (codes "}")) refl)

-- The JSON of a directory entry is an object with these fields: the content streams are there just
-- when there are any, and the link count is null unless it is known. The line of an event wraps it.
pub read_text_directory_entry :
    (operation_id : Text) (sequence_number : ℕ) (timestamp_iso : Text) (node : DirectoryEntryNode)
    → (read_text (format_directory_entry_json node) ≡ some (entry_value node))
      × (read_text (format_directory_entry_ndjson node) ≡ some (entry_value node))
      × (read_text
            (format_directory_entry_ndjson_event operation_id sequence_number timestamp_iso node)
          ≡ some (data_event operation_id sequence_number timestamp_iso (entry_value node)))
unfolding format_directory_entry_ndjson
read_text_directory_entry i n t node =
    let entry = read_text-render (entry_value node) in
    (
      rw (format_directory_entry_json-render node) entry,
      rw (format_directory_entry_json-render node) entry,
      rw (format_directory_entry_ndjson_event-render i n t node)
          (read_text-render (data_event i n t (entry_value node))),
    )
