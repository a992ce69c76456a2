-- ===== src/Protocol/Json/Entry.antt =====
-- The texts of a directory entry in crates/pigtree-protocol/src/json.rs.
use pig_tree.Base.{ℕ, Option, none, some, List, [], ◌∷◌, ◌++◌, map, ◌==◌, if◌then◌else◌}
use pig_tree.Base.Text.{Text, codes, decimal, bool_text, join}
use pig_tree.Protocol.Protobuf.{LinkCountKnowledgeProto, ContentStreamProto, DirectoryEntryNode}
use pig_tree.Protocol.Json.{escape_json_string}

unfoldable pub entry_kind_to_str : ℕ → Text
entry_kind_to_str kind =
    if kind == 1
    then codes "directory"
    else if kind == 2
    then codes "file"
    else if kind == 3
    then codes "special"
    else codes "unknown"

unfoldable pub link_count_knowledge_to_str : ℕ → Text
link_count_knowledge_to_str status =
    if status == 1
    then codes "known"
    else if status == 2
    then codes "not_observed"
    else if status == 3
    then codes "unavailable"
    else if status == 4
    then codes "not_applicable"
    else codes "not_observed"

unfoldable pub external_reference_status_to_str : ℕ → Text
external_reference_status_to_str status =
    if status == 1
    then codes "confirmed_none"
    else if status == 2
    then codes "confirmed_external"
    else if status == 3
    then codes "indeterminate"
    else if status == 4
    then codes "inconsistent_evidence"
    else if status == 5
    then codes "not_applicable"
    else codes "indeterminate"

unfoldable pub format_link_count_knowledge : Option LinkCountKnowledgeProto → Text
format_link_count_knowledge (some p) =
    if p.status == 1
    then codes "{\"value\":" ++ (decimal p.count ++ (codes ",\"knowledge\":\"known\"}"))
    else codes "{\"value\":null,\"knowledge\":"
      ++ (escape_json_string (link_count_knowledge_to_str p.status) ++ (codes "}"))
format_link_count_knowledge none = codes "{\"value\":null,\"knowledge\":\"not_observed\"}"

-- One part of `format_content_streams`.
unfoldable pub format_content_stream : ContentStreamProto → Text
format_content_stream s =
    codes "{\"name\":"
    ++ (escape_json_string s.name
        ++ (codes ",\"logical_bytes\":"
            ++ (decimal s.logical_bytes
                ++ (codes ",\"allocated_bytes\":"
                    ++ (decimal s.allocated_bytes
                        ++ (codes ",\"allocated_size_known\":"
                            ++ (bool_text s.allocated_size_known ++ (codes "}"))))))))

unfoldable pub format_content_streams : List ContentStreamProto → Text
format_content_streams [] = []
format_content_streams (s ∷ ss) =
    codes ",\"content_streams\":["
    ++ (join (codes ",") (map format_content_stream (s ∷ ss)) ++ codes "]")

unfoldable pub format_directory_entry_json : DirectoryEntryNode → Text
format_directory_entry_json node =
    codes "{\"schema_version\":\"2.0\",\"id\":"
    ++ (decimal node.id
        ++ (codes ",\"parent_id\":"
            ++ (decimal node.parent_id
                ++ (codes ",\"name\":"
                    ++ (escape_json_string node.name
                        ++ (codes ",\"entry_kind\":"
                            ++ (escape_json_string (entry_kind_to_str node.entry_kind)
                                ++ (codes ",\"logical_bytes\":"
                                    ++ (decimal node.logical_bytes
                                        ++ (codes ",\"referenced_allocated_bytes\":"
                                            ++ (decimal node.referenced_allocated_bytes
                                                ++ (codes ",\"unique_allocated_bytes\":"
                                                    ++ (decimal node.unique_allocated_bytes
                                                        ++ (codes ",\"allocated_size_known\":"
                                                            ++ (bool_text node.allocated_size_known
                                                            ++ (codes
                                                            ",\"known_subtotal_allocated_bytes\":"
                                                            ++ (decimal
                                                            node.known_subtotal_allocated_bytes
                                                            ++ (codes ",\"child_count\":"
                                                            ++ (decimal node.child_count
                                                            ++ (codes ",\"has_children\":"
                                                            ++ (bool_text node.has_children
                                                            ++ (codes ",\"observed_alias_count\":"
                                                            ++ (decimal node.observed_alias_count
                                                            ++ (codes ",\"total_link_count\":"
                                                            ++ (format_link_count_knowledge
                                                            node.total_link_count
                                                            ++ (codes
                                                            ",\"external_reference_status\":"
                                                            ++ (escape_json_string (
                                                            external_reference_status_to_str
                                                            node.external_reference_status)
                                                            ++ (format_content_streams
                                                            node.content_streams
                                                            ++ (codes
                                                            "}")))))))))))))))))))))))))))))

unfoldable pub format_directory_entry_ndjson : DirectoryEntryNode → Text
format_directory_entry_ndjson node = format_directory_entry_json node

unfoldable pub format_directory_entry_ndjson_event : Text → ℕ → Text → DirectoryEntryNode → Text
format_directory_entry_ndjson_event operation_id sequence_number timestamp_iso node =
    codes "{\"operation_id\":"
    ++ (escape_json_string operation_id
        ++ (codes ",\"sequence_number\":"
            ++ (decimal sequence_number
                ++ (codes ",\"timestamp\":"
                    ++ (escape_json_string timestamp_iso
                        ++ (codes
                              ",\"schema_version\":\"2.0\",\"phase\":\"finalizing\",\"channel\":\"data\",\"provenance\":\"win32_directory_traversal\",\"payload\":"
                            ++ (format_directory_entry_json node ++ (codes "}"))))))))
