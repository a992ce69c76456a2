-- ===== src/Protocol/Json/Arrays.antt =====
-- The arrays of coverage gaps and of hard links in crates/pigtree-protocol/src/json.rs.
use pig_tree.Base.{ℕ, suc, ◌+◌, ◌*◌, ◌^◌, List, [], ◌∷◌, ◌++◌, map, ltb, if◌then◌else◌}
use pig_tree.Base.Text.{Text, codes, decimal, hex2, join}
use pig_tree.Protocol.Messages.{CoverageGapReport, HardLinkObjectReport}
use pig_tree.Protocol.Json.{escape_json_string}
use pig_tree.Protocol.Json.Entry.{external_reference_status_to_str, format_link_count_knowledge}

unfoldable pub format_coverage_gap : CoverageGapReport → Text
format_coverage_gap gap =
    codes "{\"path\":"
    ++ (escape_json_string gap.display_path
        ++ (codes ",\"status\":"
            ++ (escape_json_string gap.status_code
                ++ (codes ",\"native_error\":"
                    ++ (decimal gap.native_error
                        ++ (codes ",\"message\":"
                            ++ (escape_json_string gap.error_message ++ (codes "}"))))))))

-- The body of the loop, from the element with index `i` on.
unfoldable pub push_coverage_gaps : ℕ → List CoverageGapReport → Text
push_coverage_gaps i [] = []
push_coverage_gaps i (gap ∷ gaps) =
    (if ltb 0 i then codes "," else [])
    ++ (format_coverage_gap gap ++ push_coverage_gaps (suc i) gaps)

unfoldable pub format_coverage_gaps_array : List CoverageGapReport → Text
format_coverage_gaps_array gaps = codes "[" ++ (push_coverage_gaps 0 gaps ++ codes "]")

unfoldable pub hex_text : List ℕ → Text
hex_text [] = []
hex_text (b ∷ bs) = hex2 b ++ hex_text bs

-- The low half of the file id has 64 bits, so `|` with the shifted high half is a sum.
unfoldable pub format_hard_link : HardLinkObjectReport → Text
format_hard_link r =
    codes "{\"volume_guid\":"
    ++ (escape_json_string (hex_text r.volume_guid)
        ++ (codes ",\"file_id\":"
            ++ (escape_json_string (decimal (r.file_id_hi * 2 ^ 64 + r.file_id_lo))
                ++ (codes ",\"observed_alias_count\":"
                    ++ (decimal r.observed_alias_count
                        ++ (codes ",\"total_link_count\":"
                            ++ (format_link_count_knowledge r.total_link_count
                                ++ (codes ",\"external_reference_status\":"
                                    ++ (escape_json_string (
                                          external_reference_status_to_str
                                            r.external_reference_status)
                                        ++ (codes ",\"entry_paths\":["
                                            ++ (join (codes ",")
                                                  (map escape_json_string r.entry_paths)
                                                ++ (codes "]}"))))))))))))

unfoldable pub push_hard_links : ℕ → List HardLinkObjectReport → Text
push_hard_links i [] = []
push_hard_links i (r ∷ reports) =
    (if ltb 0 i then codes "," else []) ++ (format_hard_link r ++ push_hard_links (suc i) reports)

unfoldable pub format_hard_links_array : List HardLinkObjectReport → Text
format_hard_links_array reports = codes "[" ++ (push_hard_links 0 reports ++ codes "]")
