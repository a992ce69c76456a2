-- ===== src/Protocol/Json/RoundTrip/Arrays.antt =====
-- The arrays of gaps and of hard links in crates/pigtree-protocol/src/json.rs are JSON arrays of the
-- objects that are meant.
use pig_tree.Base.{
  ℕ, suc, ◌+◌, ◌*◌, ◌^◌, List, [], ◌∷◌, ◌++◌, ◌≡◌, refl, ap, append_assoc, arith, lt→ltb,
}
use pig_tree.Base.Text.{Text, codes, decimal}
use pig_tree.Protocol.Messages.{CoverageGapReport, HardLinkObjectReport}
use pig_tree.Protocol.Json.{escape_char, escape_chars, escape_json_string}
use pig_tree.Protocol.Json.Entry.{external_reference_status_to_str}
use pig_tree.Protocol.Json.Arrays.{
  format_coverage_gap, push_coverage_gaps, format_coverage_gaps_array, hex_text, format_hard_link,
  push_hard_links, format_hard_links_array,
}
use pig_tree.Protocol.Json.Value.{Value, str, num, arr, render, render_items}
use pig_tree.Protocol.Json.RoundTrip.Shapes.{object, values, join-list, render-append}
use pig_tree.Protocol.Json.RoundTrip.Entries.{link_count_value, link_count_agree}

abbrev pub gap_value : CoverageGapReport → Value
gap_value gap = object (
    (codes "path", str gap.display_path)
    ∷ (codes "status", str gap.status_code)
    ∷ (codes "native_error", num gap.native_error)
    ∷ (codes "message", str gap.error_message)
    ∷ [])

gap_agree :
    (gap : CoverageGapReport) (rest : Text)
    → format_coverage_gap gap ++ rest ≡ render (gap_value gap) rest
unfolding format_coverage_gap render escape_json_string escape_chars escape_char
gap_agree gap rest = render-append (gap_value gap) [] rest

more_gaps :
    (i : ℕ) (gaps : List CoverageGapReport) (rest : Text)
    → push_coverage_gaps (suc i) gaps ++ (b']' ∷ rest)
      ≡ render_items (values format_coverage_gap gap_value gaps) rest
unfolding push_coverage_gaps render
more_gaps i [] rest = refl
more_gaps i (gap ∷ gaps) rest = rw (lt→ltb 0 (suc i) (omega arith)) (
    rw
      (append_assoc (format_coverage_gap gap) (push_coverage_gaps (suc (suc i)) gaps) (b']' ∷ rest))
      (rw (more_gaps (suc i) gaps rest) (ap (λ (t : Text). b',' ∷ t) (gap_agree gap _))))

pub gaps_agree :
    (gaps : List CoverageGapReport) (rest : Text)
    → format_coverage_gaps_array gaps ++ rest
      ≡ render (arr (values format_coverage_gap gap_value gaps)) rest
unfolding format_coverage_gaps_array push_coverage_gaps render
gaps_agree [] rest = refl
gaps_agree (gap ∷ gaps) rest =
    rw (append_assoc (format_coverage_gap gap ++ push_coverage_gaps 1 gaps) (codes "]") rest) (
      rw (append_assoc (format_coverage_gap gap) (push_coverage_gaps 1 gaps) (b']' ∷ rest))
        (rw (more_gaps 0 gaps rest) (ap (λ (t : Text). b'[' ∷ t) (gap_agree gap _))))

abbrev pub hard_link_value : HardLinkObjectReport → Value
hard_link_value r = object (
    (codes "volume_guid", str (hex_text r.volume_guid))
    ∷ (codes "file_id", str (decimal (r.file_id_hi * 2 ^ 64 + r.file_id_lo)))
    ∷ (codes "observed_alias_count", num r.observed_alias_count)
    ∷ (codes "total_link_count", link_count_value r.total_link_count)
    ∷ (
      codes "external_reference_status",
      str (external_reference_status_to_str r.external_reference_status),
    )
    ∷ (codes "entry_paths", arr (values escape_json_string str r.entry_paths))
    ∷ [])

path_agree : (p rest : Text) → escape_json_string p ++ rest ≡ render (str p) rest
unfolding render
path_agree p rest = refl

hard_link_render : (r : HardLinkObjectReport) → format_hard_link r ≡ render (hard_link_value r) []
unfolding format_hard_link render escape_json_string escape_chars escape_char
hard_link_render r =
    rw (link_count_agree r.total_link_count _)
      (rw (join-list escape_json_string str path_agree r.entry_paths (codes "}")) refl)

link_agree :
    (r : HardLinkObjectReport) (rest : Text)
    → format_hard_link r ++ rest ≡ render (hard_link_value r) rest
link_agree r rest = rw (hard_link_render r) (render-append (hard_link_value r) [] rest)

more_links :
    (i : ℕ) (rs : List HardLinkObjectReport) (rest : Text)
    → push_hard_links (suc i) rs ++ (b']' ∷ rest)
      ≡ render_items (values format_hard_link hard_link_value rs) rest
unfolding push_hard_links render
more_links i [] rest = refl
more_links i (r ∷ rs) rest = rw (lt→ltb 0 (suc i) (omega arith)) (
    rw (append_assoc (format_hard_link r) (push_hard_links (suc (suc i)) rs) (b']' ∷ rest))
      (rw (more_links (suc i) rs rest) (ap (λ (t : Text). b',' ∷ t) (link_agree r _))))

pub links_agree :
    (reports : List HardLinkObjectReport) (rest : Text)
    → format_hard_links_array reports ++ rest
      ≡ render (arr (values format_hard_link hard_link_value reports)) rest
unfolding format_hard_links_array push_hard_links render
links_agree [] rest = refl
links_agree (r ∷ rs) rest =
    rw (append_assoc (format_hard_link r ++ push_hard_links 1 rs) (codes "]") rest) (
      rw (append_assoc (format_hard_link r) (push_hard_links 1 rs) (b']' ∷ rest))
        (rw (more_links 0 rs rest) (ap (λ (t : Text). b'[' ∷ t) (link_agree r _))))
