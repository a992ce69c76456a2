-- ===== src/Engine/Graph/Entry.antt =====
-- The projected entries of crates/pigtree-engine/src/graph.rs: `entry`, `project_graph_entry`,
-- `children_of` and `streams_for_entry`. An index or a slice out of range panics, which is `none`.
pub mod Agreement
use pig_tree.Base.{ℕ, Option, none, some, List, [], ◌∷◌, get_elem?, length, ◌==◌, if◌then◌else◌}
use pig_tree.Base.Dict.{lookup, nat_eq}
use pig_tree.Protocol.Observation.{
  ObjectIdentity, ValueKnowledge, not_observed, ExternalReferenceStatus,
}
use pig_tree.Protocol.Observation.Status.{derive}
use pig_tree.Engine.Graph.{
  no_object, EntryKind, file, ObjectRecord, StreamBreakdown, CompactEntry, storage_get, GraphEntry,
  DirectoryGraph,
}
use pig_tree.Engine.Graph.Page.{slice}

-- `Option::unwrap_or(&[])`.
abbrev or_nothing : Option (List StreamBreakdown) → List StreamBreakdown
or_nothing none = []
or_nothing (some streams) = streams

abbrev streams_found : DirectoryGraph → Option CompactEntry → List StreamBreakdown
streams_found g none = []
streams_found g (some compact) =
    if compact.object_index == no_object
    then []
    else or_nothing (lookup compact.object_index g.object_streams)

unfoldable pub streams_for_entry : DirectoryGraph → ℕ → List StreamBreakdown
streams_for_entry g entry_id = streams_found g (storage_get g.storage entry_id)

unfoldable pub children_of : DirectoryGraph → CompactEntry → Option (List ℕ)
children_of g compact =
    if compact.child_count == 0
    then some []
    else slice g.all_children compact.child_start compact.child_count

-- Identity, alias count, link count and external status of an entry.
abbrev pub Facts : Type 0
Facts = Option ObjectIdentity × ℕ × ValueKnowledge ℕ × ExternalReferenceStatus

abbrev pub default_facts : EntryKind → Facts
default_facts file = (none, 1, not_observed, derive not_observed 1)
default_facts _ = (none, 1, ValueKnowledge.not_applicable, ExternalReferenceStatus.not_applicable)

abbrev pub object_facts : Option ObjectRecord → Option Facts
object_facts none = none
object_facts (some obj) =
    some
      (obj.identity, obj.observed_alias_count, obj.total_link_count, obj.external_reference_status)

unfoldable pub facts : DirectoryGraph → CompactEntry → Option Facts
facts g compact =
    if compact.object_index == no_object
    then some (default_facts compact.kind)
    else object_facts (get_elem? g.objects compact.object_index)

abbrev pub project_with : CompactEntry → Option (List ℕ) → Option Facts → Option GraphEntry
project_with compact none known_facts = none
project_with compact (some children) none = none
project_with compact (some children) (some (object_id, aliases, links, status)) = some (record {
  id = compact.id;
  parent_id = compact.parent_id;
  name = compact.name;
  kind = compact.kind;
  logical_size = compact.logical_size;
  allocated_size = compact.allocated_size;
  allocated_size_known = compact.allocated_size_known;
  referenced_allocated_bytes = compact.referenced_allocated_bytes;
  unique_allocated_bytes = compact.unique_allocated_bytes;
  known_subtotal_allocated_bytes = compact.known_subtotal_allocated_bytes;
  object_id = object_id;
  observed_alias_count = aliases;
  total_link_count = links;
  external_reference_status = status;
  file_attributes = compact.file_attributes;
  reparse_tag = compact.reparse_tag;
  creation_time_utc_ms = compact.creation_time_utc_ms;
  last_write_time_utc_ms = compact.last_write_time_utc_ms;
  last_access_time_utc_ms = compact.last_access_time_utc_ms;
  children = children;
})

unfoldable pub project_graph_entry : DirectoryGraph → CompactEntry → Option GraphEntry
project_graph_entry g compact = project_with compact (children_of g compact) (facts g compact)

abbrev pub found_entry : Option GraphEntry → Option (Option GraphEntry)
found_entry none = none
found_entry (some e) = some (some e)

abbrev pub entry_at : DirectoryGraph → Option CompactEntry → Option (Option GraphEntry)
entry_at g none = some none
entry_at g (some compact) = found_entry (project_graph_entry g compact)

-- `entry`: nothing for an id that the storage does not have.
unfoldable pub entry : DirectoryGraph → ℕ → Option (Option GraphEntry)
entry g id = entry_at g (storage_get g.storage id)
