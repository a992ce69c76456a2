-- ===== src/Engine/Graph/Page.antt =====
-- `get_children_page` of crates/pigtree-engine/src/graph.rs. An index or a slice out of range
-- panics, which is `none` here. An `offset + limit` that does not fit a 64-bit `usize` wraps around,
-- so that the slice panics, as the sum does in a build that checks it.
pub mod Paging
pub mod Total
use pig_tree.Base.{
  ℕ, ◌+◌, ◌-◌, ◌%◌, ◌^◌, ◌&&◌, Option, none, some, List, [], ◌∷◌, Bool, true, false, not, get_elem?,
  length, min, take, drop, ltb, leb, ◌==◌, if◌then◌else◌, Result, ok, err, map,
}
use pig_tree.Base.Dict.{lookup, nat_eq}
use pig_tree.Protocol.Observation.{
  ValueKnowledge, not_observed, ExternalReferenceStatus, indeterminate,
}
use pig_tree.Protocol.Protobuf.{
  LinkCountKnowledgeProto, link_count_proto, external_status_proto, ContentStreamProto,
  DirectoryEntryNode,
}
use pig_tree.Engine.Graph.{
  no_object, EntryKind, directory, file, special, is_directory, ObjectRecord, StreamBreakdown,
  CompactEntry, storage_get, GraphQueryError, parent_not_found, parent_not_directory,
  DirectoryGraph,
}

-- `&xs[start..start + count]`.
abbrev pub slice : List ℕ → ℕ → ℕ → Option (List ℕ)
slice xs start count =
    if leb (start + count) (length xs) then some (take count (drop start xs)) else none

-- `&xs[start..end]`.
abbrev pub range : List ℕ → ℕ → ℕ → Option (List ℕ)
range xs start end =
    if leb start end && leb end (length xs) then some (take (end - start) (drop start xs)) else none

-- The root as the only child of 0, if the storage has it.
abbrev pub root_child : ℕ → Option CompactEntry → List ℕ
root_child root_id none = []
root_child root_id (some _) = root_id ∷ []

abbrev pub as_ids : Option (List ℕ) → Option (Result GraphQueryError (List ℕ))
as_ids none = none
as_ids (some ids) = some (ok ids)

-- The children of an entry, found or not.
abbrev pub ids_below :
    DirectoryGraph → ℕ → Option CompactEntry → Option (Result GraphQueryError (List ℕ))
ids_below g parent_id none = some (err (parent_not_found parent_id))
ids_below g parent_id (some parent) =
    if is_directory parent.kind
    then as_ids (slice g.all_children parent.child_start parent.child_count)
    else some (err (parent_not_directory parent_id))

-- The ids of the children that `parent_id` has; the parent 0 has the root.
unfoldable pub child_ids : DirectoryGraph → ℕ → Option (Result GraphQueryError (List ℕ))
child_ids g parent_id =
    if parent_id == 0
    then some
        (ok (if g.root_id == 0 then [] else root_child g.root_id (storage_get g.storage g.root_id)))
    else ids_below g parent_id (storage_get g.storage parent_id)

-- The evidence of an entry that has no object record.
abbrev pub default_evidence : EntryKind → ℕ × ValueKnowledge ℕ × ExternalReferenceStatus
default_evidence file = (1, not_observed, indeterminate)
default_evidence _ = (1, ValueKnowledge.not_applicable, ExternalReferenceStatus.not_applicable)

abbrev pub object_evidence :
    Option ObjectRecord → Option (ℕ × ValueKnowledge ℕ × ExternalReferenceStatus)
object_evidence none = none
object_evidence (some obj) =
    some (obj.observed_alias_count, obj.total_link_count, obj.external_reference_status)

-- The evidence of an entry: its alias count, link count and external status.
unfoldable pub evidence :
    DirectoryGraph → CompactEntry → Option (ℕ × ValueKnowledge ℕ × ExternalReferenceStatus)
evidence g compact =
    if compact.object_index == no_object
    then some (default_evidence compact.kind)
    else object_evidence (get_elem? g.objects compact.object_index)

abbrev pub kind_number : EntryKind → ℕ
kind_number directory = 1
kind_number file = 2
kind_number special = 3

abbrev pub or_zero : Option ℕ → ℕ
or_zero none = 0
or_zero (some n) = n

abbrev is_known : Option ℕ → Bool
is_known none = false
is_known (some _) = true

abbrev pub stream_proto : StreamBreakdown → ContentStreamProto
stream_proto s = record {
  name = s.name;
  logical_bytes = s.logical_bytes;
  allocated_bytes = or_zero s.allocated_bytes;
  allocated_size_known = is_known s.allocated_bytes;
}

abbrev pub content_streams_of : DirectoryGraph → CompactEntry → List ContentStreamProto
content_streams_of g compact =
    if compact.object_index == no_object
    then []
    else elim (lookup compact.object_index g.object_streams) [
      | none ↦ []
      | some streams ↦ map stream_proto streams
    ]

abbrev pub node_with :
    DirectoryGraph
    → CompactEntry
    → Option (ℕ × ValueKnowledge ℕ × ExternalReferenceStatus)
    → Option DirectoryEntryNode
node_with g compact none = none
node_with g compact (some (aliases, links, status)) = some (record {
  id = compact.id;
  parent_id = compact.parent_id;
  name = compact.name;
  entry_kind = kind_number compact.kind;
  logical_bytes = or_zero compact.logical_size;
  referenced_allocated_bytes = compact.referenced_allocated_bytes;
  allocated_size_known = compact.allocated_size_known;
  child_count = compact.child_count;
  has_children = ltb 0 compact.child_count;
  unique_allocated_bytes = compact.unique_allocated_bytes;
  observed_alias_count = aliases;
  total_link_count = some (link_count_proto links);
  external_reference_status = external_status_proto status;
  known_subtotal_allocated_bytes = compact.known_subtotal_allocated_bytes;
  content_streams = content_streams_of g compact;
})

unfoldable pub node_of : DirectoryGraph → CompactEntry → Option DirectoryEntryNode
node_of g compact = node_with g compact (evidence g compact)

abbrev pub then_cons :
    Option DirectoryEntryNode → Option (List DirectoryEntryNode) → Option (List DirectoryEntryNode)
then_cons none rest = none
then_cons (some node) none = none
then_cons (some node) (some nodes) = some (node ∷ nodes)

-- The closure of the `filter_map`: an id that the storage does not have is left out.
abbrev pub add_node :
    DirectoryGraph
    → Option CompactEntry
    → Option (List DirectoryEntryNode)
    → Option (List DirectoryEntryNode)
add_node g none rest = rest
add_node g (some compact) rest = then_cons (node_of g compact) rest

-- The nodes of a page of ids.
unfoldable pub nodes_of : DirectoryGraph → List ℕ → Option (List DirectoryEntryNode)
nodes_of g [] = some []
nodes_of g (id ∷ ids) = add_node g (storage_get g.storage id) (nodes_of g ids)

-- The ids of a page.
unfoldable pub page_ids : List ℕ → ℕ → ℕ → Option (List ℕ)
page_ids ids offset limit =
    if leb (length ids) offset
    then some []
    else range ids offset (min ((offset + limit) % 2 ^ 64) (length ids))

abbrev pub nodes_at : DirectoryGraph → Option (List ℕ) → Option (List DirectoryEntryNode)
nodes_at g none = none
nodes_at g (some ids) = nodes_of g ids

abbrev pub answer :
    ℕ
    → Option (List DirectoryEntryNode)
    → Option (Result GraphQueryError (ℕ × List DirectoryEntryNode))
answer total_children none = none
answer total_children (some nodes) = some (ok (total_children, nodes))

abbrev pub page :
    DirectoryGraph
    → ℕ
    → ℕ
    → Option (Result GraphQueryError (List ℕ))
    → Option (Result GraphQueryError (ℕ × List DirectoryEntryNode))
page g offset limit none = none
page g offset limit (some (err e)) = some (err e)
page g offset limit (some (ok ids)) = answer (length ids) (nodes_at g (page_ids ids offset limit))

unfoldable pub get_children_page :
    DirectoryGraph → ℕ → ℕ → ℕ → Option (Result GraphQueryError (ℕ × List DirectoryEntryNode))
get_children_page g parent_id offset limit = page g offset limit (child_ids g parent_id)
