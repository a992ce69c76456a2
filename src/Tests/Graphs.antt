-- ===== src/Tests/Graphs.antt =====
-- A page of children at a concrete graph.
use pig_tree.Base.{
  ℕ, zero, suc, ◌+◌, ◌-◌, ◌≤◌, ◌≡◌, ◌==◌, refl, get_elem?, Bool-cases, inl, inr, List, [], ◌∷◌,
  ◌++◌, true, false, some, none, Result, ok, arith,
}
use pig_tree.Protocol.Protobuf.{DirectoryEntryNode}
use pig_tree.Engine.Graph.{
  CompactEntry, dense, no_object, storage_get, GraphQueryError, DirectoryGraph,
}
use pig_tree.Engine.Graph.Page.{get_children_page, child_ids, nodes_of, page_ids, node_of, evidence}
use pig_tree.Protocol.Observation.{not_observed, indeterminate}
use pig_tree.Protocol.Observation.Status.{derive}
use pig_tree.Protocol.Protobuf.{link_count_proto, external_status_proto}
use pig_tree.Engine.Graph.{GraphEntry, file}
use pig_tree.Engine.Graph.Entry.{project_graph_entry, children_of, facts, entry, streams_for_entry}
use pig_tree.Engine.Graph.Entry.Agreement.{node_of-project_graph_entry}
use pig_tree.Engine.Graph.Page.Paging.{pages-add}
use pig_tree.Engine.Graph.Page.Total.{IsGraph, get_children_page-answers}
use pig_tree.Engine.Ingest.{directory_entry, file_entry}
use pig_tree.Tests.Data.{target, root, leaf, totals}

abbrev top : CompactEntry
top = record (directory_entry root) { child_count = 1 }

abbrev graph : DirectoryGraph
graph = record {
  root_target = target;
  root_id = 1;
  storage = dense (top ∷ file_entry leaf ∷ []);
  all_children = 2 ∷ [];
  objects = [];
  object_streams = [];
  gaps = [];
  terminal = totals;
  allocated_bytes_known = true;
  indeterminate_external_reference_objects = 1;
}

nth :
    (n : ℕ) (e : CompactEntry)
    → get_elem? (top ∷ file_entry leaf ∷ []) n ≡ some e
    → (e.child_start ≡ 0) × ((e.child_count ≤ 1) × (e.object_index ≡ no_object))
nth zero e h = let same : e ≡ top = cc in rw same (refl, (omega arith, refl))
nth (suc zero) e h = let same : e ≡ file_entry leaf = cc in rw same (refl, (omega arith, refl))
nth (suc (suc n)) e h = absurd cc

found :
    (id : ℕ) (e : CompactEntry)
    → storage_get graph.storage id ≡ some e
    → (e.child_start ≡ 0) × ((e.child_count ≤ 1) × (e.object_index ≡ no_object))
unfolding storage_get
found id e h = elim (Bool-cases (id == 0)) [
  | inl z ↦ absurd (ground arith)
  | inr nz ↦ nth (id - 1) e (rw nz at h)
]

graph-IsGraph : IsGraph graph
graph-IsGraph = record {
  children = λ id e h dir. let (start, (count, _)) = found id e h in omega arith;
  objects = λ id e h ne. let (_, (_, object)) = found id e h in absurd (ne object);
}

get_children_page-answers_example :
    (r : Result GraphQueryError (ℕ × List DirectoryEntryNode)) × (get_children_page graph 1 0 10
      ≡ some r)
get_children_page-answers_example =
    get_children_page-answers graph graph-IsGraph 1 0 10 (omega arith)

abbrev node : DirectoryEntryNode
node = record {
  id = 2;
  parent_id = 1;
  name = 97 ∷ [];
  entry_kind = 2;
  logical_bytes = 10;
  referenced_allocated_bytes = 512;
  allocated_size_known = true;
  child_count = 0;
  has_children = false;
  unique_allocated_bytes = 512;
  observed_alias_count = 1;
  total_link_count = some (record { status = 2; count = 0 });
  external_reference_status = 3;
  known_subtotal_allocated_bytes = 512;
  content_streams = [];
}

first_page : get_children_page graph 1 0 1 ≡ some (ok (1, node ∷ []))
unfolding get_children_page child_ids storage_get nodes_of page_ids node_of evidence
first_page = refl

second_page : get_children_page graph 1 1 4 ≡ some (ok (1, []))
unfolding get_children_page child_ids storage_get nodes_of page_ids node_of evidence
second_page = refl

pages-add_example :
    (get_children_page graph 1 0 (1 + 4) ≡ some (ok (1, (node ∷ []) ++ []))) × (◌≡◌ {A = ℕ} 1 1)
pages-add_example = pages-add graph 1 0 1 4 1 1 (node ∷ []) [] (omega arith) first_page second_page

abbrev shown : GraphEntry
shown = record {
  id = 2;
  parent_id = 1;
  name = 97 ∷ [];
  kind = file;
  logical_size = some 10;
  allocated_size = some 512;
  allocated_size_known = true;
  referenced_allocated_bytes = 512;
  unique_allocated_bytes = 512;
  known_subtotal_allocated_bytes = 512;
  object_id = none;
  observed_alias_count = 1;
  total_link_count = not_observed;
  external_reference_status = indeterminate;
  file_attributes = 32;
  reparse_tag = 0;
  creation_time_utc_ms = 5;
  last_write_time_utc_ms = 6;
  last_access_time_utc_ms = 7;
  children = [];
}

as_node : node_of graph (file_entry leaf) ≡ some node
unfolding node_of evidence
as_node = refl

as_shown : project_graph_entry graph (file_entry leaf) ≡ some shown
unfolding project_graph_entry children_of facts derive
as_shown = refl

leaf_found : entry graph 2 ≡ some (some shown)
unfolding entry storage_get project_graph_entry children_of facts derive
leaf_found = refl

no_streams : streams_for_entry graph 2 ≡ []
unfolding streams_for_entry storage_get
no_streams = refl

node_of-project_graph_entry_example :
    (node.observed_alias_count ≡ shown.observed_alias_count)
    × (node.total_link_count ≡ some (link_count_proto shown.total_link_count))
    × (node.external_reference_status ≡ external_status_proto shown.external_reference_status)
node_of-project_graph_entry_example =
    node_of-project_graph_entry graph (file_entry leaf) node shown as_node as_shown
