-- ===== src/Engine/Graph/Entry/Agreement.antt =====
-- A projected entry says the same as the node of it in a page of children.
use pig_tree.Base.{
  ℕ, ◌≡◌, refl, ap, sym, ◌∙◌, Option, none, some, List, get_elem?, ◌==◌, inl, inr, Bool-cases,
}
use pig_tree.Protocol.Observation.{ValueKnowledge, ExternalReferenceStatus}
use pig_tree.Protocol.Observation.Status.{derive}
use pig_tree.Protocol.Protobuf.{DirectoryEntryNode, link_count_proto, external_status_proto}
use pig_tree.Engine.Graph.{
  no_object, EntryKind, directory, file, special, ObjectRecord, CompactEntry, GraphEntry,
  DirectoryGraph,
}
use pig_tree.Engine.Graph.Page.{default_evidence, object_evidence, evidence, node_with, node_of}
use pig_tree.Engine.Graph.Entry.{
  Facts, default_facts, object_facts, facts, children_of, project_with, project_graph_entry,
}

-- What both answers take from the object of the entry.
abbrev forget : Option Facts → Option (ℕ × ValueKnowledge ℕ × ExternalReferenceStatus)
forget none = none
forget (some (identity, aliases, links, status)) = some (aliases, links, status)

default-forget : (k : EntryKind) → some (default_evidence k) ≡ forget (some (default_facts k))
unfolding derive
default-forget directory = refl
default-forget file = refl
default-forget special = refl

object-forget : (o : Option ObjectRecord) → object_evidence o ≡ forget (object_facts o)
object-forget none = refl
object-forget (some o) = refl

evidence-forget : (g : DirectoryGraph) (c : CompactEntry) → evidence g c ≡ forget (facts g c)
unfolding evidence facts
evidence-forget g c = elim (Bool-cases (c.object_index == no_object)) [
  | inl no_record ↦ rw no_record (default-forget c.kind)
  | inr has_record ↦ rw has_record (object-forget (get_elem? g.objects c.object_index))
]

-- The evidence of a node is that of an entry.
abbrev Agrees : DirectoryEntryNode → GraphEntry → Type 0
Agrees n e =
    (n.observed_alias_count ≡ e.observed_alias_count)
    × (n.total_link_count ≡ some (link_count_proto e.total_link_count))
    × (n.external_reference_status ≡ external_status_proto e.external_reference_status)

abbrev node_or : DirectoryEntryNode → Option DirectoryEntryNode → DirectoryEntryNode
node_or n none = n
node_or n (some m) = m

abbrev entry_or : GraphEntry → Option GraphEntry → GraphEntry
entry_or e none = e
entry_or e (some d) = d

project_with-Agrees :
    (g : DirectoryGraph) (c : CompactEntry) (children : Option (List ℕ)) (f : Option Facts)
    (n : DirectoryEntryNode) (e : GraphEntry)
    → node_with g c (forget f) ≡ some n
    → project_with c children f ≡ some e
    → Agrees n e
project_with-Agrees g c none f n e hn he = absurd cc
project_with-Agrees g c (some children) none n e hn he = absurd cc
project_with-Agrees g c (some children) (some (identity, aliases, links, status)) n e hn he =
    let en = ap (λ (o : Option DirectoryEntryNode). node_or n o) hn in
    let ee = ap (λ (o : Option GraphEntry). entry_or e o) he in
    (
      ap (λ (x : DirectoryEntryNode). x.observed_alias_count) (sym en)
          ∙ ap (λ (x : GraphEntry). x.observed_alias_count) ee,
      ap (λ (x : DirectoryEntryNode). x.total_link_count) (sym en)
          ∙ ap (λ (x : GraphEntry). some (link_count_proto x.total_link_count)) ee,
      ap (λ (x : DirectoryEntryNode). x.external_reference_status) (sym en)
          ∙ ap (λ (x : GraphEntry). external_status_proto x.external_reference_status) ee,
    )

-- When a page shows a node for an entry and the entry is projected, both have the same alias
-- count, link count and external status.
pub node_of-project_graph_entry :
    (g : DirectoryGraph) (c : CompactEntry) (n : DirectoryEntryNode) (e : GraphEntry)
    → node_of g c ≡ some n
    → project_graph_entry g c ≡ some e
    → (n.observed_alias_count ≡ e.observed_alias_count)
      × (n.total_link_count ≡ some (link_count_proto e.total_link_count))
      × (n.external_reference_status ≡ external_status_proto e.external_reference_status)
unfolding node_of project_graph_entry
node_of-project_graph_entry g c n e hn he =
    project_with-Agrees g c (children_of g c) (facts g c) n e (rw (evidence-forget g c) at hn) he
