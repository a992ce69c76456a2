-- ===== src/Engine/Graph/Page/Total.antt =====
-- That a page of children is answered: no index or slice of it is out of range.
use pig_tree.Base.{
  ℕ, zero, suc, ◌+◌, ◌^◌, take, drop, ◌≤◌, ◌<◌, ◌≡◌, ◌≢◌, refl, Option, none, some, List, [], ◌∷◌,
  true, length, get_elem?, leb, ◌==◌, arith, inl, inr, Bool-cases, Result, ok, err,
}
use pig_tree.Protocol.Protobuf.{DirectoryEntryNode}
use pig_tree.Protocol.Observation.{ValueKnowledge, ExternalReferenceStatus}
use pig_tree.Engine.Graph.{
  ObjectRecord, CompactEntry, is_directory, no_object, storage_get, GraphQueryError, DirectoryGraph,
}
use pig_tree.Engine.Graph.Page.Paging.{page_ids-eq}
use pig_tree.Engine.Graph.Page.{
  child_ids, slice, evidence, node_of, add_node, then_cons, nodes_of, node_with, object_evidence,
  as_ids, ids_below, answer, page, get_children_page,
}

-- What the slices and the indices of a page rely on.
pub record IsGraph (g : DirectoryGraph) : Type 0 where
  pub children :
      (id : ℕ) (e : CompactEntry)
      → storage_get g.storage id ≡ some e
      → is_directory e.kind ≡ true
      → e.child_start + e.child_count ≤ length g.all_children
  pub objects :
      (id : ℕ) (e : CompactEntry)
      → storage_get g.storage id ≡ some e
      → e.object_index ≢ no_object
      → e.object_index < length g.objects

abbrev IsSome {ℓ} : {A : Type ℓ} → Option A → Type ℓ
IsSome {A = A} o = (x : A) × (o ≡ some x)

get_elem?-IsSome {ℓ} :
    {A : Type ℓ} → (xs : List A) (i : ℕ) → i < length xs → IsSome (get_elem? xs i)
get_elem?-IsSome [] i h = absurd (omega arith)
get_elem?-IsSome (x ∷ xs) zero h = (x, refl)
get_elem?-IsSome (x ∷ xs) (suc i) h = get_elem?-IsSome xs i (omega arith)

node_with-IsSome :
    (g : DirectoryGraph) (e : CompactEntry)
    (v : Option (ℕ × ValueKnowledge ℕ × ExternalReferenceStatus))
    → IsSome v
    → IsSome (node_with g e v)
node_with-IsSome g e none (x, hx) = cc
node_with-IsSome g e (some v) (x, hx) = (_, refl)

object_evidence-IsSome : (o : Option ObjectRecord) → IsSome o → IsSome (object_evidence o)
object_evidence-IsSome none (x, hx) = cc
object_evidence-IsSome (some o) (x, hx) = (_, refl)

then_cons-IsSome :
    (n : Option DirectoryEntryNode) (ns : Option (List DirectoryEntryNode))
    → IsSome n
    → IsSome ns
    → IsSome (then_cons n ns)
then_cons-IsSome n ns (x, hx) (xs, hxs) = (x ∷ xs, rw (hx, hxs))

as_ids-IsSome : (o : Option (List ℕ)) → IsSome o → IsSome (as_ids o)
as_ids-IsSome none (x, hx) = cc
as_ids-IsSome (some ids) (x, hx) = (_, refl)

slice-IsSome :
    (xs : List ℕ) (start count : ℕ) → start + count ≤ length xs → IsSome (slice xs start count)
slice-IsSome xs start count h =
    let within : leb (start + count) (length xs) ≡ true = ground arith in rw within (_, refl)

answer-IsSome : (t : ℕ) (o : Option (List DirectoryEntryNode)) → IsSome o → IsSome (answer t o)
answer-IsSome t none (x, hx) = cc
answer-IsSome t (some ids) (x, hx) = (_, refl)

module _ (g : DirectoryGraph) (h : IsGraph g) where
  evidence-IsSome :
      (id : ℕ) (e : CompactEntry) → storage_get g.storage id ≡ some e → IsSome (evidence g e)
  unfolding evidence
  evidence-IsSome id e found = elim (Bool-cases (e.object_index == no_object)) [
    | inl no_record ↦ rw no_record (_, refl)
    | inr has_record ↦ rw has_record (
        object_evidence-IsSome (get_elem? g.objects e.object_index)
          (get_elem?-IsSome g.objects e.object_index (h.objects id e found (λ eq. ground arith))))
  ]

  add_node-IsSome :
      (id : ℕ) (o : Option CompactEntry) (ns : Option (List DirectoryEntryNode))
      → storage_get g.storage id ≡ o
      → IsSome ns
      → IsSome (add_node g o ns)
  unfolding node_of
  add_node-IsSome id none ns found hns = hns
  add_node-IsSome id (some e) ns found hns =
      then_cons-IsSome (node_of g e) ns
        (node_with-IsSome g e (evidence g e) (evidence-IsSome id e found)) hns

  nodes_of-IsSome : (ids : List ℕ) → IsSome (nodes_of g ids)
  unfolding nodes_of
  nodes_of-IsSome [] = ([], refl)
  nodes_of-IsSome (id ∷ ids) =
      add_node-IsSome id (storage_get g.storage id) (nodes_of g ids) refl (nodes_of-IsSome ids)

  ids_below-IsSome :
      (id : ℕ) (o : Option CompactEntry) → storage_get g.storage id ≡ o → IsSome (ids_below g id o)
  ids_below-IsSome id none found = (_, refl)
  ids_below-IsSome id (some e) found = elim (Bool-cases (is_directory e.kind)) [
    | inl dir ↦ rw dir (
        as_ids-IsSome (slice g.all_children e.child_start e.child_count)
          (slice-IsSome g.all_children e.child_start e.child_count (h.children id e found dir)))
    | inr other ↦ rw other (_, refl)
  ]

  child_ids-IsSome : (parent_id : ℕ) → IsSome (child_ids g parent_id)
  unfolding child_ids
  child_ids-IsSome parent_id = elim (Bool-cases (parent_id == 0)) [
    | inl top ↦ rw top (_, refl)
    | inr below ↦ rw below (ids_below-IsSome parent_id (storage_get g.storage parent_id) refl)
  ]

  page-IsSome :
      (offset limit : ℕ) (r : Option (Result GraphQueryError (List ℕ)))
      → offset + limit < 2 ^ 64
      → IsSome r
      → IsSome (page g offset limit r)
  page-IsSome offset limit none fits (x, hx) = cc
  page-IsSome offset limit (some (err e)) fits h' = (_, refl)
  page-IsSome offset limit (some (ok ids)) fits h' = rw (page_ids-eq ids offset limit fits) (
      answer-IsSome (length ids) (nodes_of g (take limit (drop offset ids)))
        (nodes_of-IsSome (take limit (drop offset ids))))

  -- In a graph whose child ranges and object indices are in range, `get_children_page` answers
  -- every request whose offset and limit have a sum that fits a 64-bit `usize`: no slice and no
  -- index of it panics.
  pub get_children_page-answers :
      (parent_id offset limit : ℕ)
      → offset + limit < 2 ^ 64
      → (r : Result GraphQueryError (ℕ × List DirectoryEntryNode)) × (get_children_page g parent_id
            offset limit
          ≡ some r)
  unfolding get_children_page
  get_children_page-answers parent_id offset limit fits =
      page-IsSome offset limit (child_ids g parent_id) fits (child_ids-IsSome parent_id)
