-- ===== src/Engine/Objects.antt =====
-- What `compute_aggregates` of crates/pigtree-engine/src/builder.rs derives for one file object
-- from its aliases: the link count, the allocation weight and the external status.
pub mod Equal
pub mod Links
pub mod Weight
use pig_tree.Base.{
  ℕ, Option, none, some, List, [], ◌∷◌, Bool, true, false, not, ◌||◌, min, length, ◌==◌,
  if◌then◌else◌,
}
use pig_tree.Protocol.Observation.{
  ObjectIdentity, ValueKnowledge, known, not_observed, unavailable, ExternalReferenceStatus,
  inconsistent_evidence,
}
use pig_tree.Protocol.Observation.Status.{derive}
use pig_tree.Engine.Builder.{as_u32}
use pig_tree.Engine.Graph.{ObjectRecord}

-- The variables of the loop over the link counts of the aliases.
pub record LinkState : Type 0 where
  pub resolved_link : ValueKnowledge ℕ
  pub has_link_conflict : Bool
  pub first_known_link : Option ℕ

abbrev pub start_links : LinkState
start_links = record {
  resolved_link = not_observed;
  has_link_conflict = false;
  first_known_link = none;
}

abbrev pub is_unavailable : ValueKnowledge ℕ → Bool
is_unavailable unavailable = true
is_unavailable _ = false

-- One turn of the loop, by the first known link so far and the link of the alias.
abbrev pub see_link : ValueKnowledge ℕ → Bool → Option ℕ → ValueKnowledge ℕ → LinkState
see_link resolved conflict none (known k) = record {
  resolved_link = known k;
  has_link_conflict = conflict;
  first_known_link = some k;
}
see_link resolved conflict (some prev) (known k) = record {
  resolved_link = resolved;
  has_link_conflict = if prev == k then conflict else true;
  first_known_link = some prev;
}
see_link resolved conflict none unavailable = record {
  resolved_link = unavailable;
  has_link_conflict = conflict;
  first_known_link = none;
}
see_link resolved conflict none ValueKnowledge.not_applicable = record {
  resolved_link = if is_unavailable resolved then resolved else ValueKnowledge.not_applicable;
  has_link_conflict = conflict;
  first_known_link = none;
}
see_link resolved conflict first _ = record {
  resolved_link = resolved;
  has_link_conflict = conflict;
  first_known_link = first;
}

unfoldable pub see_links : LinkState → List (ValueKnowledge ℕ) → LinkState
see_links s [] = s
see_links s (link ∷ links) =
    see_links (see_link s.resolved_link s.has_link_conflict s.first_known_link link) links

-- The variables of the loop over the allocations of the aliases.
pub record AllocState : Type 0 where
  pub min_alloc : Option ℕ
  pub has_alloc_conflict : Bool
  pub first_alloc : Option ℕ

abbrev pub start_allocs : AllocState
start_allocs = record { min_alloc = none; has_alloc_conflict = false; first_alloc = none }

abbrev map_or_min : Option ℕ → ℕ → ℕ
map_or_min none alloc = alloc
map_or_min (some m) alloc = min m alloc

abbrev pub see_alloc : AllocState → Option ℕ → AllocState
see_alloc s none = s
see_alloc s (some alloc) = record {
  min_alloc = some (map_or_min s.min_alloc alloc);
  has_alloc_conflict = elim (s.first_alloc) [
    | none ↦ s.has_alloc_conflict
    | some prev ↦ if prev == alloc then s.has_alloc_conflict else true
  ];
  first_alloc = elim (s.first_alloc) [ none ↦ some alloc | some prev ↦ some prev ];
}

unfoldable pub see_allocs : AllocState → List (Option ℕ) → AllocState
see_allocs s [] = s
see_allocs s (alloc ∷ allocs) = see_allocs (see_alloc s alloc) allocs

abbrev pub unwrap_or_zero : Option ℕ → ℕ
unwrap_or_zero none = 0
unwrap_or_zero (some n) = n

-- The record of an object, from the link count and the allocation of each alias. What the loop does
-- to the entries of the aliases (their `object_index`, and `allocated_size_known` on a conflict) is
-- not part of it.
unfoldable pub object_record :
    ObjectIdentity → List (ValueKnowledge ℕ) → List (Option ℕ) → ObjectRecord
object_record oid links allocs =
    let observed_count = as_u32 (length links) in
    let state = see_links start_links links in
    record {
      identity = some oid;
      observed_alias_count = observed_count;
      total_link_count = state.resolved_link;
      external_reference_status =
          if state.has_link_conflict
          then inconsistent_evidence
          else derive state.resolved_link observed_count;
      weight = unwrap_or_zero (see_allocs start_allocs allocs).min_alloc;
    }
