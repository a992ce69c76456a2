-- ===== src/Engine/Graph.antt =====
-- The directory graph of crates/pigtree-engine/src/graph.rs. A `u32` or `u64` is a number, a
-- `String` the list of its bytes, a `Vec` a list.
pub mod Page
pub mod Entry
use pig_tree.Base.{
  ℕ, ◌+◌, ◌-◌, Option, none, some, List, [], ◌∷◌, Bool, true, false, get_elem?, length,
}
use pig_tree.Base.{ltb, leb, ◌==◌, if◌then◌else◌, take, drop, not, min, Result, ok, err}
use pig_tree.Base.Dict.{Dict, lookup, nat_eq}
use pig_tree.Protocol.Observation.{
  ObjectIdentity, ValueKnowledge, not_observed, ExternalReferenceStatus, CoverageGapObservation,
  TerminalObservation,
}
use pig_tree.Protocol.Observation.Status.{derive}

abbrev pub no_object : ℕ
no_object = 0xffff_ffff

pub data EntryKind : Type 0 where
  directory file special : EntryKind

abbrev pub is_directory : EntryKind → Bool
is_directory directory = true
is_directory _ = false

abbrev pub is_file : EntryKind → Bool
is_file file = true
is_file _ = false

pub record ObjectRecord : Type 0 where
  pub identity : Option ObjectIdentity
  pub observed_alias_count : ℕ
  pub total_link_count : ValueKnowledge ℕ
  pub external_reference_status : ExternalReferenceStatus
  pub weight : ℕ

pub record StreamBreakdown : Type 0 where
  pub name : List ℕ
  pub logical_bytes : ℕ
  pub allocated_bytes : Option ℕ

pub record CompactEntry : Type 0 where
  pub id : ℕ
  pub parent_id : ℕ
  pub name : List ℕ
  pub kind : EntryKind
  pub allocated_size_known : Bool
  pub logical_size : Option ℕ
  pub allocated_size : Option ℕ
  pub referenced_allocated_bytes : ℕ
  pub unique_allocated_bytes : ℕ
  pub known_subtotal_allocated_bytes : ℕ
  pub object_index : ℕ
  pub file_attributes : ℕ
  pub reparse_tag : ℕ
  pub child_start : ℕ
  pub child_count : ℕ
  pub creation_time_utc_ms : ℕ
  pub last_write_time_utc_ms : ℕ
  pub last_access_time_utc_ms : ℕ

pub data EntryStorage : Type 0 where
  dense : List CompactEntry → EntryStorage
  sparse : List CompactEntry → Dict ℕ ℕ → EntryStorage

abbrev pub stored : EntryStorage → List CompactEntry
stored (dense entries) = entries
stored (sparse entries id_to_idx) = entries

-- `EntryStorage::len`.
abbrev pub storage_len : EntryStorage → ℕ
storage_len storage = length (stored storage)

abbrev pub at_index : List CompactEntry → Option ℕ → Option CompactEntry
at_index entries none = none
at_index entries (some idx) = get_elem? entries idx

abbrev pub get_some_id : EntryStorage → ℕ → Option CompactEntry
get_some_id (dense entries) id = get_elem? entries (id - 1)
get_some_id (sparse entries id_to_idx) id = at_index entries (lookup id id_to_idx)

-- `EntryStorage::get`; the test on 0 is why `id - 1` does not stop at 0.
unfoldable pub storage_get : EntryStorage → ℕ → Option CompactEntry
storage_get storage id = if id == 0 then none else get_some_id storage id

pub record GraphEntry : Type 0 where
  pub id : ℕ
  pub parent_id : ℕ
  pub name : List ℕ
  pub kind : EntryKind
  pub logical_size : Option ℕ
  pub allocated_size : Option ℕ
  pub allocated_size_known : Bool
  pub referenced_allocated_bytes : ℕ
  pub unique_allocated_bytes : ℕ
  pub known_subtotal_allocated_bytes : ℕ
  pub object_id : Option ObjectIdentity
  pub observed_alias_count : ℕ
  pub total_link_count : ValueKnowledge ℕ
  pub external_reference_status : ExternalReferenceStatus
  pub file_attributes : ℕ
  pub reparse_tag : ℕ
  pub creation_time_utc_ms : ℕ
  pub last_write_time_utc_ms : ℕ
  pub last_access_time_utc_ms : ℕ
  pub children : List ℕ

pub data GraphQueryError : Type 0 where
  parent_not_found parent_not_directory : ℕ → GraphQueryError

pub record DirectoryGraph : Type 0 where
  pub root_target : List ℕ
  pub root_id : ℕ
  pub storage : EntryStorage
  pub all_children : List ℕ
  pub objects : List ObjectRecord
  pub object_streams : Dict ℕ (List StreamBreakdown)
  pub gaps : List CoverageGapObservation
  pub terminal : TerminalObservation
  pub allocated_bytes_known : Bool
  pub indeterminate_external_reference_objects : ℕ
