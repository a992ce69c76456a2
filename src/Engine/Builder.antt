-- ===== src/Engine/Builder.antt =====
-- `GraphBuilder` of crates/pigtree-engine/src/builder.rs: the ingestion of observation records.
-- A method on `&mut self` takes the builder to its result and the builder it leaves, an error
-- included.
pub mod Index
pub mod Linked
pub mod Aligned
pub mod Invariant
pub mod Insert
pub mod Validate
use pig_tree.Base.{
  ℕ, ◌+◌, ◌-◌, ◌%◌, ◌^◌, Option, none, some, List, [], ◌∷◌, ◌++◌, Bool, true, false, not, ◌&&◌,
  ◌||◌, get_elem?, get_or, set, length, min, ltb, leb, ◌==◌, if◌then◌else◌, Result, ok, err,
}
use pig_tree.Base.Dict.{Dict, Eq, lookup, insert, nat_eq}
use pig_tree.Protocol.Observation.{
  ObjectIdentity, ValueKnowledge, not_observed, CoverageGapObservation, TerminalObservation,
  DirectoryObservation, FileObservation, SpecialObservation, StreamObservation, ObservationRecord,
  directory_record, file_record, special_record, stream_record, gap_record, terminal_record,
  ObservationDecodeError,
}
use pig_tree.Engine.Graph.{
  no_object, EntryKind, directory, file, special, is_directory, StreamBreakdown, CompactEntry,
}

-- The field that a terminal record and the builder disagree on.
pub data Field : Type 0 where
  total_directories total_files total_logical_bytes total_allocated_bytes coverage_gap_count : Field

pub data GraphBuildError : Type 0 where
  invalid_root missing_parent parent_not_directory : ℕ → ℕ → GraphBuildError
  duplicate_entry_id self_parent unknown_stream_parent : ℕ → GraphBuildError
  record_after_terminal duplicate_terminal missing_terminal : GraphBuildError
  aggregate_mismatch : Field → ℕ → ℕ → GraphBuildError
  decode : ObservationDecodeError → GraphBuildError

abbrev pub max_u32 : ℕ
max_u32 = 0xffff_ffff

abbrev pub max_u64 : ℕ
max_u64 = 0xffff_ffff_ffff_ffff

-- `n as u32` of a `usize`.
abbrev pub as_u32 : ℕ → ℕ
as_u32 n = n % 2 ^ 32

abbrev pub saturating_add : ℕ → ℕ → ℕ
saturating_add a b = min (a + b) max_u64

abbrev pub unwrap_or_zero : Option ℕ → ℕ
unwrap_or_zero none = 0
unwrap_or_zero (some n) = n

pub record GraphBuilder : Type 0 where
  pub root_target : List ℕ
  pub entries : List CompactEntry
  pub is_dense : Bool
  pub id_to_idx : Dict ℕ ℕ
  pub first_child : List ℕ
  pub last_child : List ℕ
  pub next_sibling : List ℕ
  pub file_object_map : Dict ObjectIdentity (List ℕ)
  pub dir_object_ids : Dict ℕ ObjectIdentity
  pub file_link_counts : Dict ℕ (ValueKnowledge ℕ)
  pub dir_self_alloc : List ℕ
  pub pending_streams : List (ℕ × StreamBreakdown)
  pub object_streams : Dict ℕ (List StreamBreakdown)
  pub gaps : List CoverageGapObservation
  pub terminal : Option TerminalObservation
  pub dir_count : ℕ
  pub file_count : ℕ
  pub special_count : ℕ
  pub logical_bytes : ℕ
  pub allocated_bytes : ℕ
  pub allocated_bytes_known : Bool
  pub current_dir_id : ℕ

unfoldable pub new : List ℕ → GraphBuilder
new root_target = record {
  root_target = root_target;
  entries = [];
  is_dense = true;
  id_to_idx = [];
  first_child = [];
  last_child = [];
  next_sibling = [];
  file_object_map = [];
  dir_object_ids = [];
  file_link_counts = [];
  dir_self_alloc = [];
  pending_streams = [];
  object_streams = [];
  gaps = [];
  terminal = none;
  dir_count = 0;
  file_count = 0;
  special_count = 0;
  logical_bytes = 0;
  allocated_bytes = 0;
  allocated_bytes_known = true;
  current_dir_id = 0;
}

abbrev pub Build : Type 0
Build = GraphBuilder → Result GraphBuildError (Unit {0}) × GraphBuilder

-- The loop that fills `id_to_idx` with the entries from index `i` on.
unfoldable pub index_from : ℕ → List CompactEntry → Dict ℕ ℕ → Dict ℕ ℕ
index_from i [] id_to_idx = id_to_idx
index_from i (entry ∷ entries) id_to_idx =
    index_from (i + 1) entries (insert entry.id (as_u32 i) id_to_idx)

-- An id out of sequence switches the builder to sparse mode.
unfoldable pub switch_mode : ℕ → GraphBuilder → GraphBuilder
switch_mode id b =
    if b.is_dense && not (id == as_u32 (length b.entries + 1))
    then record b { is_dense = false; id_to_idx = index_from 0 b.entries b.id_to_idx }
    else b

abbrev is_some : Option ℕ → Bool
is_some none = false
is_some (some _) = true

unfoldable pub is_duplicate : ℕ → GraphBuilder → Bool
is_duplicate id b =
    if b.is_dense then leb id (as_u32 (length b.entries)) else is_some (lookup id b.id_to_idx)

unfoldable pub parent_index : ℕ → GraphBuilder → Option ℕ
parent_index parent_id b =
    if b.is_dense
    then (if ltb (as_u32 (length b.entries)) parent_id then none else some (parent_id - 1))
    else lookup parent_id b.id_to_idx

-- Is `entries[idx]` a directory? Out of range, where the code would panic, it is not.
abbrev pub directory_at : List CompactEntry → ℕ → Bool
directory_at entries idx = elim (get_elem? entries idx) [
  | none ↦ false
  | some entry ↦ is_directory entry.kind
]

-- The new entry, at `curr_idx`, becomes the last child of its parent.
unfoldable pub link_child : ℕ → ℕ → GraphBuilder → GraphBuilder
link_child parent_idx curr_idx b =
    if get_or b.first_child parent_idx max_u32 == max_u32
    then record b {
      first_child = set b.first_child parent_idx (as_u32 curr_idx);
      last_child = set b.last_child parent_idx (as_u32 curr_idx);
    }
    else record b {
      next_sibling = set b.next_sibling (get_or b.last_child parent_idx max_u32) (as_u32 curr_idx);
      last_child = set b.last_child parent_idx (as_u32 curr_idx);
    }

unfoldable pub push_entry : ℕ → CompactEntry → ℕ → GraphBuilder → GraphBuilder
push_entry id entry self_alloc b = record b {
  id_to_idx = if b.is_dense then b.id_to_idx else insert id (as_u32 (length b.entries)) b.id_to_idx;
  entries = b.entries ++ (entry ∷ []);
  dir_self_alloc = b.dir_self_alloc ++ (self_alloc ∷ []);
  first_child = b.first_child ++ (max_u32 ∷ []);
  last_child = b.last_child ++ (max_u32 ∷ []);
  next_sibling = b.next_sibling ++ (max_u32 ∷ []);
}

-- Behind the first entry: the checks from the mode switch on.
unfoldable pub insert_below : ℕ → ℕ → CompactEntry → ℕ → Build
insert_below id parent_id entry self_alloc b =
    if is_duplicate id b
    then (err (duplicate_entry_id id), b)
    else elim (parent_index parent_id b) [
      | none ↦ (err (missing_parent id parent_id), b)
      | some parent_idx ↦
          if directory_at b.entries parent_idx
          then (ok tt, push_entry id entry self_alloc (link_child parent_idx (length b.entries) b))
          else (err (parent_not_directory id parent_id), b)
    ]

unfoldable pub validate_and_insert_entry : ℕ → ℕ → CompactEntry → ℕ → Build
validate_and_insert_entry id parent_id entry self_alloc b =
    if id == parent_id
    then (err (self_parent id), b)
    else if length b.entries == 0
    then (if not (id == 1) || not (parent_id == 0) || not (is_directory entry.kind)
        then (err (invalid_root id parent_id), b)
        else (ok tt, push_entry id entry self_alloc b))
    else if parent_id == 0 || id == 1
    then (err (invalid_root id parent_id), b)
    else insert_below id parent_id entry self_alloc (switch_mode id b)
