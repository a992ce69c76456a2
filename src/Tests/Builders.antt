-- ===== src/Tests/Builders.antt =====
-- The builder at concrete inputs.
use pig_tree.Base.{◌≤◌, get_elem?}
use pig_tree.Base.{
  ◌+◌, ◌^◌, ◌<◌, ◌≡◌, ◌↔◌, refl, List, [], ◌∷◌, false, some, none, ok, err, arith, length,
}
use pig_tree.Protocol.Observation.{
  ObservationRecord, directory_record, file_record, terminal_record, confirmed_external, known,
  not_observed, ObjectIdentity,
}
use pig_tree.Base.Dict.{lookup, insert}
use pig_tree.Engine.Graph.{at_index, storage_get}
use pig_tree.Engine.Builder.{
  GraphBuilder, record_after_terminal, new, validate_and_insert_entry, switch_mode, push_entry,
  link_child, insert_below, is_duplicate, parent_index, index_from,
}
use pig_tree.Engine.Builder.Index.{find_id}
use pig_tree.Engine.Builder.Invariant.{IsBuilder}
use pig_tree.Engine.Builder.Insert.{admit, entries_after}
use pig_tree.Engine.Builder.Validate.{validate-admit}
use pig_tree.Engine.Ingest.Path.{reconstruct_path, components_from, entry_on_path, max_depth}
use pig_tree.Engine.Ingest.Path.Depth.{components_from-max_depth}
use pig_tree.Engine.Ingest.{
  directory_entry, file_entry, ingest_record, ingest_directory, ingest_file, ingest_terminal,
  storage_get_idx,
}
use pig_tree.Engine.Ingest.Terminal.{Answer, ingest_record-Answer, after_terminal}
use pig_tree.Engine.Ingest.Invariant.{ingest_record-IsBuilder, new-IsBuilder}
use pig_tree.Engine.Ingest.Storage.{storage_of}
use pig_tree.Engine.Load.Lookup.{storage_get_idx-ingest_all, storage_get-ingest_all}
use pig_tree.Engine.Load.{ingest_all}
use pig_tree.Engine.Load.Growth.{ingest_all-IsBuilder}
use pig_tree.Engine.Objects.{start_allocs, see_allocs, object_record}
use pig_tree.Engine.Objects.Equal.{AllEqual}
use pig_tree.Engine.Objects.Links.{External, known_links, object-External_iff}
use pig_tree.Engine.Objects.Weight.{known_allocs, alloc_conflict_iff, IsWeight, weight-IsWeight}
use pig_tree.Tests.Data.{target, root, leaf, totals, run, with_root, with_leaf}

start_room : length (new target).entries + 1 < 2 ^ 32
unfolding new
start_room = omega arith

with_root-IsBuilder : IsBuilder with_root
with_root-IsBuilder =
    ingest_record-IsBuilder (directory_record root) (new target) (new-IsBuilder target) start_room

with_root-room : length with_root.entries + 1 < 2 ^ 32
unfolding ingest_record ingest_directory validate_and_insert_entry push_entry new
with_root-room = omega arith

with_leaf-IsBuilder : IsBuilder with_leaf
with_leaf-IsBuilder =
    ingest_record-IsBuilder (file_record leaf) with_root with_root-IsBuilder with_root-room

-- The root and its file are taken, with the root as the parent at place 0.
ingested :
    (length with_leaf.entries ≡ 2)
    × (with_leaf.dir_count ≡ 1)
    × (with_leaf.allocated_bytes ≡ 4608)
    × (with_leaf.first_child ≡ 1 ∷ 0xffff_ffff ∷ [])
unfolding ingest_record ingest_directory ingest_file validate_and_insert_entry insert_below
    switch_mode is_duplicate parent_index link_child push_entry new
ingested = (refl, refl, refl, refl)

not_over : with_leaf.terminal ≡ none
unfolding ingest_record ingest_directory ingest_file validate_and_insert_entry insert_below
    switch_mode is_duplicate parent_index link_child push_entry new
not_over = refl

ends : (ingest_record (terminal_record totals) with_leaf).0 ≡ ok tt
unfolding ingest_record ingest_directory ingest_file ingest_terminal validate_and_insert_entry
    insert_below switch_mode is_duplicate parent_index link_child push_entry new
ends = refl

validate-admit_example :
    let (result, b') = validate_and_insert_entry 2 1 (file_entry leaf) 0 with_root in
    let rule = admit 2 1 (file_entry leaf).kind with_root.entries in
    (result ≡ rule) × (b'.entries ≡ entries_after rule with_root.entries (file_entry leaf))
validate-admit_example =
    validate-admit 2 1 (file_entry leaf) 0 with_root with_root-IsBuilder with_root-room

ingest_record-IsBuilder_example : IsBuilder (ingest_record (file_record leaf) with_root).1
ingest_record-IsBuilder_example =
    ingest_record-IsBuilder (file_record leaf) with_root with_root-IsBuilder with_root-room

ingest_record-Answer_example :
    Answer totals with_leaf (ingest_record (terminal_record totals) with_leaf)
ingest_record-Answer_example = ingest_record-Answer totals with_leaf not_over

after_terminal_example :
    let (_, c) = ingest_record (terminal_record totals) with_leaf in
    ingest_record (file_record leaf) c ≡ (err record_after_terminal, c)
after_terminal_example = after_terminal totals with_leaf (file_record leaf) not_over ends

-- The id 9 behind the id 1 makes the index sparse.
abbrev sparse_run : List ObservationRecord
sparse_run = directory_record root ∷ file_record (record leaf { entry_id = 9 }) ∷ []

abbrev sparse_builder : GraphBuilder
sparse_builder = (ingest_record (file_record (record leaf { entry_id = 9 })) with_root).1

sparse_runs : ingest_all sparse_run (new target) ≡ ok sparse_builder
unfolding ingest_all ingest_record ingest_directory ingest_file validate_and_insert_entry
    insert_below switch_mode index_from is_duplicate parent_index link_child push_entry new lookup
    insert
sparse_runs = refl

is_sparse : sparse_builder.is_dense ≡ false
unfolding ingest_record ingest_directory ingest_file validate_and_insert_entry insert_below
    switch_mode index_from is_duplicate parent_index link_child push_entry new lookup insert
is_sparse = refl

storage_get_idx-ingest_all_example :
    storage_get_idx 9 sparse_builder ≡ find_id 9 sparse_builder.entries
storage_get_idx-ingest_all_example =
    storage_get_idx-ingest_all target sparse_run sparse_builder (omega arith) sparse_runs 9

storage_get-ingest_all_example :
    storage_get (storage_of sparse_builder) 9
    ≡ at_index sparse_builder.entries (find_id 9 sparse_builder.entries)
storage_get-ingest_all_example =
    storage_get-ingest_all target sparse_run sparse_builder (omega arith) sparse_runs 9
      (λ e. omega arith)

abbrev finished_builder : GraphBuilder
finished_builder = (ingest_record (terminal_record totals) with_leaf).1

runs : ingest_all run (new target) ≡ ok finished_builder
unfolding ingest_all ingest_record ingest_directory ingest_file ingest_terminal
    validate_and_insert_entry insert_below switch_mode is_duplicate parent_index link_child
    push_entry new
runs = refl

run_room : length (new target).entries + length run < 2 ^ 32
unfolding new
run_room = omega arith

ingest_all-IsBuilder_example : IsBuilder finished_builder
ingest_all-IsBuilder_example =
    ingest_all-IsBuilder run (new target) finished_builder (new-IsBuilder target) run_room runs

abbrev some_object : ObjectIdentity
some_object = record { volume_guid = []; file_id = 9 }

object-External_iff_example :
    ((object_record some_object
        (known 3 ∷ not_observed ∷ [])
        (some 8 ∷ some 4 ∷ [])).external_reference_status
      ≡ confirmed_external)
    ↔ External (known_links (known 3 ∷ not_observed ∷ [])) 2
object-External_iff_example =
    object-External_iff some_object (known 3 ∷ not_observed ∷ []) (some 8 ∷ some 4 ∷ [])

alloc_conflict_iff_example :
    ((see_allocs start_allocs (some 8 ∷ none ∷ some 4 ∷ [])).has_alloc_conflict ≡ false)
    ↔ AllEqual (known_allocs (some 8 ∷ none ∷ some 4 ∷ []))
alloc_conflict_iff_example = alloc_conflict_iff (some 8 ∷ none ∷ some 4 ∷ [])

weight-IsWeight_example :
    IsWeight
      (object_record some_object (known 3 ∷ []) (some 8 ∷ none ∷ some 4 ∷ [])).weight
      (known_allocs (some 8 ∷ none ∷ some 4 ∷ []))
weight-IsWeight_example = weight-IsWeight some_object (known 3 ∷ []) (some 8 ∷ none ∷ some 4 ∷ [])

root_first : get_elem? with_leaf.entries 0 ≡ some (directory_entry root)
unfolding ingest_record ingest_directory ingest_file validate_and_insert_entry insert_below
    switch_mode is_duplicate parent_index link_child push_entry new
root_first = refl

leaf_room : length with_leaf.entries ≤ max_depth
unfolding ingest_record ingest_directory ingest_file validate_and_insert_entry insert_below
    switch_mode is_duplicate parent_index link_child push_entry new
leaf_room = omega arith

components_from-max_depth_example :
    components_from (max_depth + 5) 1 with_leaf ≡ components_from max_depth 1 with_leaf
components_from-max_depth_example =
    components_from-max_depth with_leaf with_leaf-IsBuilder 0 5 (directory_entry root) leaf_room
      root_first

path_of_leaf : reconstruct_path 2 with_leaf ≡ 67 ∷ 58 ∷ 92 ∷ 97 ∷ []
unfolding reconstruct_path components_from entry_on_path ingest_record ingest_directory ingest_file
    validate_and_insert_entry insert_below switch_mode is_duplicate parent_index link_child
    push_entry new
path_of_leaf = refl
