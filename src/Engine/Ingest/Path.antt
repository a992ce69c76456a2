-- ===== src/Engine/Ingest/Path.antt =====
-- `reconstruct_path` of crates/pigtree-engine/src/builder.rs: the names from an entry up to the root.
pub mod Depth
use pig_tree.Base.{
  ℕ, zero, suc, ◌+◌, ◌-◌, Option, none, some, List, [], ◌∷◌, ◌++◌, Bool, true, false, not, ◌&&◌,
  ◌||◌, length, reverse, leb, ◌==◌, if◌then◌else◌,
}
use pig_tree.Base.Dict.{lookup, nat_eq}
use pig_tree.Engine.Graph.{CompactEntry, at_index}
use pig_tree.Engine.Builder.{as_u32, GraphBuilder}

-- The entry that the loop looks at, if there is one.
unfoldable pub entry_on_path : ℕ → GraphBuilder → Option CompactEntry
entry_on_path curr b =
    if b.is_dense
    then (if leb 1 curr && leb curr (as_u32 (length b.entries))
        then at_index b.entries (some (curr - 1))
        else none)
    else at_index b.entries (lookup curr b.id_to_idx)

-- The loop over `curr`, with `left` turns before the limit.
unfoldable pub components_from : ℕ → ℕ → GraphBuilder → List (List ℕ)
components_from zero curr b = []
components_from (suc left) curr b = if curr == 0 then [] else elim (entry_on_path curr b) [
  | none ↦ []
  | some e ↦ e.name ∷ components_from left e.parent_id b
]

abbrev pub max_depth : ℕ
max_depth = 10000

-- Does a path end with a separator?
abbrev pub ends_with_separator : List ℕ → Bool
ends_with_separator path = elim (reverse path) [ [] ↦ false | c ∷ _ ↦ c == 92 || c == 47 ]

abbrev pub join : List ℕ → List (List ℕ) → List ℕ
join path [] = path
join path (name ∷ names) =
    join ((if ends_with_separator path then path else path ++ (92 ∷ [])) ++ name) names

abbrev pub join_all : List ℕ → List (List ℕ) → List ℕ
join_all root_target [] = root_target
join_all root_target (name ∷ names) = join name names

unfoldable pub reconstruct_path : ℕ → GraphBuilder → List ℕ
reconstruct_path dir_id b =
    if dir_id == 0 || length b.entries == 0
    then b.root_target
    else join_all b.root_target (reverse (components_from max_depth dir_id b))
