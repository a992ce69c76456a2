-- ===== src/Engine/Builder/Invariant.antt =====
-- What holds of the entries of a builder, and that an insertion keeps it.
use pig_tree.Base.{
  ℕ, zero, suc, ◌≤◌, ◌<◌, ◌≡◌, ◌⊎◌, refl, ap, none, some, List, [], ◌∷◌, ◌++◌, true, get_elem?,
  length, arith, inl, inr, Option-cases, ==_refl,
}
use pig_tree.Base.Dict.{nat_eq}
use pig_tree.Engine.Graph.{CompactEntry, is_directory}
use pig_tree.Engine.Builder.{GraphBuilder, directory_at}
use pig_tree.Engine.Builder.Linked.{IsLinkedBelow}
use pig_tree.Engine.Builder.Index.{find_id, find_id-append, find_id-lt, IsIndex}

-- The entry at place `suc i` has a parent among the entries before it, and that is a directory.
abbrev pub HasParent : List CompactEntry → ℕ → CompactEntry → Type 0
HasParent entries i e =
    (p : ℕ) × (find_id e.parent_id entries ≡ some p) × (p ≤ i) × (directory_at entries p ≡ true)

pub record IsTree (entries : List CompactEntry) : Type 0 where
  pub unique :
      (i : ℕ) (e : CompactEntry) → get_elem? entries i ≡ some e → find_id e.id entries ≡ some i
  pub root :
      (e : CompactEntry)
      → get_elem? entries 0 ≡ some e
      → (e.id ≡ 1) × (e.parent_id ≡ 0) × (is_directory e.kind ≡ true)
  pub parents :
      (i : ℕ) (e : CompactEntry) → get_elem? entries (suc i) ≡ some e → HasParent entries i e

-- The vectors that run beside the entries. The last child of an entry with children is an entry, so that
-- `link_child` writes within the vectors.
pub record IsAligned (b : GraphBuilder) : Type 0 where
  pub first_child : length b.first_child ≡ length b.entries
  pub last_child : length b.last_child ≡ length b.entries
  pub next_sibling : length b.next_sibling ≡ length b.entries
  pub dir_self_alloc : length b.dir_self_alloc ≡ length b.entries
  pub linked : IsLinkedBelow (length b.entries) b.first_child b.last_child

pub record IsBuilder (b : GraphBuilder) : Type 0 where
  pub tree : IsTree b.entries
  pub index : IsIndex b.entries b.is_dense b.id_to_idx
  pub aligned : IsAligned b

get_elem?-append_cases :
    (es : List CompactEntry) (e x : CompactEntry) (i : ℕ)
    → get_elem? (es ++ (e ∷ [])) i ≡ some x
    → (get_elem? es i ≡ some x) ⊎ ((i ≡ length es) × (x ≡ e))
get_elem?-append_cases [] e x zero h = inr (refl, cc)
get_elem?-append_cases [] e x (suc i) h = inl h
get_elem?-append_cases (y ∷ es) e x zero h = inl h
get_elem?-append_cases (y ∷ es) e x (suc i) h = elim (get_elem?-append_cases es e x i h) [
  | inl old ↦ inl old
  | inr (at, same) ↦ inr (ap suc at, same)
]

get_elem?-append_some :
    (es : List CompactEntry) (e x : CompactEntry) (i : ℕ)
    → get_elem? es i ≡ some x
    → get_elem? (es ++ (e ∷ [])) i ≡ some x
get_elem?-append_some [] e x i h = cc
get_elem?-append_some (y ∷ es) e x zero h = h
get_elem?-append_some (y ∷ es) e x (suc i) h = get_elem?-append_some es e x i h

pub get_elem?-lt :
    (es : List CompactEntry) (x : CompactEntry) (i : ℕ) → get_elem? es i ≡ some x → i < length es
get_elem?-lt [] x i h = cc
get_elem?-lt (y ∷ es) x zero h = omega arith
get_elem?-lt (y ∷ es) x (suc i) h = omega (arith, get_elem?-lt es x i h)

directory_at-append :
    (es : List CompactEntry) (e : CompactEntry) (p : ℕ)
    → directory_at es p ≡ true
    → directory_at (es ++ (e ∷ [])) p ≡ true
directory_at-append es e p h = elim (Option-cases (get_elem? es p)) [
  | inl nothing ↦ ground arith
  | inr (x, at) ↦ ground (arith, get_elem?-append_some es e x p at)
]

find_id-append_some :
    (id : ℕ) (es : List CompactEntry) (e : CompactEntry) (p : ℕ)
    → find_id id es ≡ some p
    → find_id id (es ++ (e ∷ [])) ≡ some p
find_id-append_some id es e p h = rw (find_id-append id es e, h)

-- What an entry needs to be appended: the first is the root, any other has a directory for a parent.
abbrev pub MayFollow : List CompactEntry → CompactEntry → Type 0
MayFollow [] e = (e.id ≡ 1) × (e.parent_id ≡ 0) × (is_directory e.kind ≡ true)
MayFollow (x ∷ es) e =
    (p : ℕ) × (find_id e.parent_id (x ∷ es) ≡ some p) × (directory_at (x ∷ es) p ≡ true)

new-HasParent :
    (es : List CompactEntry) (e : CompactEntry) (i : ℕ)
    → MayFollow es e
    → suc i ≡ length es
    → HasParent (es ++ (e ∷ [])) i e
new-HasParent [] e i h at = absurd (omega arith)
new-HasParent (x ∷ es) e i (p, found, dir) at = (
  p,
  find_id-append_some e.parent_id (x ∷ es) e p found,
  omega (arith, find_id-lt e.parent_id (x ∷ es) p found),
  directory_at-append (x ∷ es) e p dir,
)

new-root :
    (es : List CompactEntry) (e x : CompactEntry)
    → IsTree es
    → MayFollow es e
    → get_elem? (es ++ (e ∷ [])) 0 ≡ some x
    → (x.id ≡ 1) × (x.parent_id ≡ 0) × (is_directory x.kind ≡ true)
new-root [] e x t h at = ground arith
new-root (y ∷ es) e x t h at = t.root x at

pub IsTree-append :
    (es : List CompactEntry) (e : CompactEntry)
    → IsTree es
    → find_id e.id es ≡ none
    → MayFollow es e
    → IsTree (es ++ (e ∷ []))
IsTree-append es e t new follows = record {
  unique = λ i x at. elim (get_elem?-append_cases es e x i at) [
    | inl old ↦ find_id-append_some x.id es e i (t.unique i x old)
    | inr (last, same) ↦ rw (same, last, find_id-append e.id es e, new, ==_refl e.id)
  ];
  root = λ x at. new-root es e x t follows at;
  parents = λ i x at. elim (get_elem?-append_cases es e x (suc i) at) [
    | inl old ↦
        let (p, found, le, dir) = t.parents i x old in
        (p, find_id-append_some x.parent_id es e p found, le, directory_at-append es e p dir)
    | inr (last, same) ↦ rw same (new-HasParent es e i follows last)
  ];
}
