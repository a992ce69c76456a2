-- ===== src/Engine/Ingest/Path/Depth.antt =====
-- The limit on the length of a path.
use pig_tree.Base.{
  ℕ, zero, suc, ◌+◌, ◌-◌, ◌≤◌, ◌<◌, ◌≡◌, refl, sym, ap, ◌∙◌, none, some, List, [], ◌∷◌, true,
  length, leb, ◌&&◌, ◌==◌, if◌then◌else◌, ==_iff, arith, inl, inr, Bool-cases, get_elem?,
}
use pig_tree.Base.Dict.{nat_eq}
use pig_tree.Engine.Graph.{CompactEntry, at_index}
use pig_tree.Engine.Builder.{as_u32, GraphBuilder}
use pig_tree.Engine.Builder.Index.{find_id, find_id-IsSequence}
use pig_tree.Engine.Builder.Invariant.{IsBuilder, get_elem?-lt}
use pig_tree.Engine.Ingest.Path.{entry_on_path, components_from, max_depth}

-- A search that finds an id gives the place of an entry with it.
find_id-get :
    (id : ℕ) (es : List CompactEntry) (i : ℕ)
    → find_id id es ≡ some i
    → (x : CompactEntry) × (get_elem? es i ≡ some x) × (x.id ≡ id)
unfolding find_id
find_id-get id [] i found = absurd cc
find_id-get id (e ∷ es) zero found = elim (Bool-cases (e.id == id)) [
  | inl here ↦ (e, refl, (==_iff e.id id).0 here)
  | inr later ↦ absurd (ground arith)
]
find_id-get id (e ∷ es) (suc i) found = elim (Bool-cases (e.id == id)) [
  | inl here ↦ absurd (ground arith)
  | inr later ↦ find_id-get id es i (ground arith)
]

module _ (b : GraphBuilder) (h : IsBuilder b) where
  dense-eq :
      (id : ℕ) → b.is_dense ≡ true → entry_on_path id b ≡ at_index b.entries (find_id id b.entries)
  unfolding entry_on_path
  dense-eq id d =
      let known = find_id-IsSequence 0 b.entries id (h.index.dense_ids d) in
      let same : as_u32 (length b.entries) ≡ length b.entries = omega (arith, h.index.room) in
      elim (Bool-cases (leb 1 id && leb id (length b.entries))) [
        | inl within ↦
            let found : find_id id b.entries ≡ some (id - 1) = ground (arith, known) in
            rw (d, same, within, found)
        | inr outside ↦
            let lost : find_id id b.entries ≡ none = ground (arith, known) in
            rw (d, same, outside, lost)
      ]

  entry_on_path-eq : (id : ℕ) → entry_on_path id b ≡ at_index b.entries (find_id id b.entries)
  unfolding entry_on_path
  entry_on_path-eq id = elim (Bool-cases b.is_dense) [
    | inl d ↦ dense-eq id d
    | inr s ↦ rw (s, h.index.sparse_ids s id)
  ]

  step :
      (left i : ℕ) (e : CompactEntry)
      → get_elem? b.entries i ≡ some e
      → components_from (suc left) e.id b
        ≡ (if e.id == 0 then [] else e.name ∷ components_from left e.parent_id b)
  unfolding components_from
  step left i e at = rw (entry_on_path-eq e.id, h.tree.unique i e at, at)

  components_from-root : (n : ℕ) → components_from n 0 b ≡ []
  unfolding components_from
  components_from-root zero = refl
  components_from-root (suc n) = refl

  enough :
      (k i n m : ℕ) (e : CompactEntry)
      → i ≤ k
      → get_elem? b.entries i ≡ some e
      → i < n
      → i < m
      → components_from n e.id b ≡ components_from m e.id b
  enough k i zero m e le at p q = absurd (omega arith)
  enough k i (suc n) zero e le at p q = absurd (omega arith)
  enough k zero (suc n) (suc m) e le at p q =
      let (_, top, _) = h.tree.root e at in
      rw (step n 0 e at, step m 0 e at, top, components_from-root n, components_from-root m)
  enough zero (suc j) (suc n) (suc m) e le at p q = absurd (omega arith)
  enough (suc k) (suc j) (suc n) (suc m) e le at p q =
      let (i, found, below, _) = h.tree.parents j e at in
      let (x, here, same) = find_id-get e.parent_id b.entries i found in
      let rest = enough k i n m x (omega arith) here (omega arith) (omega arith) in
      step n (suc j) e at
      ∙ ap (λ (t : List (List ℕ)). if e.id == 0 then [] else e.name ∷ t)
          (ap (λ (id : ℕ). components_from n id b) (sym same)
            ∙ rest
            ∙ ap (λ (id : ℕ). components_from m id b) same)
      ∙ sym (step m (suc j) e at)

  -- In a builder that satisfies the invariant and has at most 10000 entries, the limit of
  -- `reconstruct_path` cuts no path of an entry: any greater limit gives the same names.
  pub components_from-max_depth :
      (i more : ℕ) (e : CompactEntry)
      → length b.entries ≤ max_depth
      → get_elem? b.entries i ≡ some e
      → components_from (max_depth + more) e.id b ≡ components_from max_depth e.id b
  components_from-max_depth i more e small at =
      let inside = get_elem?-lt b.entries e i at in
      enough i i (max_depth + more) max_depth e (omega arith) at (omega arith) (omega arith)
