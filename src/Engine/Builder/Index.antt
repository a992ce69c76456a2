-- ===== src/Engine/Builder/Index.antt =====
-- The index of the builder, dense or sparse, against a search through the entries.
use pig_tree.Base.{
  ℕ, zero, suc, ◌+◌, ◌-◌, ◌^◌, ◌<◌, ◌≡◌, ◌≢◌, refl, ap, ◌∙◌, Option, none, some, List, [], ◌∷◌,
  ◌++◌, Bool, true, false, not, ◌&&◌, length, leb, ltb, ◌==◌, if◌then◌else◌, arith, inl, inr,
  Bool-cases,
}
use pig_tree.Base.Dict.{Dict, lookup, insert, nat_eq, lookup-insert}
use pig_tree.Engine.Graph.{CompactEntry}
use pig_tree.Engine.Builder.{
  as_u32, GraphBuilder, index_from, switch_mode, is_duplicate, parent_index,
}

abbrev bump : Option ℕ → Option ℕ
bump none = none
bump (some i) = some (suc i)

-- The place of the first entry with an id.
unfoldable pub find_id : ℕ → List CompactEntry → Option ℕ
find_id id [] = none
find_id id (e ∷ es) = if e.id == id then some 0 else bump (find_id id es)

abbrev pub or_last : Option ℕ → Bool → ℕ → Option ℕ
or_last (some i) found n = some i
or_last none found n = if found then some n else none

or_last-bump : (o : Option ℕ) (b : Bool) (n : ℕ) → bump (or_last o b n) ≡ or_last (bump o) b (suc n)
or_last-bump none true n = refl
or_last-bump none false n = refl
or_last-bump (some i) b n = refl

pub find_id-append :
    (id : ℕ) (es : List CompactEntry) (e : CompactEntry)
    → find_id id (es ++ (e ∷ [])) ≡ or_last (find_id id es) (e.id == id) (length es)
unfolding find_id
find_id-append id [] e = ground arith
find_id-append id (x ∷ es) e = elim (Bool-cases (x.id == id)) [
  | inl here ↦ rw here
  | inr later ↦
      rw (later, find_id-append id es e) (or_last-bump (find_id id es) (e.id == id) (length es))
]

pub find_id-lt : (id : ℕ) (es : List CompactEntry) (i : ℕ) → find_id id es ≡ some i → i < length es
unfolding find_id
find_id-lt id [] i h = cc
find_id-lt id (e ∷ es) zero h = omega arith
find_id-lt id (e ∷ es) (suc i) h = ground (arith, find_id-lt id es i)

-- The ids are `i + 1`, `i + 2` and so on.
abbrev pub IsSequence : ℕ → List CompactEntry → Type 0
IsSequence i [] = Unit
IsSequence i (e ∷ es) = (e.id ≡ suc i) × IsSequence (suc i) es

pub find_id-IsSequence :
    (i : ℕ) (es : List CompactEntry) (id : ℕ)
    → IsSequence i es
    → find_id id es ≡ (if ltb i id && leb id (i + length es) then some (id - 1 - i) else none)
unfolding find_id
find_id-IsSequence i [] id h = ground arith
find_id-IsSequence i (e ∷ es) id (he, hes) = ground (arith, find_id-IsSequence (suc i) es id hes)

abbrev pub found_at : ℕ → Option ℕ → Option ℕ → Option ℕ
found_at i (some j) other = some (i + j)
found_at i none other = other

lookup-index_from :
    (i : ℕ) (es : List CompactEntry) (m : Dict ℕ ℕ) (id : ℕ)
    → IsSequence i es
    → i + length es < 2 ^ 32
    → lookup id (index_from i es m) ≡ found_at i (find_id id es) (lookup id m)
unfolding index_from find_id
lookup-index_from i [] m id h fits = refl
lookup-index_from i (e ∷ es) m id (he, hes) fits = ground (
  arith,
  ap (λ (k : ℕ). lookup id (index_from k es (insert e.id (as_u32 i) m))) {x = i + 1} {y = suc i}
      (omega arith),
  lookup-index_from (suc i) es (insert e.id (as_u32 i) m) id hes (omega arith),
  find_id-IsSequence (suc i) es id hes,
  lookup-insert e.id id (as_u32 i) m,
)

pub IsSequence-append :
    (i : ℕ) (es : List CompactEntry) (e : CompactEntry)
    → IsSequence i es
    → e.id ≡ suc (i + length es)
    → IsSequence i (es ++ (e ∷ []))
IsSequence-append i [] e h he = (he ∙ omega arith, tt)
IsSequence-append i (x ∷ es) e (hx, hes) he =
    (hx, IsSequence-append (suc i) es e hes (he ∙ omega arith))

-- In dense mode the ids are the places, from 1 on; in sparse mode the map has the place of each id.
pub record IsIndex (entries : List CompactEntry) (is_dense : Bool) (id_to_idx : Dict ℕ ℕ)
    : Type 0 where
  pub room : length entries < 2 ^ 32
  pub dense_ids : is_dense ≡ true → IsSequence 0 entries
  pub dense_map : is_dense ≡ true → id_to_idx ≡ []
  pub sparse_ids : is_dense ≡ false → (id : ℕ) → lookup id id_to_idx ≡ find_id id entries

-- After the switch of modes that an insertion makes for a new id.
pub record IsReady (id : ℕ) (b : GraphBuilder) : Type 0 where
  pub index : IsIndex b.entries b.is_dense b.id_to_idx
  pub next_id : b.is_dense ≡ true → id ≡ length b.entries + 1

found_at-zero : (o : Option ℕ) → found_at 0 o none ≡ o
found_at-zero none = refl
found_at-zero (some j) = ap some (omega arith)

module _ (id : ℕ) (b : GraphBuilder) (index : IsIndex b.entries b.is_dense b.id_to_idx)
    (room : length b.entries + 1 < 2 ^ 32) where
  switched :
      b.is_dense ≡ true
      → IsReady id (record b { is_dense = false; id_to_idx = index_from 0 b.entries b.id_to_idx })
  unfolding lookup
  switched dense = record {
    index = record {
      room = omega arith;
      dense_ids = λ e. cc;
      dense_map = λ e. cc;
      sparse_ids = λ _ j.
          ap (λ (m : Dict ℕ ℕ). lookup j (index_from 0 b.entries m)) (index.dense_map dense)
          ∙ lookup-index_from 0 b.entries [] j (index.dense_ids dense) (omega arith)
          ∙ found_at-zero (find_id j b.entries);
    };
    next_id = λ e. cc;
  }

  pub switch_mode-IsReady : IsReady id (switch_mode id b)
  unfolding switch_mode
  switch_mode-IsReady =
      elim (Bool-cases (b.is_dense && not (id == as_u32 (length b.entries + 1)))) [
        | inl switch ↦ rw switch (switched (ground arith))
        | inr stay ↦ rw stay (record { index = index; next_id = λ dense. ground arith })
      ]

  pub entries-switch_mode : (switch_mode id b).entries ≡ b.entries
  unfolding switch_mode
  entries-switch_mode = ground arith

abbrev pub is_found : Option ℕ → Bool
is_found none = false
is_found (some _) = true

-- In both modes the checks of an insertion are those of a search through the entries.
module _ (id : ℕ) (b : GraphBuilder) (ready : IsReady id b)
    (room : length b.entries + 1 < 2 ^ 32) where
  open ready use {index, next_id}

  pub is_duplicate-eq : is_duplicate id b ≡ is_found (find_id id b.entries)
  unfolding is_duplicate
  is_duplicate-eq = elim (Bool-cases b.is_dense) [
    | inl d ↦ ground (arith, find_id-IsSequence 0 b.entries id (index.dense_ids d), next_id d)
    | inr s ↦ ground (arith, index.sparse_ids s id)
  ]

  pub parent_index-eq : (parent : ℕ) → parent ≢ 0 → parent_index parent b ≡ find_id parent b.entries
  unfolding parent_index
  parent_index-eq parent ne = elim (Bool-cases b.is_dense) [
    | inl d ↦ ground (arith, find_id-IsSequence 0 b.entries parent (index.dense_ids d))
    | inr s ↦ ground (arith, index.sparse_ids s parent)
  ]
