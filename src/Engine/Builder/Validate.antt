-- ===== src/Engine/Builder/Validate.antt =====
-- `validate_and_insert_entry`: what it takes, and that it keeps the invariant.
use pig_tree.Base.{
  ℕ, ◌+◌, ◌^◌, ◌<◌, ◌≡◌, ◌≢◌, refl, subst, ap, List, [], ◌∷◌, Bool, true, false, not, ◌&&◌, ◌||◌,
  length, ◌==◌, arith, inl, inr, Bool-cases,
}
use pig_tree.Engine.Graph.{CompactEntry, is_directory}
use pig_tree.Engine.Builder.{
  GraphBuilder, switch_mode, push_entry, insert_below, validate_and_insert_entry,
}
use pig_tree.Engine.Builder.Index.{find_id, IsReady, switch_mode-IsReady, entries-switch_mode}
use pig_tree.Engine.Builder.Invariant.{IsBuilder}
use pig_tree.Engine.Builder.Aligned.{push-IsAligned, switch_mode-IsAligned}
use pig_tree.Engine.Builder.Insert.{
  admit, admit_below, entries_after, insert_below-eq, insert_found-admit, insert_found-IsBuilder,
  push-IsBuilder, push-entries,
}

de_morgan : (x y z : Bool) → (not x || not y || not z) ≡ not (x && y && z)
de_morgan true true true = refl
de_morgan true true false = refl
de_morgan true false z = refl
de_morgan false y z = refl

is_empty-eq : (es : List CompactEntry) → (length es == 0) ≡ true → es ≡ []
is_empty-eq [] e = refl
is_empty-eq (x ∷ es) e = absurd (ground arith)

module _ (id parent_id : ℕ) (entry : CompactEntry) (self_alloc : ℕ) (b : GraphBuilder)
    (h : IsBuilder b) (room : length b.entries + 1 < 2 ^ 32) where
  ready : IsReady id (switch_mode id b)
  ready = switch_mode-IsReady id b h.index room

  same_entries : (switch_mode id b).entries ≡ b.entries
  same_entries = entries-switch_mode id b h.index room

  room_switched : length (switch_mode id b).entries + 1 < 2 ^ 32
  room_switched = rw same_entries room

  invalid-eq :
      (not (id == 1) || not (parent_id == 0) || not (is_directory entry.kind))
      ≡ not (id == 1 && parent_id == 0 && is_directory entry.kind)
  invalid-eq = de_morgan (id == 1) (parent_id == 0) (is_directory entry.kind)

  Follows : GraphBuilder → List CompactEntry → Type 0
  Follows c es =
      let (result, b') = insert_below id parent_id entry self_alloc c in
      let rule = admit_below id parent_id es (find_id id es) (find_id parent_id es) in
      (result ≡ rule) × (b'.entries ≡ entries_after rule es entry)

  below-Follows : parent_id ≢ 0 → Follows (switch_mode id b) (switch_mode id b).entries
  unfolding Follows
  below-Follows ne =
      let c = switch_mode id b in
      rw (insert_below-eq id parent_id entry self_alloc c ready room_switched ne) (
        insert_found-admit id parent_id entry self_alloc c (find_id id c.entries)
          (find_id parent_id c.entries))

  below-admit : parent_id ≢ 0 → Follows (switch_mode id b) b.entries
  below-admit ne = subst (λ es. Follows (switch_mode id b) es) same_entries (below-Follows ne)

  -- In a builder that satisfies the invariant and has fewer than 2^32 - 1 entries,
  -- `validate_and_insert_entry` answers by a rule on the entries alone (in dense and in sparse
  -- mode), and then has the entries from before, with the new one behind them if it was taken.
  pub validate-admit :
      let (result, b') = validate_and_insert_entry id parent_id entry self_alloc b in
      let rule = admit id parent_id entry.kind b.entries in
      (result ≡ rule) × (b'.entries ≡ entries_after rule b.entries entry)
  unfolding validate_and_insert_entry admit Follows
  validate-admit = elim (Bool-cases (id == parent_id)) [
    | inl self ↦ rw self (refl, refl)
    | inr other ↦ elim (Bool-cases (length b.entries == 0)) [
      | inl first ↦ elim (Bool-cases (id == 1 && parent_id == 0 && is_directory entry.kind)) [
        | inl good ↦
            rw (other, first, invalid-eq, good) (refl, push-entries id parent_id entry self_alloc b)
        | inr bad ↦ rw (other, first, invalid-eq, bad) (refl, refl)
      ]
      | inr later ↦ elim (Bool-cases (parent_id == 0 || id == 1)) [
        | inl bad ↦ rw (other, later, bad) (refl, refl)
        | inr good ↦ rw (other, later, good) (below-admit (ground arith))
      ]
    ]
  ]

  below-IsBuilder :
      entry.id ≡ id
      → entry.parent_id ≡ parent_id
      → parent_id ≢ 0
      → IsBuilder (insert_below id parent_id entry self_alloc (switch_mode id b)).1
  below-IsBuilder same below ne =
      let c = switch_mode id b in
      rw (insert_below-eq id parent_id entry self_alloc c ready room_switched ne) (
        insert_found-IsBuilder id parent_id entry self_alloc c ready (rw same_entries h.tree)
          (switch_mode-IsAligned id b h.aligned) room_switched same below)

  root-IsBuilder :
      entry.id ≡ id
      → entry.parent_id ≡ parent_id
      → (length b.entries == 0) ≡ true
      → (id == 1 && parent_id == 0 && is_directory entry.kind) ≡ true
      → IsBuilder (push_entry id entry self_alloc b)
  unfolding find_id
  root-IsBuilder same below first good =
      let empty = is_empty-eq b.entries first in
      push-IsBuilder id entry self_alloc b (record { index = h.index; next_id = λ d. ground arith })
        h.tree (push-IsAligned id entry self_alloc b h.aligned) room same (ap (find_id id) empty)
        (rw empty (ground arith))

  -- `validate_and_insert_entry` keeps the invariant, whether it takes the entry or refuses it.
  pub validate-IsBuilder :
      entry.id ≡ id
      → entry.parent_id ≡ parent_id
      → IsBuilder (validate_and_insert_entry id parent_id entry self_alloc b).1
  unfolding validate_and_insert_entry
  validate-IsBuilder same below = elim (Bool-cases (id == parent_id)) [
    | inl self ↦ rw self h
    | inr other ↦ elim (Bool-cases (length b.entries == 0)) [
      | inl first ↦ elim (Bool-cases (id == 1 && parent_id == 0 && is_directory entry.kind)) [
        | inl good ↦ rw (other, first, invalid-eq, good) (root-IsBuilder same below first good)
        | inr bad ↦ rw (other, first, invalid-eq, bad) h
      ]
      | inr later ↦ elim (Bool-cases (parent_id == 0 || id == 1)) [
        | inl bad ↦ rw (other, later, bad) h
        | inr good ↦ rw (other, later, good) (below-IsBuilder same below (ground arith))
      ]
    ]
  ]
