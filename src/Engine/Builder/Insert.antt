-- ===== src/Engine/Builder/Insert.antt =====
-- `validate_and_insert_entry` against a rule on the entries alone, and the invariant.
use pig_tree.Base.{
  ℕ, ◌+◌, ◌^◌, ◌<◌, ◌≡◌, ◌≢◌, refl, sym, ap, ◌∙◌, Option, none, some, List, [], ◌∷◌, ◌++◌, Bool,
  true, false, ◌&&◌, ◌||◌, get_or, length, length-append, ◌==◌, if◌then◌else◌, arith, inl, inr,
  Bool-cases, Option-cases, ==_iff, Result, ok, err,
}
use pig_tree.Base.Dict.{insert, nat_eq, lookup-insert}
use pig_tree.Engine.Graph.{EntryKind, CompactEntry, is_directory}
use pig_tree.Engine.Builder.{
  GraphBuildError, invalid_root, missing_parent, parent_not_directory, duplicate_entry_id,
  self_parent, as_u32, max_u32, GraphBuilder, directory_at, link_child, push_entry, insert_below,
}
use pig_tree.Engine.Builder.Index.{
  find_id, find_id-append, or_last, IsSequence-append, IsIndex, IsReady, is_found, is_duplicate-eq,
  parent_index-eq,
}
use pig_tree.Engine.Builder.Aligned.{link-push-IsAligned}
use pig_tree.Engine.Builder.Invariant.{IsTree, IsAligned, IsBuilder, MayFollow, IsTree-append}

-- The rule for the entries behind the root, with what the search finds for the id and the parent.
abbrev pub admit_below :
    ℕ → ℕ → List CompactEntry → Option ℕ → Option ℕ → Result GraphBuildError (Unit {0})
admit_below id parent_id entries (some _) parent = err (duplicate_entry_id id)
admit_below id parent_id entries none none = err (missing_parent id parent_id)
admit_below id parent_id entries none (some p) =
    if directory_at entries p then ok tt else err (parent_not_directory id parent_id)

-- Which entries the builder takes, and the error for each other one, from the entries that it has.
unfoldable pub admit : ℕ → ℕ → EntryKind → List CompactEntry → Result GraphBuildError (Unit {0})
admit id parent_id kind entries =
    if id == parent_id
    then err (self_parent id)
    else if length entries == 0
    then (if id == 1 && parent_id == 0 && is_directory kind
        then ok tt
        else err (invalid_root id parent_id))
    else if parent_id == 0 || id == 1
    then err (invalid_root id parent_id)
    else admit_below id parent_id entries (find_id id entries) (find_id parent_id entries)

-- The entries after an insertion with this result.
abbrev pub entries_after :
    Result GraphBuildError (Unit {0}) → List CompactEntry → CompactEntry → List CompactEntry
entries_after (ok _) entries entry = entries ++ (entry ∷ [])
entries_after (err _) entries entry = entries

-- What `insert_below` does, by what is found.
abbrev pub insert_found :
    ℕ
    → ℕ
    → CompactEntry
    → ℕ
    → GraphBuilder
    → Bool
    → Option ℕ
    → Result GraphBuildError (Unit {0}) × GraphBuilder
insert_found id parent_id entry self_alloc b true parent = (err (duplicate_entry_id id), b)
insert_found id parent_id entry self_alloc b false none = (err (missing_parent id parent_id), b)
insert_found id parent_id entry self_alloc b false (some p) =
    if directory_at b.entries p
    then (ok tt, push_entry id entry self_alloc (link_child p (length b.entries) b))
    else (err (parent_not_directory id parent_id), b)

module _ (id parent_id : ℕ) (entry : CompactEntry) (self_alloc : ℕ) where
  pub insert_below-eq :
      (b : GraphBuilder)
      → IsReady id b
      → length b.entries + 1 < 2 ^ 32
      → parent_id ≢ 0
      → insert_below id parent_id entry self_alloc b
        ≡ insert_found id parent_id entry self_alloc b
            (is_found (find_id id b.entries))
            (find_id parent_id b.entries)
  unfolding insert_below
  insert_below-eq b ready room ne =
      rw (is_duplicate-eq id b ready room, parent_index-eq id b ready room parent_id ne)
        (ground arith)

  pub push-entries :
      (b : GraphBuilder) → (push_entry id entry self_alloc b).entries ≡ b.entries ++ (entry ∷ [])
  unfolding push_entry
  push-entries b = refl

  link-entries :
      (p c : ℕ) (b : GraphBuilder)
      → (push_entry id entry self_alloc (link_child p c b)).entries ≡ b.entries ++ (entry ∷ [])
  unfolding push_entry link_child
  link-entries p c b = ground arith

  pub insert_found-admit :
      (b : GraphBuilder) (o parent : Option ℕ)
      → let (result, b') = insert_found id parent_id entry self_alloc b (is_found o) parent in
        (result ≡ admit_below id parent_id b.entries o parent)
        × (b'.entries ≡ entries_after (admit_below id parent_id b.entries o parent) b.entries entry)
  insert_found-admit b (some i) parent = (refl, refl)
  insert_found-admit b none none = (refl, refl)
  insert_found-admit b none (some p) = elim (Bool-cases (directory_at b.entries p)) [
    | inl dir ↦ rw dir (refl, link-entries p (length b.entries) b)
    | inr other ↦ rw other (refl, refl)
  ]

or_last-false : (o : Option ℕ) (n : ℕ) → o ≡ or_last o false n
or_last-false none n = refl
or_last-false (some i) n = refl

index-push :
    (id j n : ℕ) (es : List CompactEntry)
    → n < 2 ^ 32
    → find_id id es ≡ none
    → (if id == j then some (as_u32 n) else find_id j es) ≡ or_last (find_id j es) (id == j) n
index-push id j n es small new = elim (Bool-cases (id == j)) [
  | inl same ↦
      rw (same, ap (λ (k : ℕ). find_id k es) (sym ((==_iff id j).0 same)) ∙ new)
        (ap some (omega (arith, small)))
  | inr other ↦ rw other (or_last-false (find_id j es) n)
]

push-IsIndex :
    (id : ℕ) (entry : CompactEntry) (b : GraphBuilder)
    → IsReady id b
    → length b.entries + 1 < 2 ^ 32
    → entry.id ≡ id
    → find_id id b.entries ≡ none
    → IsIndex
        (b.entries ++ (entry ∷ []))
        b.is_dense
        (if b.is_dense then b.id_to_idx else insert id (as_u32 (length b.entries)) b.id_to_idx)
push-IsIndex id entry b ready room same new = record {
  room = omega (arith, length-append b.entries (entry ∷ []));
  dense_ids = λ d.
      IsSequence-append 0 b.entries entry (ready.index.dense_ids d)
        (omega (arith, same, ready.next_id d));
  dense_map = λ d. rw d (ready.index.dense_map d);
  sparse_ids = λ s j. rw s (
      rw (lookup-insert id j, find_id-append j b.entries entry, same, ready.index.sparse_ids s j)
        (index-push id j (length b.entries) b.entries (omega arith) new));
}

pub push-IsBuilder :
    (id : ℕ) (entry : CompactEntry) (self_alloc : ℕ) (b : GraphBuilder)
    → IsReady id b
    → IsTree b.entries
    → IsAligned (push_entry id entry self_alloc b)
    → length b.entries + 1 < 2 ^ 32
    → entry.id ≡ id
    → find_id id b.entries ≡ none
    → MayFollow b.entries entry
    → IsBuilder (push_entry id entry self_alloc b)
unfolding push_entry
push-IsBuilder id entry self_alloc b ready tree aligned room same new follows = record {
  tree =
      IsTree-append b.entries entry tree (ap (λ (k : ℕ). find_id k b.entries) same ∙ new) follows;
  index = push-IsIndex id entry b ready room same new;
  aligned = aligned;
}

link-same :
    (p c : ℕ) (b : GraphBuilder)
    → let b' = link_child p c b in
      (b'.entries ≡ b.entries) × (b'.is_dense ≡ b.is_dense) × (b'.id_to_idx ≡ b.id_to_idx)
unfolding link_child
link-same p c b = elim (Bool-cases (get_or b.first_child p max_u32 == max_u32)) [
  | inl first ↦ rw first (refl, refl, refl)
  | inr later ↦ rw later (refl, refl, refl)
]

link-IsReady : (id p c : ℕ) (b : GraphBuilder) → IsReady id b → IsReady id (link_child p c b)
unfolding link_child
link-IsReady id p c b h = elim (Bool-cases (get_or b.first_child p max_u32 == max_u32)) [
  | inl first ↦ rw first (record { index = h.index; next_id = h.next_id })
  | inr later ↦ rw later (record { index = h.index; next_id = h.next_id })
]

follow-below :
    (es : List CompactEntry) (entry : CompactEntry) (p : ℕ)
    → find_id entry.parent_id es ≡ some p
    → directory_at es p ≡ true
    → MayFollow es entry
unfolding find_id
follow-below [] entry p found dir = cc
follow-below (x ∷ es) entry p found dir = (p, found, dir)

module _ (id parent_id : ℕ) (entry : CompactEntry) (self_alloc : ℕ) where
  linked-IsBuilder :
      (b : GraphBuilder) (p : ℕ)
      → IsReady id b
      → IsTree b.entries
      → IsAligned b
      → length b.entries + 1 < 2 ^ 32
      → entry.id ≡ id
      → find_id id b.entries ≡ none
      → MayFollow b.entries entry
      → IsBuilder (push_entry id entry self_alloc (link_child p (length b.entries) b))
  linked-IsBuilder b p ready tree aligned room same new follows =
      let (es, _, _) = link-same p (length b.entries) b in
      push-IsBuilder id entry self_alloc (link_child p (length b.entries) b)
        (link-IsReady id p (length b.entries) b ready) (rw es tree)
        (link-push-IsAligned id p entry self_alloc b aligned) (rw es room) same (rw es new)
        (rw es follows)

  pub insert_found-IsBuilder :
      (b : GraphBuilder)
      → IsReady id b
      → IsTree b.entries
      → IsAligned b
      → length b.entries + 1 < 2 ^ 32
      → entry.id ≡ id
      → entry.parent_id ≡ parent_id
      → IsBuilder
          (insert_found id parent_id entry self_alloc b
            (is_found (find_id id b.entries))
            (find_id parent_id b.entries)).1
  insert_found-IsBuilder b ready tree aligned room same below =
      elim (Option-cases (find_id id b.entries)) [
        | inl new ↦ elim (Option-cases (find_id parent_id b.entries)) [
          | inl lost ↦
              rw (new, lost) (record { tree = tree; index = ready.index; aligned = aligned })
          | inr (p, found) ↦ elim (Bool-cases (directory_at b.entries p)) [
            | inl dir ↦
                rw (new, found, dir)
                  (linked-IsBuilder b p ready tree aligned room same new
                    (follow-below b.entries entry p (rw below found) dir))
            | inr other ↦
                rw (new, found, other)
                  (record { tree = tree; index = ready.index; aligned = aligned })
          ]
        ]
        | inr (i, old) ↦ rw old (record { tree = tree; index = ready.index; aligned = aligned })
      ]
