-- ===== src/Engine/Ingest/Storage.antt =====
-- The lookup of an id during the ingestion, and the finished storage, against a search.
use pig_tree.Base.{
  ℕ, ◌+◌, ◌-◌, ◌≡◌, ◌≢◌, none, some, List, false, ◌&&◌, get_elem?, get_elem?-none, length, leb, ltb,
  ◌==◌, if◌then◌else◌, arith, inl, inr, Bool-cases,
}
use pig_tree.Base.Dict.{nat_eq}
use pig_tree.Engine.Graph.{CompactEntry, EntryStorage, dense, sparse, storage_get, at_index}
use pig_tree.Engine.Builder.{GraphBuilder}
use pig_tree.Engine.Builder.Index.{find_id, find_id-IsSequence, IsIndex}
use pig_tree.Engine.Ingest.{storage_get_idx}

-- When the index of the builder is right, the lookup of an id, dense or sparse, is the search
-- through the entries.
pub storage_get_idx-eq :
    (id : ℕ) (b : GraphBuilder)
    → IsIndex b.entries b.is_dense b.id_to_idx
    → storage_get_idx id b ≡ find_id id b.entries
unfolding storage_get_idx
storage_get_idx-eq id b index = elim (Bool-cases b.is_dense) [
  | inl d ↦ ground (arith, find_id-IsSequence 0 b.entries id (index.dense_ids d))
  | inr s ↦ ground (arith, index.sparse_ids s id)
]

-- The storage that `finish` makes of the entries.
abbrev pub storage_of : GraphBuilder → EntryStorage
storage_of b = if b.is_dense then dense b.entries else sparse b.entries b.id_to_idx

nonzero : (id : ℕ) → id ≢ 0 → (id == 0) ≡ false
nonzero id ne = ground arith

dense-eq :
    (id : ℕ) (es : List CompactEntry)
    → id ≢ 0
    → find_id id es ≡ (if ltb 0 id && leb id (0 + length es) then some (id - 1 - 0) else none)
    → get_elem? es (id - 1) ≡ at_index es (find_id id es)
dense-eq id es ne h = elim (Bool-cases (leb id (length es))) [
  | inl within ↦ let found : find_id id es ≡ some (id - 1) = ground arith in rw found
  | inr beyond ↦
      let lost : find_id id es ≡ none = ground arith in
      rw (lost, get_elem?-none es (id - 1) (ground arith))
]

-- When the index of the builder is right, the storage that is made of it finds for an id other
-- than 0 what a search through the entries finds.
pub storage_get-eq :
    (id : ℕ) (b : GraphBuilder)
    → IsIndex b.entries b.is_dense b.id_to_idx
    → id ≢ 0
    → storage_get (storage_of b) id ≡ at_index b.entries (find_id id b.entries)
unfolding storage_get
storage_get-eq id b index ne = elim (Bool-cases b.is_dense) [
  | inl d ↦
      rw (d, nonzero id ne)
        (dense-eq id b.entries ne (find_id-IsSequence 0 b.entries id (index.dense_ids d)))
  | inr s ↦ rw (s, nonzero id ne, index.sparse_ids s id)
]
