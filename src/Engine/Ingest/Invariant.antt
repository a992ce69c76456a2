-- ===== src/Engine/Ingest/Invariant.antt =====
-- What every ingestion step does to the invariant, and after the terminal record.
use pig_tree.Base.{
  ℕ, ◌+◌, ◌^◌, ◌<◌, ◌≡◌, refl, none, some, List, [], ◌∷◌, ◌++◌, length, ◌==◌, if◌then◌else◌, arith,
  inl, inr, Result, ok, err,
}
use pig_tree.Protocol.Observation.{
  DirectoryObservation, FileObservation, SpecialObservation, StreamObservation, TerminalObservation,
  ObservationRecord, directory_record, file_record, special_record, stream_record, gap_record,
  terminal_record,
}
use pig_tree.Engine.Builder.{
  new, unwrap_or_zero, GraphBuilder, GraphBuildError, record_after_terminal,
  validate_and_insert_entry,
}
use pig_tree.Engine.Builder.Index.{find_id}
use pig_tree.Engine.Builder.Linked.{none-IsLinkedBelow}
use pig_tree.Engine.Builder.Invariant.{IsBuilder}
use pig_tree.Engine.Ingest.Terminal.{Answer, Refused, ingest_terminal-Answer}
use pig_tree.Engine.Builder.Validate.{validate-IsBuilder}
use pig_tree.Engine.Ingest.{
  then_update, count_directory, count_file, directory_entry, file_entry, special_entry,
  ingest_directory, ingest_file, ingest_special, ingest_stream, pend_stream, ingest_terminal,
  storage_get_idx, ingest_record, dispatch,
}

-- The invariant reads only these fields.
same-IsBuilder :
    (b c : GraphBuilder)
    → IsBuilder b
    → c.entries ≡ b.entries
    → c.is_dense ≡ b.is_dense
    → c.id_to_idx ≡ b.id_to_idx
    → c.first_child ≡ b.first_child
    → c.last_child ≡ b.last_child
    → c.next_sibling ≡ b.next_sibling
    → c.dir_self_alloc ≡ b.dir_self_alloc
    → IsBuilder c
same-IsBuilder b c h e d m f l n a = record {
  tree = rw e h.tree;
  index = rw (e, d, m) h.index;
  aligned = record {
    first_child = rw (e, f) h.aligned.first_child;
    last_child = rw (e, l) h.aligned.last_child;
    next_sibling = rw (e, n) h.aligned.next_sibling;
    dir_self_alloc = rw (e, a) h.aligned.dir_self_alloc;
    linked = rw (e, f, l) h.aligned.linked;
  };
}

then_update-IsBuilder :
    (r : Result GraphBuildError (Unit {0}) × GraphBuilder) (f : GraphBuilder → GraphBuilder)
    → ((b : GraphBuilder) → IsBuilder b → IsBuilder (f b))
    → IsBuilder r.1
    → IsBuilder (then_update r f).1
then_update-IsBuilder (ok done, b) f keeps h = keeps b h
then_update-IsBuilder (err e, b) f keeps h = h

module _ (b : GraphBuilder) (h : IsBuilder b) (room : length b.entries + 1 < 2 ^ 32) where
  ingest_directory-IsBuilder : (dir : DirectoryObservation) → IsBuilder (ingest_directory dir b).1
  unfolding ingest_directory
  ingest_directory-IsBuilder dir =
      let alloc = unwrap_or_zero dir.allocated_size in
      then_update-IsBuilder
        (validate_and_insert_entry dir.entry_id dir.parent_id (directory_entry dir) alloc b)
        (count_directory dir)
        (λ c hc. same-IsBuilder c (count_directory dir c) hc refl refl refl refl refl refl refl)
        (validate-IsBuilder dir.entry_id dir.parent_id (directory_entry dir) alloc b h room refl
          refl)

  ingest_file-IsBuilder : (f : FileObservation) → IsBuilder (ingest_file f b).1
  unfolding ingest_file
  ingest_file-IsBuilder f =
      then_update-IsBuilder (validate_and_insert_entry f.entry_id f.parent_id (file_entry f) 0 b)
        (count_file f)
        (λ c hc. same-IsBuilder c (count_file f c) hc refl refl refl refl refl refl refl)
        (validate-IsBuilder f.entry_id f.parent_id (file_entry f) 0 b h room refl refl)

  ingest_special-IsBuilder : (s : SpecialObservation) → IsBuilder (ingest_special s b).1
  unfolding ingest_special
  ingest_special-IsBuilder s =
      then_update-IsBuilder (validate_and_insert_entry s.entry_id s.parent_id (special_entry s) 0 b)
        (λ c. record c { special_count = c.special_count + 1 })
        (λ c hc.
          same-IsBuilder c (record c { special_count = c.special_count + 1 }) hc refl refl refl refl
            refl refl refl)
        (validate-IsBuilder s.entry_id s.parent_id (special_entry s) 0 b h room refl refl)

  ingest_stream-IsBuilder : (s : StreamObservation) → IsBuilder (ingest_stream s b).1
  unfolding ingest_stream
  ingest_stream-IsBuilder s =
      elim (storage_get_idx s.parent_entry_id b) as (λ found. IsBuilder (pend_stream found s b).1) [
        | none ↦ h
        | some i ↦
            same-IsBuilder b (pend_stream (some i) s b).1 h refl refl refl refl refl refl refl
      ]

  ingest_terminal-IsBuilder : (t : TerminalObservation) → IsBuilder (ingest_terminal t b).1
  unfolding Answer Refused
  ingest_terminal-IsBuilder t = elim (ingest_terminal-Answer t b) [
    | inl (matches, stored) ↦
        rw stored
          (same-IsBuilder b (record b { terminal = some t }) h refl refl refl refl refl refl refl)
    | inr (other, (e, refused)) ↦ rw refused h
  ]

pub with_current :
    (id : ℕ) (b : GraphBuilder) → IsBuilder b → IsBuilder (record b { current_dir_id = id })
with_current id b h =
    same-IsBuilder b (record b { current_dir_id = id }) h refl refl refl refl refl refl refl

dispatch-IsBuilder :
    (rec : ObservationRecord) (b : GraphBuilder)
    → IsBuilder b
    → length b.entries + 1 < 2 ^ 32
    → IsBuilder (dispatch rec b).1
dispatch-IsBuilder (directory_record dir) b h room =
    ingest_directory-IsBuilder
      (record b { current_dir_id = if dir.parent_id == 0 then dir.entry_id else dir.parent_id })
      (with_current (if dir.parent_id == 0 then dir.entry_id else dir.parent_id) b h) room dir
dispatch-IsBuilder (file_record f) b h room =
    ingest_file-IsBuilder (record b { current_dir_id = f.parent_id }) (with_current f.parent_id b h)
      room f
dispatch-IsBuilder (special_record s) b h room =
    ingest_special-IsBuilder (record b { current_dir_id = s.parent_id })
      (with_current s.parent_id b h) room s
dispatch-IsBuilder (stream_record s) b h room = ingest_stream-IsBuilder b h room s
dispatch-IsBuilder (gap_record gap) b h room =
    same-IsBuilder b (record b { gaps = b.gaps ++ (gap ∷ []) }) h refl refl refl refl refl refl refl
dispatch-IsBuilder (terminal_record t) b h room = ingest_terminal-IsBuilder b h room t

-- While the builder has fewer than 2^32 - 1 entries, `ingest_record` keeps the invariant for every
-- record, whether it takes the record or refuses it.
pub ingest_record-IsBuilder :
    (rec : ObservationRecord) (b : GraphBuilder)
    → IsBuilder b
    → length b.entries + 1 < 2 ^ 32
    → IsBuilder (ingest_record rec b).1
unfolding ingest_record
ingest_record-IsBuilder rec b h room =
    elim (b.terminal)
      as (λ t.
        IsBuilder
          (elim t as (λ _. Result GraphBuildError (Unit {0}) × GraphBuilder) [
            | none ↦ dispatch rec b
            | some _ ↦ (err record_after_terminal, b)
          ]).1) [ none ↦ dispatch-IsBuilder rec b h room | some t ↦ h ]

-- A new builder satisfies the invariant.
pub new-IsBuilder : (root_target : List ℕ) → IsBuilder (new root_target)
unfolding new find_id
new-IsBuilder root_target = record {
  tree = record { unique = λ i e at. cc; root = λ e at. cc; parents = λ i e at. cc };
  index = record {
    room = omega arith;
    dense_ids = λ d. tt;
    dense_map = λ d. refl;
    sparse_ids = λ s j. cc;
  };
  aligned = record {
    first_child = refl;
    last_child = refl;
    next_sibling = refl;
    dir_self_alloc = refl;
    linked = none-IsLinkedBelow;
  };
}
