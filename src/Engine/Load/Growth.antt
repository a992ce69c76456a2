-- ===== src/Engine/Load/Growth.antt =====
-- A record adds at most one entry, so that a stream of records keeps the invariant.
use pig_tree.Base.{
  ℕ, ◌+◌, ◌^◌, ◌≤◌, ◌<◌, ◌≡◌, refl, subst, ap, Option, none, some, List, [], ◌∷◌, length,
  length-append, ◌==◌, if◌then◌else◌, arith, inl, inr, Result, ok, err,
}
use pig_tree.Protocol.Observation.{
  DirectoryObservation, FileObservation, SpecialObservation, StreamObservation, TerminalObservation,
  ObservationRecord, directory_record, file_record, special_record, stream_record, gap_record,
  terminal_record,
}
use pig_tree.Engine.Graph.{CompactEntry}
use pig_tree.Engine.Builder.{
  GraphBuilder, GraphBuildError, record_after_terminal, unwrap_or_zero, validate_and_insert_entry,
}
use pig_tree.Engine.Builder.Invariant.{IsBuilder}
use pig_tree.Engine.Builder.Insert.{admit, entries_after}
use pig_tree.Engine.Builder.Validate.{validate-admit}
use pig_tree.Engine.Ingest.{
  then_update, count_directory, count_file, directory_entry, file_entry, special_entry,
  ingest_directory, ingest_file, ingest_special, ingest_stream, pend_stream, storage_get_idx,
  ingest_terminal, ingest_record, dispatch,
}
use pig_tree.Engine.Ingest.Terminal.{Answer, Refused, ingest_terminal-Answer}
use pig_tree.Engine.Ingest.Invariant.{with_current, ingest_record-IsBuilder}
use pig_tree.Engine.Load.{ingest_all, go_on}

-- The builder of an answer has at most one entry more.
record Grows (b : GraphBuilder) (r : Result GraphBuildError (Unit {0}) × GraphBuilder)
    : Type 0 where
  grows : length r.1.entries ≤ length b.entries + 1

same-Grows :
    (b : GraphBuilder) (r : Result GraphBuildError (Unit {0}) × GraphBuilder)
    → r.1.entries ≡ b.entries
    → Grows b r
same-Grows b r e = record { grows = rw e (omega arith) }

length-entries_after :
    (r : Result GraphBuildError (Unit {0})) (es : List CompactEntry) (e : CompactEntry)
    → length (entries_after r es e) ≤ length es + 1
length-entries_after (ok _) es e = omega (arith, length-append es (e ∷ []))
length-entries_after (err _) es e = omega arith

then_update-Grows :
    (b : GraphBuilder) (r : Result GraphBuildError (Unit {0}) × GraphBuilder)
    (f : GraphBuilder → GraphBuilder)
    → ((c : GraphBuilder) → (f c).entries ≡ c.entries)
    → Grows b r
    → Grows b (then_update r f)
then_update-Grows b (ok done, c) f same h = record { grows = rw (same c) h.grows }
then_update-Grows b (err e, c) f same h = h

module _ (b : GraphBuilder) (h : IsBuilder b) (room : length b.entries + 1 < 2 ^ 32) where
  validate-Grows :
      (id parent_id : ℕ) (entry : CompactEntry) (alloc : ℕ)
      → Grows b (validate_and_insert_entry id parent_id entry alloc b)
  validate-Grows id parent_id entry alloc =
      let (_, after) = validate-admit id parent_id entry alloc b h room in
      record {
        grows =
            rw after
              (length-entries_after (admit id parent_id entry.kind b.entries) b.entries entry);
      }

  ingest_directory-Grows : (dir : DirectoryObservation) → Grows b (ingest_directory dir b)
  unfolding ingest_directory
  ingest_directory-Grows dir =
      let alloc = unwrap_or_zero dir.allocated_size in
      then_update-Grows b
        (validate_and_insert_entry dir.entry_id dir.parent_id (directory_entry dir) alloc b)
        (count_directory dir) (λ c. refl)
        (validate-Grows dir.entry_id dir.parent_id (directory_entry dir) alloc)

  ingest_file-Grows : (f : FileObservation) → Grows b (ingest_file f b)
  unfolding ingest_file
  ingest_file-Grows f =
      then_update-Grows b (validate_and_insert_entry f.entry_id f.parent_id (file_entry f) 0 b)
        (count_file f) (λ c. refl) (validate-Grows f.entry_id f.parent_id (file_entry f) 0)

  ingest_special-Grows : (s : SpecialObservation) → Grows b (ingest_special s b)
  unfolding ingest_special
  ingest_special-Grows s =
      then_update-Grows b (validate_and_insert_entry s.entry_id s.parent_id (special_entry s) 0 b)
        (λ c. record c { special_count = c.special_count + 1 }) (λ c. refl)
        (validate-Grows s.entry_id s.parent_id (special_entry s) 0)

pend_stream-Grows :
    (b : GraphBuilder) (o : Option ℕ) (s : StreamObservation) → Grows b (pend_stream o s b)
pend_stream-Grows b none s = same-Grows b (pend_stream none s b) refl
pend_stream-Grows b (some i) s = same-Grows b (pend_stream (some i) s b) refl

ingest_terminal-Grows : (b : GraphBuilder) (t : TerminalObservation) → Grows b (ingest_terminal t b)
unfolding Answer Refused
ingest_terminal-Grows b t = elim (ingest_terminal-Answer t b) [
  | inl (matches, stored) ↦ rw stored (same-Grows b (ok tt, record b { terminal = some t }) refl)
  | inr (other, (e, refused)) ↦ rw refused (same-Grows b (err e, b) refl)
]

dispatch-Grows :
    (rec : ObservationRecord) (b : GraphBuilder)
    → IsBuilder b
    → length b.entries + 1 < 2 ^ 32
    → Grows b (dispatch rec b)
unfolding ingest_stream
dispatch-Grows (directory_record dir) b h room =
    let id = if dir.parent_id == 0 then dir.entry_id else dir.parent_id in
    let g =
      ingest_directory-Grows (record b { current_dir_id = id }) (with_current id b h) room dir in
    record { grows = g.grows }
dispatch-Grows (file_record f) b h room =
    let g =
      ingest_file-Grows (record b { current_dir_id = f.parent_id }) (with_current f.parent_id b h)
        room f in
    record { grows = g.grows }
dispatch-Grows (special_record s) b h room =
    let g =
      ingest_special-Grows (record b { current_dir_id = s.parent_id })
        (with_current s.parent_id b h) room s in
    record { grows = g.grows }
dispatch-Grows (stream_record s) b h room =
    pend_stream-Grows b (storage_get_idx s.parent_entry_id b) s
dispatch-Grows (gap_record gap) b h room = same-Grows b (dispatch (gap_record gap) b) refl
dispatch-Grows (terminal_record t) b h room = ingest_terminal-Grows b t

ingest_record-Grows :
    (rec : ObservationRecord) (b : GraphBuilder)
    → IsBuilder b
    → length b.entries + 1 < 2 ^ 32
    → Grows b (ingest_record rec b)
unfolding ingest_record
ingest_record-Grows rec b h room =
    elim (b.terminal)
      as (λ t. Grows b (elim t as (λ _. Result GraphBuildError (Unit {0}) × GraphBuilder) [
        | none ↦ dispatch rec b
        | some _ ↦ (err record_after_terminal, b)
      ])) [
        | none ↦ dispatch-Grows rec b h room
        | some t ↦ same-Grows b (err record_after_terminal, b) refl
      ]

from_ok : GraphBuilder → Result GraphBuildError GraphBuilder → GraphBuilder
from_ok b (ok c) = c
from_ok b (err e) = b

keep_going :
    (r : Result GraphBuildError (Unit {0}) × GraphBuilder)
    (next : GraphBuilder → Result GraphBuildError GraphBuilder) (c : GraphBuilder)
    → go_on r next ≡ ok c
    → next r.1 ≡ ok c
keep_going (ok done, b) next c h = h
keep_going (err e, b) next c h = absurd cc

-- From a builder that satisfies the invariant, an ingestion of records that is not refused ends in
-- a builder that satisfies it, if the entries and the records together are fewer than 2^32.
pub ingest_all-IsBuilder :
    (recs : List ObservationRecord) (b c : GraphBuilder)
    → IsBuilder b
    → length b.entries + length recs < 2 ^ 32
    → ingest_all recs b ≡ ok c
    → IsBuilder c
unfolding ingest_all from_ok
ingest_all-IsBuilder [] b c h room run =
    subst (λ (x : GraphBuilder). IsBuilder x) (ap (from_ok b) run) h
ingest_all-IsBuilder (rec ∷ recs) b c h room run =
    let fits : length b.entries + 1 < 2 ^ 32 = omega arith in
    let g = ingest_record-Grows rec b h fits in
    ingest_all-IsBuilder recs (ingest_record rec b).1 c (ingest_record-IsBuilder rec b h fits)
      (omega (arith, g.grows)) (keep_going (ingest_record rec b) (λ d. ingest_all recs d) c run)
