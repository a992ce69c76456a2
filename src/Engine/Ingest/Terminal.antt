-- ===== src/Engine/Ingest/Terminal.antt =====
-- The terminal record: its counters against those of the ingestion, and what comes after it.
use pig_tree.Base.{
  ℕ, ◌≡◌, ◌⊎◌, refl, sym, subst, ◌≢◌, ap, ◌∙◌, Option, none, some, not, length, ◌==◌, if◌then◌else◌,
  arith, inl, inr, Bool-cases, ==_iff, Result, ok, err,
}
use pig_tree.Protocol.Observation.{TerminalObservation, ObservationRecord, terminal_record}
use pig_tree.Engine.Builder.{
  GraphBuilder, GraphBuildError, record_after_terminal, aggregate_mismatch, total_directories,
  total_files, total_logical_bytes, total_allocated_bytes, coverage_gap_count, as_u32,
}
use pig_tree.Engine.Ingest.{ingest_terminal, ingest_record, dispatch}

-- The counters of the record are those of the builder.
pub record Matches (t : TerminalObservation) (b : GraphBuilder) : Type 0 where
  pub directories : t.total_directories ≡ b.dir_count
  pub files : t.total_files ≡ b.file_count
  pub logical : t.total_logical_bytes ≡ b.logical_bytes
  pub allocated : t.total_allocated_bytes ≡ b.allocated_bytes
  pub gap_count : t.coverage_gap_count ≡ as_u32 (length b.gaps)

unfoldable pub Refused : Result GraphBuildError (Unit {0}) × GraphBuilder → GraphBuilder → Type 0
Refused r b = (e : GraphBuildError) × (r ≡ (err e, b))

unfoldable pub Answer :
    TerminalObservation → GraphBuilder → Result GraphBuildError (Unit {0}) × GraphBuilder → Type 0
Answer t b r =
    (Matches t b × (r ≡ (ok tt, record b { terminal = some t }))) ⊎ ((¬ Matches t b) × Refused r b)

refuse-unless :
    (t : TerminalObservation) (b : GraphBuilder) (m n : ℕ) (e : GraphBuildError)
    (r : Result GraphBuildError (Unit {0}) × GraphBuilder)
    → (Matches t b → m ≡ n)
    → (m ≡ n → Answer t b r)
    → Answer t b (if not (m == n) then (err e, b) else r)
unfolding Answer Refused
refuse-unless t b m n e r needs next = elim (Bool-cases (m == n)) [
  | inl same ↦ rw same (next ((==_iff m n).0 same))
  | inr other ↦ rw other (inr ((λ h. ground (arith, needs h)), (e, refl)))
]

pub ingest_terminal-Answer :
    (t : TerminalObservation) (b : GraphBuilder) → Answer t b (ingest_terminal t b)
unfolding ingest_terminal Answer
ingest_terminal-Answer t b =
    let d = t.total_directories in
    let f = t.total_files in
    let l = t.total_logical_bytes in
    let a = t.total_allocated_bytes in
    let g = t.coverage_gap_count in
    refuse-unless t b d b.dir_count (aggregate_mismatch total_directories d b.dir_count) _
      (λ h. h.directories)
      (λ hd.
        refuse-unless t b f b.file_count (aggregate_mismatch total_files f b.file_count) _
          (λ h. h.files)
          (λ hf.
            refuse-unless t b l b.logical_bytes
              (aggregate_mismatch total_logical_bytes l b.logical_bytes) _ (λ h. h.logical)
              (λ hl.
                refuse-unless t b a b.allocated_bytes
                  (aggregate_mismatch total_allocated_bytes a b.allocated_bytes) _
                  (λ h. h.allocated)
                  (λ ha.
                    refuse-unless t b g (as_u32 (length b.gaps))
                      (aggregate_mismatch coverage_gap_count g (length b.gaps)) _ (λ h. h.gap_count)
                      (λ hg. inl (
                        record {
                          directories = hd;
                          files = hf;
                          logical = hl;
                          allocated = ha;
                          gap_count = hg;
                        },
                        refl,
                      ))))))

-- A terminal record that comes first is accepted exactly when its five counters are those of the
-- builder, and is then stored; else it is refused and the builder is as before.
pub ingest_record-Answer :
    (t : TerminalObservation) (b : GraphBuilder)
    → b.terminal ≡ none
    → Answer t b (ingest_record (terminal_record t) b)
unfolding ingest_record
ingest_record-Answer t b first =
    subst
      (λ o. Answer t b (elim o as (λ _. Result GraphBuildError (Unit {0}) × GraphBuilder) [
        | none ↦ ingest_terminal t b
        | some _ ↦ (err record_after_terminal, b)
      ]))
      (sym first) (ingest_terminal-Answer t b)

closed :
    (b : GraphBuilder) (t : TerminalObservation) (rec : ObservationRecord)
    → b.terminal ≡ some t
    → ingest_record rec b ≡ (err record_after_terminal, b)
unfolding ingest_record
closed b t rec over =
    ap
      (λ (o : Option TerminalObservation).
        elim o as (λ _. Result GraphBuildError (Unit {0}) × GraphBuilder) [
          | none ↦ dispatch rec b
          | some _ ↦ (err record_after_terminal, b)
        ])
      over

ok-ne-err : (e : GraphBuildError) → Result.ok tt ≢ err e
ok-ne-err e h = cc

-- Once a terminal record is accepted, every further record is refused and changes nothing.
pub after_terminal :
    (t : TerminalObservation) (b : GraphBuilder) (rec : ObservationRecord)
    → b.terminal ≡ none
    → (ingest_record (terminal_record t) b).0 ≡ ok tt
    → let (_, c) = ingest_record (terminal_record t) b in
      ingest_record rec c ≡ (err record_after_terminal, c)
unfolding Answer Refused
after_terminal t b rec first accepted = elim (ingest_record-Answer t b first) [
  | inl (matches, stored) ↦
      closed (ingest_record (terminal_record t) b).1 t rec
        (ap (λ (r : Result GraphBuildError (Unit {0}) × GraphBuilder). r.1.terminal) stored)
  | inr (other, (e, refused)) ↦ absurd (
      ok-ne-err e
        (sym accepted ∙ ap (λ (r : Result GraphBuildError (Unit {0}) × GraphBuilder). r.0) refused))
]
