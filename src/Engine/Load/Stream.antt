-- ===== src/Engine/Load/Stream.antt =====
-- A stream of records from the writer, through the reader, into the builder.
use pig_tree.Base.{
  ℕ, zero, suc, ◌<◌, ◌≡◌, refl, List, [], ◌∷◌, ◌++◌, append-nil, append_assoc, All, length, Option,
  some, Result, ok, err, arith,
}
use pig_tree.Protocol.Io.{eof}
use pig_tree.Protocol.Observation.{ObservationRecord}
use pig_tree.Protocol.Observation.Write
use pig_tree.Protocol.Observation.Write.{Write, ◌>>◌, continue}
use pig_tree.Protocol.Observation.Read
use pig_tree.Protocol.Observation.Read.{ObservationReader, read_record}
use pig_tree.Protocol.Observation.Parts.{IsShort}
use pig_tree.Protocol.Observation.RoundTrip.Records.{
  IsRecord, write_record, record_bytes, write_record-record_bytes, read_record-record_bytes,
  reader_at, new-new,
}
use pig_tree.Engine.Builder.{GraphBuildError, GraphBuilder}
use pig_tree.Engine.Builder
use pig_tree.Engine.Ingest.{ingest_record}
use pig_tree.Engine.Load.{go_on, go_on_reading, ingest_all, load}

-- A caller of the writer that writes these records in turn.
unfoldable pub write_records : List ObservationRecord → Write
write_records [] out = (ok tt, out)
write_records (rec ∷ recs) out =
    continue (write_record rec out).0 (write_records recs) (write_record rec out).1

records_bytes : List ObservationRecord → List ℕ
records_bytes [] = []
records_bytes (rec ∷ recs) = record_bytes rec ++ records_bytes recs

write_records-eq :
    (recs : List ObservationRecord) (out : List ℕ)
    → All IsRecord recs
    → write_records recs out ≡ (ok tt, out ++ records_bytes recs)
unfolding write_records records_bytes
write_records-eq [] out h = rw (append-nil out)
write_records-eq (rec ∷ recs) out (hr, hs) =
    rw (write_record-record_bytes rec out hr, write_records-eq recs (out ++ record_bytes rec) hs)
      (rw (append_assoc out (record_bytes rec) (records_bytes recs)))

go_on-reading :
    (r : Result GraphBuildError (Unit {0}) × GraphBuilder)
    (f : GraphBuilder → Option (Result GraphBuildError GraphBuilder))
    (g : GraphBuilder → Result GraphBuildError GraphBuilder)
    → ((c : GraphBuilder) → f c ≡ some (g c))
    → go_on_reading r f ≡ some (go_on r g)
go_on-reading (ok done, b) f g h = h b
go_on-reading (err e, b) f g h = refl

load-records_bytes :
    (recs : List ObservationRecord) (path : List ℕ) (b : GraphBuilder) (n : ℕ)
    → All IsRecord recs
    → length recs < n
    → load n (reader_at path (records_bytes recs) eof) b ≡ some (ingest_all recs b)
unfolding load ingest_all records_bytes read_record
load-records_bytes recs path b zero h lt = absurd (omega arith)
load-records_bytes [] path b (suc n) h lt = refl
load-records_bytes (rec ∷ recs) path b (suc n) (hr, hs) lt =
    rw (read_record-record_bytes rec path (records_bytes recs) eof hr) (
      go_on-reading (ingest_record rec b) (λ c. load n (reader_at path (records_bytes recs) eof) c)
        (λ c. ingest_all recs c) (λ c. load-records_bytes recs path c n hs (omega arith)))

-- With fuel for more turns than there are records, what the writer makes of a header and of
-- records in the range of their types is read back, and the builder ends as if it were given the
-- records themselves: with the builder behind the last one, or with the first refusal.
pub load-write_records :
    (recs : List ObservationRecord) (path : List ℕ) (n : ℕ)
    → IsShort path
    → All IsRecord recs
    → length recs < n
    → (bytes : List ℕ) × ((r : ObservationReader) × ((Write.new path >> write_records recs) []
          ≡ (ok tt, bytes))
        × (Read.new (record { bytes = bytes; end = eof }) ≡ ok r)
        × (load n r (Builder.new r.target_path) ≡ some (ingest_all recs (Builder.new path))))
load-write_records recs path n short h lt =
    let (header, written, opened) = new-new path (records_bytes recs) eof short in
    (
      header ++ records_bytes recs,
      (
        reader_at path (records_bytes recs) eof,
        rw (◌>>◌, written) (write_records-eq recs header h),
        opened,
        load-records_bytes recs path (Builder.new path) n h lt,
      ),
    )
