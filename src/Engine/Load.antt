-- ===== src/Engine/Load.antt =====
-- The loop of `build_from_reader_with_progress` of crates/pigtree-engine/src/builder.rs, which
-- reads records and ingests them up to the end of the stream or the first error. The progress
-- that it reports on the way reads the builder and the clock, and changes neither builder nor
-- reader; it is not modelled. The loop runs on fuel, one unit for a turn.
pub mod Growth
pub mod Lookup
pub mod Stream
use pig_tree.Base.{ℕ, zero, suc, Option, none, some, List, [], ◌∷◌, Result, ok, err}
use pig_tree.Protocol.Observation.{ObservationRecord, ObservationDecodeError}
use pig_tree.Protocol.Observation.Read.{ObservationReader, read_record}
use pig_tree.Engine.Builder.{GraphBuildError, decode, GraphBuilder, new}
use pig_tree.Engine.Ingest.{ingest_record}

-- The records of a list in turn, up to the first error.
abbrev pub go_on :
    Result GraphBuildError (Unit {0}) × GraphBuilder
    → (GraphBuilder → Result GraphBuildError GraphBuilder)
    → Result GraphBuildError GraphBuilder
go_on (err e, b) next = err e
go_on (ok _, b) next = next b

unfoldable pub ingest_all :
    List ObservationRecord → GraphBuilder → Result GraphBuildError GraphBuilder
ingest_all [] b = ok b
ingest_all (rec ∷ recs) b = go_on (ingest_record rec b) (λ c. ingest_all recs c)

abbrev pub go_on_reading :
    Result GraphBuildError (Unit {0}) × GraphBuilder
    → (GraphBuilder → Option (Result GraphBuildError GraphBuilder))
    → Option (Result GraphBuildError GraphBuilder)
go_on_reading (err e, b) next = some (err e)
go_on_reading (ok _, b) next = next b

-- One turn, by what `read_record` answers.
abbrev pub turn :
    Result ObservationDecodeError (Option ObservationRecord × ObservationReader)
    → GraphBuilder
    → (ObservationReader → GraphBuilder → Option (Result GraphBuildError GraphBuilder))
    → Option (Result GraphBuildError GraphBuilder)
turn (err e) b next = some (err (decode e))
turn (ok (none, r)) b next = some (ok b)
turn (ok (some rec, r)) b next = go_on_reading (ingest_record rec b) (λ c. next r c)

unfoldable pub load :
    ℕ → ObservationReader → GraphBuilder → Option (Result GraphBuildError GraphBuilder)
load zero r b = none
load (suc n) r b = turn (read_record r) b (λ s c. load n s c)
