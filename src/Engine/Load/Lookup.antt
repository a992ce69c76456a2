-- ===== src/Engine/Load/Lookup.antt =====
-- The lookup of an id in the builder that an ingestion ends with, and in the storage that is made of
-- it, against a search through the entries.
use pig_tree.Base.{ℕ, ◌^◌, ◌<◌, ◌≡◌, ◌≢◌, List, length, arith, ok}
use pig_tree.Protocol.Observation.{ObservationRecord}
use pig_tree.Engine.Graph.{at_index, storage_get}
use pig_tree.Engine.Builder.{GraphBuilder, new}
use pig_tree.Engine.Builder.Index.{find_id}
use pig_tree.Engine.Builder.Invariant.{IsBuilder}
use pig_tree.Engine.Ingest.{storage_get_idx}
use pig_tree.Engine.Ingest.Invariant.{new-IsBuilder}
use pig_tree.Engine.Ingest.Storage.{storage_of, storage_get_idx-eq, storage_get-eq}
use pig_tree.Engine.Load.{ingest_all}
use pig_tree.Engine.Load.Growth.{ingest_all-IsBuilder}

module _ (target : List ℕ) (recs : List ObservationRecord) (c : GraphBuilder)
    (short : length recs < 2 ^ 32) (run : ingest_all recs (new target) ≡ ok c) where
  ready : IsBuilder c
  unfolding new
  ready = ingest_all-IsBuilder recs (new target) c (new-IsBuilder target) (omega arith) run

  -- After any records that a new builder has taken, fewer than 2^32, the lookup of an id, through
  -- the dense or the sparse index, is a search through the entries.
  pub storage_get_idx-ingest_all : (id : ℕ) → storage_get_idx id c ≡ find_id id c.entries
  storage_get_idx-ingest_all id = storage_get_idx-eq id c ready.index

  -- After any records that a new builder has taken, fewer than 2^32, the storage that is made of
  -- the entries finds for an id other than 0 what a search through the entries finds.
  pub storage_get-ingest_all :
      (id : ℕ) → id ≢ 0 → storage_get (storage_of c) id ≡ at_index c.entries (find_id id c.entries)
  storage_get-ingest_all id nonzero = storage_get-eq id c ready.index nonzero
