-- ===== src/Protocol/Protobuf.antt =====
-- The messages of crates/pigtree-protocol/proto/session.proto that the graph answers with, and
-- the conversions of crates/pigtree-protocol/src/protobuf.rs. An enum field of a message is the
-- number of its constant.
use pig_tree.Base.{ℕ, List, Bool, Option}
use pig_tree.Protocol.Observation.{
  ValueKnowledge, known, not_observed, unavailable, ExternalReferenceStatus, confirmed_none,
  confirmed_external, indeterminate, inconsistent_evidence,
}

pub record LinkCountKnowledgeProto : Type 0 where
  pub status : ℕ
  pub count : ℕ

-- `From<ValueKnowledge<u32>>`.
abbrev pub link_count_proto : ValueKnowledge ℕ → LinkCountKnowledgeProto
link_count_proto not_observed = record { status = 2; count = 0 }
link_count_proto (known c) = record { status = 1; count = c }
link_count_proto unavailable = record { status = 3; count = 0 }
link_count_proto ValueKnowledge.not_applicable = record { status = 4; count = 0 }

-- `From<ExternalReferenceStatus>`, as the constant's number.
abbrev pub external_status_proto : ExternalReferenceStatus → ℕ
external_status_proto confirmed_none = 1
external_status_proto confirmed_external = 2
external_status_proto indeterminate = 3
external_status_proto inconsistent_evidence = 4
external_status_proto ExternalReferenceStatus.not_applicable = 5

pub record ContentStreamProto : Type 0 where
  pub name : List ℕ
  pub logical_bytes : ℕ
  pub allocated_bytes : ℕ
  pub allocated_size_known : Bool

pub record DirectoryEntryNode : Type 0 where
  pub id : ℕ
  pub parent_id : ℕ
  pub name : List ℕ
  pub entry_kind : ℕ
  pub logical_bytes : ℕ
  pub referenced_allocated_bytes : ℕ
  pub allocated_size_known : Bool
  pub child_count : ℕ
  pub has_children : Bool
  pub unique_allocated_bytes : ℕ
  pub observed_alias_count : ℕ
  pub total_link_count : Option LinkCountKnowledgeProto
  pub external_reference_status : ℕ
  pub known_subtotal_allocated_bytes : ℕ
  pub content_streams : List ContentStreamProto
