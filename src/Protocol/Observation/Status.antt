-- ===== src/Protocol/Observation/Status.antt =====
-- The external reference status of a filesystem object.
pub mod Derive
use pig_tree.Base.{
  ℕ, ◌≤◌, ◌<◌, ◌≡◌, ◌≢◌, ◌⊎◌, ◌↔◌, arith, Result, ok, err, ltb, ◌==◌, if◌then◌else◌, refl,
}
use pig_tree.Protocol.Observation.{
  ValueKnowledge, known, not_observed, unavailable, ExternalReferenceStatus, confirmed_none,
  confirmed_external, indeterminate, inconsistent_evidence, ObservationDecodeError,
  invalid_external_status,
}

unfoldable pub derive : ValueKnowledge ℕ → ℕ → ExternalReferenceStatus
derive ValueKnowledge.not_applicable observed = ExternalReferenceStatus.not_applicable
derive (known k) observed =
    if ltb k observed
    then inconsistent_evidence
    else if k == observed
    then confirmed_none
    else confirmed_external
derive not_observed observed = indeterminate
derive unavailable observed = indeterminate

-- `status as u8`.
abbrev pub status_byte : ExternalReferenceStatus → ℕ
status_byte confirmed_none = 1
status_byte confirmed_external = 2
status_byte indeterminate = 3
status_byte inconsistent_evidence = 4
status_byte ExternalReferenceStatus.not_applicable = 5

-- `ExternalReferenceStatus::from_u8`.
unfoldable pub status_from_u8 : ℕ → Result ObservationDecodeError ExternalReferenceStatus
status_from_u8 val =
    if val == 1
    then ok confirmed_none
    else if val == 2
    then ok confirmed_external
    else if val == 3
    then ok indeterminate
    else if val == 4
    then ok inconsistent_evidence
    else if val == 5
    then ok ExternalReferenceStatus.not_applicable
    else err (invalid_external_status val)
