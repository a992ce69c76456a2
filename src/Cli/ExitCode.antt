-- ===== src/Cli/ExitCode.antt =====
-- When the command line reports success.
use pig_tree.Base.{◌≡◌, ◌≢◌, ◌↔◌, refl, List, [], ◌∷◌, true, arith}
use pig_tree.Cli.{
  exit_success, run_cancelled, run_failed, coverage_partial, ScanCallOutcome, finished, cancelled,
  settle_scan_response, settle_scan_outcome, is_empty,
}

-- The call finished, the run is neither cancelled nor failed, and the coverage is not partial and
-- has no gap.
unfoldable IsClean : {Gap : Type 0} → ScanCallOutcome Gap → Type 0
IsClean (cancelled response) = ⊥
IsClean (finished response) =
    (response.run_outcome ≢ run_cancelled)
    × (response.run_outcome ≢ run_failed)
    × (response.scope_coverage ≢ coverage_partial)
    × (response.coverage_gaps ≡ [])

empty_iff : {Gap : Type 0} → (gaps : List Gap) → (is_empty gaps ≡ true) ↔ (gaps ≡ [])
empty_iff [] = ((λ _. refl), (λ _. refl))
empty_iff (gap ∷ gaps) = ((λ e. cc), (λ e. cc))

-- The exit code is 0 exactly for a finished call whose response is neither cancelled nor failed
-- nor partial and has no coverage gap.
success_iff :
    {Gap : Type 0}
    → (outcome : ScanCallOutcome Gap)
    → (settle_scan_outcome outcome ≡ exit_success) ↔ IsClean outcome
unfolding settle_scan_outcome settle_scan_response IsClean
success_iff (cancelled response) = ((λ e. ground arith), (λ e. absurd e))
success_iff (finished response) =
    let (to, from) = empty_iff response.coverage_gaps in
    (
      (λ e. ((λ h. ground arith), (λ h. ground arith), (λ h. ground arith), to (ground arith))),
      (λ h. ground (arith, from h.3)),
    )
