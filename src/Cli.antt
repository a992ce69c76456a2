-- ===== src/Cli.antt =====
-- The exit code of the command line, from crates/pigtree-cli/src/lib.rs. Of a `ScanResponse` only
-- the fields that the exit code reads stand here; the text for the standard output is not modelled.
pub mod ExitCode
use pig_tree.Base.{ℕ, List, [], ◌∷◌, Bool, true, false, not, ◌||◌, ◌==◌, if◌then◌else◌}

abbrev pub exit_success : ℕ
exit_success = 0

abbrev pub exit_operation_failed : ℕ
exit_operation_failed = 1

abbrev pub exit_cancelled : ℕ
exit_cancelled = 3

abbrev pub exit_coverage_gaps_present : ℕ
exit_coverage_gaps_present = 4

-- The numbers of the constants of session.proto.
abbrev pub run_cancelled : ℕ
run_cancelled = 2

abbrev pub run_failed : ℕ
run_failed = 3

abbrev pub coverage_partial : ℕ
coverage_partial = 2

-- A coverage gap is of any type: only whether there is one counts.
pub record ScanResponse (Gap : Type 0) : Type 0 where
  pub run_outcome : ℕ
  pub scope_coverage : ℕ
  pub coverage_gaps : List Gap

pub data ScanCallOutcome (Gap : Type 0) : Type 0 where
  finished cancelled : ScanResponse Gap → ScanCallOutcome Gap

abbrev pub is_empty : {Gap : Type 0} → List Gap → Bool
is_empty [] = true
is_empty (_ ∷ _) = false

-- `settle_scan_response`, its exit code.
unfoldable pub settle_scan_response : {Gap : Type 0} → ScanResponse Gap → Bool → ℕ
settle_scan_response response is_cancelled =
    if is_cancelled || response.run_outcome == run_cancelled
    then exit_cancelled
    else if not (is_empty response.coverage_gaps) || response.scope_coverage == coverage_partial
    then exit_coverage_gaps_present
    else if response.run_outcome == run_failed
    then exit_operation_failed
    else exit_success

-- `settle_scan_outcome`, its exit code.
unfoldable pub settle_scan_outcome : {Gap : Type 0} → ScanCallOutcome Gap → ℕ
settle_scan_outcome (finished response) = settle_scan_response response false
settle_scan_outcome (cancelled response) = settle_scan_response response true
