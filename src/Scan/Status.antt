-- ===== src/Scan/Status.antt =====
-- The states of a scan job and the outcome of a scan (internal/scan/manager.go, clamd.go), and
-- `mergeResults` of internal/scan/cache.go.
use i_filter_imitation.Common.{Bool, true, false, if◌then◌else◌, Text, ◌≡◌, arith, ◌⊎◌, ◌↔◌}

pub data ScanStatus : Type 0 where
  pending scanning clean infected error too_large : ScanStatus

pub record ScanResult : Type 0 where
  pub clean : Bool
  pub threat_name : Text

abbrev pub is_clean : ScanStatus → Bool
is_clean clean = true
is_clean _ = false

abbrev pub is_infected : ScanStatus → Bool
is_infected infected = true
is_infected _ = false

abbrev pub Verdict : Type 0
Verdict = ScanStatus × Text

unfoldable pub merge_results : Verdict → Verdict → Verdict
merge_results (a_status, a_threat) (b_status, b_threat) =
    if is_infected a_status
    then (infected, a_threat)
    else if is_infected b_status
    then (infected, b_threat)
    else (a_status, a_threat)

-- The merged verdict is infected exactly when one of the two is.
pub merge_results-infected :
    (a b : Verdict)
    → (is_infected (merge_results a b).0 ≡ true)
      ↔ ((is_infected a.0 ≡ true) ⊎ (is_infected b.0 ≡ true))
unfolding merge_results
merge_results-infected (a, s) (b, t) = ground arith
