-- ===== src/Verdict/Quorum.antt =====
-- The quorum arithmetic of runner/evaluate.ts: effectiveN, crossLocationDown, incidentSeverity.
use synthwatch.Prelude.{ℕ, ◌≤◌, ◌<◌, Option, none, some, true, false, ◌≡◌, ◌⊎◌, arith}
use synthwatch.Types.{Severity, warning}
use synthwatch.Verdict.{cross_location_down, incident_severity}

-- Whatever the override, at least one reporting location is enough to reach N when all of them fail:
-- an override above the number of reporting locations does not block paging.
pub cross_location_down_all :
    (reporting : ℕ) (min_fail : Option ℕ)
    → 0 < reporting
    → cross_location_down reporting reporting min_fail ≡ true
unfolding cross_location_down
cross_location_down_all reporting none h = ground arith
cross_location_down_all reporting (some m) h = ground arith

-- A location that stops reporting, and so leaves the reporting set, never clears the decision.
pub cross_location_down_silent :
    (failing fewer reporting : ℕ) (min_fail : Option ℕ)
    → fewer ≤ reporting
    → cross_location_down failing reporting min_fail ≡ true
    → cross_location_down failing fewer min_fail ≡ true
unfolding cross_location_down
cross_location_down_silent failing fewer reporting none h d = ground arith
cross_location_down_silent failing fewer reporting (some m) h d = ground arith

-- The severity is the check's own exactly when the cross-location decision is down, else a warning
-- exactly when some location is past the warning bar, else nothing.
pub incident_severity_cases :
    (failing failing_warning total : ℕ) (min_fail : Option ℕ) (sev : Severity)
    → ((cross_location_down failing total min_fail ≡ true)
        × (incident_severity failing failing_warning total min_fail sev ≡ some sev))
      ⊎ ((cross_location_down failing total min_fail ≡ false)
          × (0 < failing_warning)
          × (incident_severity failing failing_warning total min_fail sev ≡ some warning))
      ⊎ ((cross_location_down failing total min_fail ≡ false)
          × (failing_warning ≡ 0)
          × (incident_severity failing failing_warning total min_fail sev ≡ none))
unfolding cross_location_down incident_severity
incident_severity_cases failing failing_warning total none sev = ground arith
incident_severity_cases failing failing_warning total (some m) sev = ground arith
