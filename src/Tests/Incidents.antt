-- ===== src/Tests/Incidents.antt =====
-- The theorems on runner/evaluate.ts at the rows of Data.antt.
use synthwatch.Prelude.{none, some, true, false, [], ◌≡◌, refl, arith, any, inr}
use synthwatch.Types.{pass, fail, critical, warning, Run}
use synthwatch.World.{get_open_incident, in_maintenance_window}
use synthwatch.Verdict.{Verdict, incident_severity}
use synthwatch.Incident.{evaluate_from}
use synthwatch.Incident.Tame.{WellFormed}
use synthwatch.Incident.Invariant.{started, evaluated, Reached-WellFormed}
use synthwatch.Incident.Opening.{stands, evaluate_from_opens, evaluate_from_keeps}
use synthwatch.Incident.Paging.{evaluate_from_quiet}
use synthwatch.Incident.Races.{evaluate_from_recovers}
use synthwatch.Tests.Data.{
  checkout, run_of, transport, send_ok, open_incident_row, down_world, warned_world, quiet_world,
}

abbrev this_run : Run
this_run = run_of 4 "east" fail 5000

abbrev passing_run : Run
passing_run = run_of 6 "east" pass 5800

abbrev down_verdict : Verdict
down_verdict = record { down = true; failing = 2; failing_warning = 0; total = 2 }

abbrev up_verdict : Verdict
up_verdict = record { down = false; failing = 0; failing_warning = 0; total = 2 }

down_world-WellFormed : WellFormed down_world
down_world-WellFormed = record { numbered = tt; one_open = λ c. omega arith }

warned_world-WellFormed : WellFormed warned_world
warned_world-WellFormed = record { numbered = (omega arith, tt); one_open = λ c. ground arith }

-- Two evaluations that both found no incident, and a recovery between two later ones.
Reached-WellFormed_example : WellFormed (
    evaluate_from transport send_ok checkout this_run none none down_verdict
      (evaluate_from transport send_ok checkout this_run none none down_verdict down_world))
Reached-WellFormed_example =
    Reached-WellFormed transport send_ok down_world
      (evaluate_from transport send_ok checkout this_run none none down_verdict
        (evaluate_from transport send_ok checkout this_run none none down_verdict down_world))
      down_world-WellFormed
      (evaluated checkout this_run none none down_verdict
        (evaluated checkout this_run none none down_verdict started))

severity_down :
    incident_severity down_verdict.failing down_verdict.failing_warning down_verdict.total
      checkout.min_fail_locations checkout.severity
    ≡ some critical
unfolding incident_severity
severity_down = refl

severity_up :
    incident_severity up_verdict.failing up_verdict.failing_warning up_verdict.total
      checkout.min_fail_locations checkout.severity
    ≡ none
unfolding incident_severity
severity_up = refl

open_row_found : get_open_incident checkout.id warned_world ≡ some open_incident_row
unfolding get_open_incident
open_row_found = refl

no_window : in_maintenance_window checkout.id warned_world ≡ false
unfolding in_maintenance_window
no_window = refl

in_window : in_maintenance_window checkout.id quiet_world ≡ true
unfolding in_maintenance_window
in_window = refl

evaluate_from_opens_example :
    any
      (stands 7 critical)
      (evaluate_from transport send_ok checkout this_run none
        (some open_incident_row)
        down_verdict
        warned_world).incidents
    ≡ true
evaluate_from_opens_example =
    evaluate_from_opens transport send_ok checkout this_run none (some open_incident_row)
      down_verdict critical warned_world no_window (inr open_row_found) severity_down

evaluate_from_keeps_example :
    any
      (stands 7 warning)
      (evaluate_from transport send_ok checkout this_run none none down_verdict
        warned_world).incidents
    ≡ true
evaluate_from_keeps_example =
    evaluate_from_keeps transport send_ok checkout this_run none none down_verdict critical warning
      warned_world severity_down refl

evaluate_from_recovers_example :
    get_open_incident 7 (
      evaluate_from transport send_ok checkout passing_run none
        (get_open_incident 7 warned_world)
        up_verdict
        warned_world)
    ≡ none
evaluate_from_recovers_example =
    evaluate_from_recovers transport send_ok checkout passing_run none up_verdict warned_world
      warned_world-WellFormed severity_up

evaluate_from_quiet_example :
    (evaluate_from transport send_ok checkout this_run none
      (some open_incident_row)
      down_verdict
      quiet_world).alerts
    ≡ []
evaluate_from_quiet_example =
    evaluate_from_quiet transport send_ok checkout this_run none (some open_incident_row)
      down_verdict quiet_world in_window
