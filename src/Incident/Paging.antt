-- ===== src/Incident/Paging.antt =====
-- When runner/evaluate.ts sends nothing.
use synthwatch.Prelude.{ℕ, String, Option, none, some, true, ◌≡◌, refl, ◌∙◌, if-elim, any, arith}
use synthwatch.Types.{Check, Run, Severity, Status, pass, warn, infra_error}
use synthwatch.Alerts.{Transport}
use synthwatch.Verdict.{Verdict, incident_severity}
use synthwatch.World.{Incident, World, in_maintenance_window, Send, update_where}
use synthwatch.Incident.{
  is_live, maybe_notify_warn, resolve_incident, after_recovery, on_up, escalate, open_incident,
  on_down, evaluate_from, evaluate, is_infra_error, resolve_row, down_count,
}

-- Nothing was sent, and the clock and the windows stand.
record Quiet (w w' : World) : Type 0 where
  alerts : w'.alerts ≡ w.alerts
  now : w'.now ≡ w.now
  windows : w'.windows ≡ w.windows

Quiet-refl : (w : World) → Quiet w w
Quiet-refl w = record { alerts = refl; now = refl; windows = refl }

module _ (env : Transport) (send : Send) (check : Check) (run : Run) where
  maybe_notify_warn-quiet :
      (w : World)
      → in_maintenance_window check.id w ≡ true
      → (maybe_notify_warn env send check run w).alerts ≡ w.alerts
  unfolding maybe_notify_warn
  maybe_notify_warn-quiet w h = rw h

  after_recovery-quiet :
      (st : Status) (w : World)
      → in_maintenance_window check.id w ≡ true
      → (after_recovery env send st check run w).alerts ≡ w.alerts
  unfolding after_recovery
  after_recovery-quiet pass w h = refl
  after_recovery-quiet warn w h = maybe_notify_warn-quiet w h
  after_recovery-quiet _ w h = refl

  resolve_incident-Quiet :
      (inc : Incident) (w : World)
      → in_maintenance_window check.id w ≡ true
      → Quiet w (resolve_incident env send check run inc w)
  unfolding resolve_incident in_maintenance_window
  resolve_incident-Quiet inc w h =
      let w' = record w {
        incidents = update_where (is_live inc.id) (resolve_row run.id w.now) w.incidents;
      } in
      rw h (
        if-elim (Quiet w) (any (is_live inc.id) w.incidents) w' w
          (λ _. record { alerts = refl; now = refl; windows = refl }) (λ _. Quiet-refl w))

  on_up-quiet :
      (found : Option Incident) (w : World)
      → in_maintenance_window check.id w ≡ true
      → (on_up env send check run found w).alerts ≡ w.alerts
  unfolding on_up in_maintenance_window
  on_up-quiet none w h = after_recovery-quiet run.status w h
  on_up-quiet (some inc) w h =
      let q = resolve_incident-Quiet inc w h in
      after_recovery-quiet run.status (resolve_incident env send check run inc w)
        (rw (q.now, q.windows) h)
      ∙ q.alerts

  escalate-quiet :
      (inc : Incident) (desired : Severity) (n : ℕ) (w : World)
      → in_maintenance_window check.id w ≡ true
      → (escalate env send check run inc desired n w).alerts ≡ w.alerts
  unfolding escalate in_maintenance_window
  escalate-quiet inc desired n w h = rw h (ground arith)

  on_down-quiet :
      (v : Verdict) (desired : Severity) (rca : Option String) (found : Option Incident) (w : World)
      → in_maintenance_window check.id w ≡ true
      → (on_down env send check run v desired rca found w).alerts ≡ w.alerts
  unfolding on_down open_incident
  on_down-quiet v desired rca none w h = rw h
  on_down-quiet v desired rca (some inc) w h =
      escalate-quiet inc desired (down_count check run v w) w h

  -- Inside a maintenance window of the check or of the fleet an evaluation sends no alert, whatever the
  -- run, the verdict and the incident that was read.
  pub evaluate_from_quiet :
      (rca : Option String) (found : Option Incident) (v : Verdict) (w : World)
      → in_maintenance_window check.id w ≡ true
      → (evaluate_from env send check run rca found v w).alerts ≡ w.alerts
  unfolding evaluate_from
  evaluate_from_quiet rca found v w h =
      elim (incident_severity v.failing v.failing_warning v.total check.min_fail_locations
          check.severity)
        as (λ o.
          let u : World = elim o [
            | none ↦ on_up env send check run found w
            | some desired ↦ on_down env send check run v desired rca found w
          ] in
          u.alerts ≡ w.alerts) [
            | none ↦ on_up-quiet found w h
            | some desired ↦ on_down-quiet v desired rca found w h
          ]

  -- A run that could not fetch its own spec changes nothing: no incident, no alert, no debounce.
  pub evaluate_infra_error :
      (rca : Option String) (w : World)
      → run.status ≡ infra_error
      → evaluate env send check run rca w ≡ w
  unfolding evaluate is_infra_error
  evaluate_infra_error rca w h = rw h
