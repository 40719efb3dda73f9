-- ===== src/Incident/Invariant.antt =====
-- The invariant of the `incidents` table and of the alert log under `evaluate` of runner/evaluate.ts.
use synthwatch.Prelude.{
  ℕ, String, Option, none, some, Bool, true, false, List, ◌≡◌, ◌∙◌, refl, arith, if◌then◌else◌,
  Bool-cases, inl, inr, All,
}
use synthwatch.Types.{Check, Run, Severity}
use synthwatch.Alerts.{Transport}
use synthwatch.Verdict.{Verdict, incident_severity}
use synthwatch.World.{Window, Incident, World, in_maintenance_window, get_open_incident, Send}
use synthwatch.Incident.{
  is_live, escalate_row, on_up, upsert_incident, open_incident, on_down, evaluate_from, evaluate,
  is_infra_error, upsert_row, escalates,
}
use synthwatch.Schedule.{CheckRow}
use synthwatch.StaleIncidents.{is_stranded, strand_row, close_stranded_incidents}
use synthwatch.Incident.Rows.{Keeps, count_of_find?-none, escalate_row-Keeps}
use synthwatch.Incident.Tame.{
  WellFormed, IsRouted, Tame, Tame-WellFormed, Tame-refl, then_update, on_up-Tame, escalate-Tame,
  after_upsert-Tame,
}

-- What holds between two worlds when an incident may have been opened.
pub record Sound (w w' : World) : Type 0 where
  pub well_formed : WellFormed w → WellFormed w'
  pub now : w'.now ≡ w.now
  pub runs : w'.runs ≡ w.runs
  pub routed : All IsRouted w.alerts → All IsRouted w'.alerts

Tame-Sound : {w w' : World} → Tame w w' → Sound w w'
Tame-Sound t = record {
  well_formed = Tame-WellFormed t;
  now = t.now;
  runs = t.runs;
  routed = t.routed;
}

Sound-Tame : {u v w : World} → Sound u v → Tame v w → Sound u w
Sound-Tame s t = record {
  well_formed = λ h. Tame-WellFormed t (s.well_formed h);
  now = t.now ∙ s.now;
  runs = t.runs ∙ s.runs;
  routed = λ h. t.routed (s.routed h);
}

-- The INSERT keeps the index: it adds a row only where the check has none open.
upsert_row-Sound :
    (check : Check) (run : Run) (desired : Severity) (n : ℕ) (w : World) (o : Option Incident)
    → get_open_incident check.id w ≡ o
    → Sound w (upsert_row check run desired n w o).0
unfolding upsert_row get_open_incident
upsert_row-Sound check run desired n w none e = record {
  well_formed = λ h. record {
    numbered = (omega arith, h.numbered);
    one_open = λ c. ground (arith, h.one_open c, count_of_find?-none check.id w.incidents e);
  };
  now = refl;
  runs = refl;
  routed = λ h. h;
}
upsert_row-Sound check run desired n w (some row) e =
    elim (Bool-cases (escalates row.severity desired)) [
      | inl y ↦ rw y (
          Tame-Sound (
            then_update (is_live row.id) (escalate_row true n) (escalate_row-Keeps true n)
              (Tame-refl w)))
      | inr n ↦ rw n (Tame-Sound (Tame-refl w))
    ]

if-Sound : (b : Bool) {u v w : World} → Sound w u → Sound w v → Sound w (if b then u else v)
if-Sound true h k = h
if-Sound false h k = k

module _ (env : Transport) (send : Send) where
  open_incident-Sound :
      (check : Check) (run : Run) (desired : Severity) (n : ℕ) (rca : Option String) (w : World)
      → Sound w (open_incident env send check run desired n rca w)
  unfolding open_incident upsert_incident
  open_incident-Sound check run desired n rca w =
      if-Sound (in_maintenance_window check.id w) (Tame-Sound (Tame-refl w)) (
        Sound-Tame (upsert_row-Sound check run desired n w _ refl)
          (after_upsert-Tame env send check run desired rca _ (Tame-refl _)))

  on_down-Sound :
      (check : Check) (run : Run) (v : Verdict) (desired : Severity) (rca : Option String)
      (found : Option Incident) (w : World)
      → Sound w (on_down env send check run v desired rca found w)
  unfolding on_down
  on_down-Sound check run v desired rca none w = open_incident-Sound check run desired _ rca w
  on_down-Sound check run v desired rca (some inc) w =
      Tame-Sound (escalate-Tame env send check run inc desired _ (Tame-refl w))

  pub evaluate_from-Sound :
      (check : Check) (run : Run) (rca : Option String) (found : Option Incident) (v : Verdict)
      (w : World)
      → Sound w (evaluate_from env send check run rca found v w)
  unfolding evaluate_from
  evaluate_from-Sound check run rca found v w =
      elim (incident_severity v.failing v.failing_warning v.total check.min_fail_locations
          check.severity)
        as (λ o. Sound w (elim o [
          | none ↦ on_up env send check run found w
          | some desired ↦ on_down env send check run v desired rca found w
        ])) [
          | none ↦ Tame-Sound (on_up-Tame env send check run found (Tame-refl w))
          | some desired ↦ on_down-Sound check run v desired rca found w
        ]

  pub evaluate-Sound :
      (check : Check) (run : Run) (rca : Option String) (w : World)
      → Sound w (evaluate env send check run rca w)
  unfolding evaluate
  evaluate-Sound check run rca w =
      if-Sound (is_infra_error run.status) (Tame-Sound (Tame-refl w))
        (evaluate_from-Sound check run rca _ _ w)

  -- From ids in order and at most one open incident for each check, `evaluate` leaves ids in order and
  -- at most one open incident for each check.
  pub evaluate-WellFormed :
      (check : Check) (run : Run) (rca : Option String) (w : World)
      → WellFormed w
      → WellFormed (evaluate env send check run rca w)
  evaluate-WellFormed check run rca w h = (evaluate-Sound check run rca w).well_formed h

  -- When every alert sent so far had its channels resolved at the severity that it carries, so has every
  -- alert after `evaluate`.
  pub evaluate-IsRouted :
      (check : Check) (run : Run) (rca : Option String) (w : World)
      → All IsRouted w.alerts
      → All IsRouted (evaluate env send check run rca w).alerts
  evaluate-IsRouted check run rca w h = (evaluate-Sound check run rca w).routed h

strand_row-Keeps : (now : ℕ) → Keeps (strand_row now)
strand_row-Keeps now = record {
  id = λ i. refl;
  check_id = λ i. refl;
  is_open = λ i h. cc;
  severity = λ i h. h;
}

-- The worlds that a sequence of evaluations reaches. Each acts on an incident and a verdict that it may
-- have read at any earlier time, and between two of them the sweep of stranded incidents runs, rows of
-- `runs` and windows come and go, and the clock moves.
pub data Reached (env : Transport) (send : Send) (start : World) : World → Type 0 where
  started : Reached env send start start
  evaluated :
      (check : Check) (run : Run) (rca : Option String) (found : Option Incident) (v : Verdict)
      {w : World}
      → Reached env send start w
      → Reached env send start (evaluate_from env send check run rca found v w)
  swept :
      (checks : List CheckRow) {w : World}
      → Reached env send start w
      → Reached env send start (close_stranded_incidents checks w).0
  elapsed :
      (now : ℕ) (runs : List Run) (windows : List Window) {w : World}
      → Reached env send start w
      → Reached env send start (record w { now = now; runs = runs; windows = windows })

-- From a world with at most one open incident for each check and ids in order, however the evaluations
-- of any checks and the sweeps of stranded incidents interleave, and however stale what each evaluation
-- has read, no check ever has two open incidents and ids stay in order.
pub Reached-WellFormed :
    (env : Transport) (send : Send) (start w : World)
    → WellFormed start
    → Reached env send start w
    → WellFormed w
unfolding close_stranded_incidents
Reached-WellFormed env send start w h started = h
Reached-WellFormed env send start _ h (swept checks {w} r) =
    (Tame-Sound (
        then_update (is_stranded checks) (strand_row w.now) (strand_row-Keeps w.now)
          (Tame-refl w))).well_formed
      (Reached-WellFormed env send start w h r)
Reached-WellFormed env send start _ h (evaluated check run rca found v {w} r) =
    (evaluate_from-Sound env send check run rca found v w).well_formed
      (Reached-WellFormed env send start w h r)
Reached-WellFormed env send start _ h (elapsed now runs windows {w} r) =
    let k = Reached-WellFormed env send start w h r in
    record { numbered = k.numbered; one_open = k.one_open }
