-- ===== src/Incident.antt =====
-- runner/evaluate.ts: the life of an incident. A function that the code awaits takes the world and
-- returns it; what the code reads before it acts (the open incident and the verdict) is an argument of
-- `evaluate_from`, so that two evaluations whose reads precede both writes can be stated. The message
-- texts are left out. `rca` is what runRca answered, nothing when it is off or failed.
pub mod Rows
pub mod Tame
pub mod Invariant
pub mod Races
pub mod Opening
pub mod Paging
use synthwatch.Prelude.{
  ℕ, suc, ◌+◌, ◌*◌, String, Option, none, some, Bool, true, false, ◌&&◌, List, [], ◌∷◌, not,
  if◌then◌else◌, ltb, leb, ◌==◌, any, find?,
}
use synthwatch.Types.{Status, pass, warn, infra_error, Severity, critical, Check, Run, is_critical}
use synthwatch.Alerts.{Transport, DispatchResult}
use synthwatch.World.{
  NotifyStatus, sent, failed, skipped, Incident, Notice, NoticeKind, opened, escalated, recovered,
  rca_ready, warned, alert_dispatch_failed, World, set_at, update_where, in_maintenance_window,
  get_open_incident, Send, dispatch,
}
use synthwatch.Verdict.{Verdict, aggregate_verdict, incident_severity, count_consecutive_down}

pub notify_status_of : DispatchResult → NotifyStatus
notify_status_of r = if r.active == 0 then skipped else if ltb 0 r.delivered then sent else failed

abbrev pub is_failed : NotifyStatus → Bool
is_failed failed = true
is_failed _ = false

abbrev pub account : NotifyStatus → Incident → Incident
account st i = record i { notify_status = some st; notify_attempts = i.notify_attempts + 1 }

-- `recordIncidentDispatch`
pub record_incident_dispatch : ℕ → ℕ → DispatchResult → World → World
record_incident_dispatch incident_id check_id r w =
    let st = notify_status_of r in
    let incidents = update_where (λ i. i.id == incident_id) (account st) w.incidents in
    if is_failed st
    then record w {
      incidents = incidents;
      runner_errors = (alert_dispatch_failed, check_id) ∷ w.runner_errors;
    }
    else record w { incidents = incidents }

-- `WHERE id = $1 AND status = 'open'`
abbrev pub is_live : ℕ → Incident → Bool
is_live id i = i.is_open && i.id == id

abbrev pub resolve_row : ℕ → ℕ → Incident → Incident
resolve_row run_id now i = record i {
  is_open = false;
  resolved_at = some now;
  resolved_run_id = some run_id;
}

abbrev pub escalate_row : Bool → ℕ → Incident → Incident
escalate_row escalating consecutive i = record i {
  consecutive_failures = consecutive;
  severity = if escalating then critical else i.severity;
}

-- `incidents.severity = 'warning' AND EXCLUDED.severity = 'critical'`
abbrev pub escalates : Severity → Severity → Bool
escalates old desired = not (is_critical old) && is_critical desired

-- `rca_notified_at IS NULL`
abbrev pub not_notified : Option ℕ → Bool
not_notified none = true
not_notified (some _) = false

-- `WHERE id = $1 AND rca_notified_at IS NULL`
abbrev pub unclaimed : ℕ → Incident → Bool
unclaimed id i = i.id == id && not_notified i.rca_notified_at

abbrev pub claim_rca : ℕ → Incident → Incident
claim_rca now i = record i { rca_notified_at = some now }

-- `run.status === 'infra_error'`
pub is_infra_error : Status → Bool
is_infra_error infra_error = true
is_infra_error _ = false

-- The `due` of the warn debounce.
pub warn_due : Check → World → Bool
warn_due check w = elim (w.last_warn_notified_at check.id) [
  | none ↦ true
  | some t ↦ leb (t + check.warn_renotify_seconds * 1000) w.now
]

-- The payload of an alert about an incident.
abbrev pub notice_for : Check → Severity → NoticeKind → Option ℕ → Option ℕ → Notice
notice_for check sev kind incident_id run_id = record {
  check_id = check.id;
  severity = sev;
  kind = kind;
  incident_id = incident_id;
  run_id = run_id;
}

-- `escRows[0]?.severity === 'critical'`
pub live_critical : ℕ → List Incident → Bool
live_critical id is = elim (find? (is_live id) is) [
  | none ↦ false
  | some row ↦ is_critical row.severity
]

pub data Upsert : Type 0 where
  inserted updated : ℕ → Upsert
  conflict : Upsert

abbrev pub fresh_row : Check → Run → Severity → ℕ → World → Incident
fresh_row check run desired consecutive w = record {
  id = w.next_incident_id;
  check_id = check.id;
  is_open = true;
  severity = desired;
  opened_run_id = run.id;
  resolved_run_id = none;
  consecutive_failures = consecutive;
  opened_at = w.now;
  resolved_at = none;
  rca = none;
  rca_notified_at = none;
  notify_status = none;
  notify_attempts = 0;
}

-- The INSERT with its ON CONFLICT clause, by the row of the partial unique index on open incidents.
pub upsert_row : Check → Run → Severity → ℕ → World → Option Incident → World × Upsert
upsert_row check run desired consecutive w none = (
  record w {
    incidents = fresh_row check run desired consecutive w ∷ w.incidents;
    next_incident_id = suc w.next_incident_id;
  },
  inserted w.next_incident_id,
)
upsert_row check run desired consecutive w (some row) =
    if escalates row.severity desired
    then (
      record w {
        incidents = update_where (is_live row.id) (escalate_row true consecutive) w.incidents;
      },
      updated row.id,
    )
    else (w, conflict)

pub upsert_incident : Check → Run → Severity → ℕ → World → World × Upsert
upsert_incident check run desired consecutive w =
    upsert_row check run desired consecutive w (get_open_incident check.id w)

-- The count of the incident: the failing locations, or the consecutive downs of a sole location.
pub down_count : Check → Run → Verdict → World → ℕ
down_count check run v w =
    if ltb 1 v.total
    then v.failing
    else count_consecutive_down check.id check.failure_threshold run.location w.runs

module _ (env : Transport) (send : Send) where
  -- A dispatch about an incident, and its accounting.
  pub page : Notice → Severity → ℕ → World → World
  page n sev incident_id w =
      let (w', r) = dispatch env send n sev w in
      record_incident_dispatch incident_id n.check_id r w'

  -- `maybeNotifyWarn`
  pub maybe_notify_warn : Check → Run → World → World
  maybe_notify_warn check run w =
      let n = notice_for check check.severity warned none (some run.id) in
      let (w', r) = dispatch env send n check.severity w in
      if in_maintenance_window check.id w
      then w
      else if not (warn_due check w)
      then w
      else if ltb 0 r.active && r.delivered == 0
      then w'
      else record w' {
        last_warn_notified_at = set_at w.last_warn_notified_at check.id (some w.now);
      }

  -- The resolving UPDATE, and the recovery page of the evaluation whose UPDATE changed a row.
  pub resolve_incident : Check → Run → Incident → World → World
  resolve_incident check run inc w =
      let w' = record w {
        incidents = update_where (is_live inc.id) (resolve_row run.id w.now) w.incidents;
      } in
      let n = notice_for check inc.severity recovered (some inc.id) (some run.id) in
      let paged = page n inc.severity inc.id w' in
      if any (is_live inc.id) w.incidents
      then if in_maintenance_window check.id w' then w' else paged
      else w

  pub after_recovery : Status → Check → Run → World → World
  after_recovery pass check run w = record w {
    last_warn_notified_at = set_at w.last_warn_notified_at check.id none;
  }
  after_recovery warn check run w = maybe_notify_warn check run w
  after_recovery _ check run w = w

  -- The branch of `evaluate` with no region sustainedly down.
  pub on_up : Check → Run → Option Incident → World → World
  on_up check run none w = after_recovery run.status check run w
  on_up check run (some inc) w =
      after_recovery run.status check run (resolve_incident check run inc w)

  -- The branch with an incident already open.
  pub escalate : Check → Run → Incident → Severity → ℕ → World → World
  escalate check run inc desired consecutive w =
      let escalating = escalates inc.severity desired in
      let w' = record w {
        incidents = update_where (is_live inc.id) (escalate_row escalating consecutive) w.incidents;
      } in
      let n = notice_for check critical escalated (some inc.id) (some run.id) in
      let paged = page n critical inc.id w' in
      if escalating && live_critical inc.id w'.incidents
      then if in_maintenance_window check.id w' then w' else paged
      else w'

  -- The claim of `rca_notified_at`, and the follow-up of the evaluation that claimed it.
  pub claim_row : Check → ℕ → World → Option Incident → World
  claim_row check incident_id w none = w
  claim_row check incident_id w (some row) =
      page (notice_for check row.severity rca_ready (some incident_id) none) row.severity
        incident_id
        (record w {
          incidents = update_where (unclaimed incident_id) (claim_rca w.now) w.incidents;
        })

  -- `sendRcaReadyEnrichment`
  pub send_rca_ready_enrichment : Check → ℕ → World → World
  send_rca_ready_enrichment check incident_id w =
      claim_row check incident_id w (find? (unclaimed incident_id) w.incidents)

  -- The root-cause analysis of a fresh incident, after its page.
  pub enrich : Check → ℕ → Option String → World → World
  enrich check incident_id none w = w
  enrich check incident_id (some rca) w = send_rca_ready_enrichment check incident_id (record w {
    incidents =
        update_where (λ i. i.id == incident_id) (λ i. record i { rca = some rca }) w.incidents;
  })

  pub after_upsert : Check → Run → Severity → Option String → World → Upsert → World
  after_upsert check run desired rca w conflict = w
  after_upsert check run desired rca w (updated id) =
      page (notice_for check critical escalated (some id) (some run.id)) critical id w
  after_upsert check run desired rca w (inserted id) =
      enrich check id rca
        (page (notice_for check desired opened (some id) (some run.id)) desired id w)

  -- The branch with no incident open.
  pub open_incident : Check → Run → Severity → ℕ → Option String → World → World
  open_incident check run desired consecutive rca w =
      let (w', up) = upsert_incident check run desired consecutive w in
      if in_maintenance_window check.id w then w else after_upsert check run desired rca w' up

  -- The branch with at least one region sustainedly down.
  pub on_down : Check → Run → Verdict → Severity → Option String → Option Incident → World → World
  on_down check run v desired rca found w = elim found [
    | some inc ↦ escalate check run inc desired (down_count check run v w) w
    | none ↦ open_incident check run desired (down_count check run v w) rca w
  ]

  -- `evaluate` after its two reads.
  pub evaluate_from : Check → Run → Option String → Option Incident → Verdict → World → World
  evaluate_from check run rca found v w =
      elim (incident_severity v.failing v.failing_warning v.total check.min_fail_locations
        check.severity) [
          | none ↦ on_up check run found w
          | some desired ↦ on_down check run v desired rca found w
        ]

  -- `evaluate`
  pub evaluate : Check → Run → Option String → World → World
  evaluate check run rca w =
      if is_infra_error run.status
      then w
      else evaluate_from check run rca (get_open_incident check.id w)
          (aggregate_verdict check w.now w.runs) w

-- What a run of the model computes with.
unfoldable pub incident_code : Unit {0}
unfolding evaluate evaluate_from on_up on_down open_incident escalate upsert_incident upsert_row
    after_upsert enrich claim_row down_count send_rca_ready_enrichment resolve_incident
    after_recovery maybe_notify_warn page record_incident_dispatch notify_status_of warn_due
    live_critical is_infra_error dispatch update_where in_maintenance_window get_open_incident
incident_code = tt
