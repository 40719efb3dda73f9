-- ===== src/World.antt =====
-- The rows of the database that runner/evaluate.ts reads and writes, with the clock and a log of the
-- alerts that were dispatched.
use synthwatch.Prelude.{
  ℕ, String, Option, none, some, Bool, true, ◌&&◌, List, [], ◌∷◌, if◌then◌else◌, ltb, leb, ◌==◌,
  any, find?,
}
use synthwatch.Types.{Severity, Run}
use synthwatch.Alerts.{
  Channel, Transport, Routing, DispatchResult, resolve_channels, dispatch_alerts,
}

pub data NotifyStatus : Type 0 where
  sent failed skipped : NotifyStatus

-- A row of `incidents`. `is_open` is `status = 'open'`, the other status being `resolved`.
pub record Incident : Type 0 where
  pub id : ℕ
  pub check_id : ℕ
  pub is_open : Bool
  pub severity : Severity
  pub opened_run_id : ℕ
  pub resolved_run_id : Option ℕ
  pub consecutive_failures : ℕ
  pub opened_at : ℕ
  pub resolved_at : Option ℕ
  pub rca : Option String
  pub rca_notified_at : Option ℕ
  pub notify_status : Option NotifyStatus
  pub notify_attempts : ℕ

-- A row of `maintenance_windows`; with no check it holds for the whole fleet.
pub record Window : Type 0 where
  pub check_id : Option ℕ
  pub starts_at : ℕ
  pub ends_at : ℕ

-- What an alert says: AlertPayload's `status`, with the escalation and the RCA follow-up told apart.
pub data NoticeKind : Type 0 where
  opened escalated recovered rca_ready warned burning : NoticeKind

pub record Notice : Type 0 where
  pub check_id : ℕ
  pub severity : Severity
  pub kind : NoticeKind
  pub incident_id : Option ℕ
  pub run_id : Option ℕ

-- An alert with the severity at which its channels were resolved.
pub record Alert : Type 0 where
  pub notice : Notice
  pub routed_at : Severity

-- The phases of `runner_errors` rows.
pub data ErrorPhase : Type 0 where
  alert_dispatch_failed : ErrorPhase

pub record World : Type 0 where
  pub now : ℕ
  pub runs : List Run
  pub incidents : List Incident
  pub next_incident_id : ℕ
  pub windows : List Window
  pub routing : Routing
  pub last_warn_notified_at : ℕ → Option ℕ
  pub last_burn_notified_at : ℕ → Option ℕ
  pub alerts : List Alert
  pub runner_errors : List (ErrorPhase × ℕ)

-- One cell of a column that is keyed by the check.
abbrev pub set_at : (ℕ → Option ℕ) → ℕ → Option ℕ → ℕ → Option ℕ
set_at f k v j = if j == k then v else f j

-- `WHERE check_id = $1 AND status = 'open'`
abbrev pub open_for : ℕ → Incident → Bool
open_for check_id i = i.is_open && i.check_id == check_id

-- `UPDATE … SET f WHERE p`
unfoldable pub update_where :
    (Incident → Bool) → (Incident → Incident) → List Incident → List Incident
update_where p f [] = []
update_where p f (i ∷ is) = (if p i then f i else i) ∷ update_where p f is

-- `inMaintenanceWindow`
abbrev window_for : ℕ → ℕ → Window → Bool
window_for check_id now w =
    (elim w.check_id [ none ↦ true | some c ↦ c == check_id ])
    && (leb w.starts_at now && ltb now w.ends_at)

unfoldable pub in_maintenance_window : ℕ → World → Bool
in_maintenance_window check_id w = any (window_for check_id w.now) w.windows

-- `getOpenIncident`, with `LIMIT 1`.
unfoldable pub get_open_incident : ℕ → World → Option Incident
get_open_incident check_id w = find? (open_for check_id) w.incidents

-- The external send: a channel, an alert, and the message of a rejection.
abbrev pub Send : Type 0
Send = Channel → Notice → Option String

-- `dispatchAlerts(payload, await resolveChannels(…))` at one severity: the alert goes to the log, and
-- the result says what was delivered.
unfoldable pub dispatch : Transport → Send → Notice → Severity → World → World × DispatchResult
dispatch env send n sev w = (
  record w { alerts = record { notice = n; routed_at = sev } ∷ w.alerts },
  dispatch_alerts env send n (resolve_channels w.routing n.check_id sev),
)
