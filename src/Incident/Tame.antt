-- ===== src/Incident/Tame.antt =====
-- What the updates of runner/evaluate.ts that open no incident keep of the tables.
use synthwatch.Prelude.{
  ℕ, ◌≤◌, String, Option, none, some, Bool, true, false, ◌≡◌, refl, arith, if◌then◌else◌, ◌==◌, any,
  find?, count, All, not,
}
use synthwatch.Types.{Check, Run, Severity, critical, Status, pass, warn}
use synthwatch.Alerts.{Transport}
use synthwatch.World.{
  Incident, Notice, Alert, World, open_for, update_where, in_maintenance_window, Send, dispatch,
  opened, escalated, recovered, rca_ready, warned, set_at,
}
use synthwatch.Incident.{
  account, notify_status_of, record_incident_dispatch, is_live, resolve_row, escalate_row, Upsert,
  inserted, updated, conflict, page, maybe_notify_warn, resolve_incident, after_recovery, on_up,
  escalate, send_rca_ready_enrichment, enrich, after_upsert, notice_for, claim_row, unclaimed,
  claim_rca, is_failed, warn_due, escalates,
}
use synthwatch.Incident.Rows.{
  Numbered, Keeps, Updates, unchanged, update, Updates-Numbered, Updates-count, account-Keeps,
  resolve_row-Keeps, escalate_row-Keeps,
}

-- The partial unique index `one_open_incident_per_check`, and ids that are given out in order.
pub record WellFormed (w : World) : Type 0 where
  pub numbered : Numbered w.next_incident_id w.incidents
  pub one_open : (c : ℕ) → count (open_for c) w.incidents ≤ 1

-- An alert whose channels were resolved at its own severity.
abbrev pub IsRouted : Alert → Type 0
IsRouted a = a.routed_at ≡ a.notice.severity

-- What an operation does that opens no incident.
pub record Tame (w w' : World) : Type 0 where
  pub updates : Updates w.incidents w'.incidents
  pub next : w'.next_incident_id ≡ w.next_incident_id
  pub now : w'.now ≡ w.now
  pub runs : w'.runs ≡ w.runs
  pub routed : All IsRouted w.alerts → All IsRouted w'.alerts

pub Tame-WellFormed : {w w' : World} → Tame w w' → WellFormed w → WellFormed w'
Tame-WellFormed {w} {w'} t h = record {
  numbered = rw t.next (Updates-Numbered w.next_incident_id t.updates h.numbered);
  one_open = λ c. omega (arith, Updates-count c t.updates, h.one_open c);
}

pub Tame-refl : (w : World) → Tame w w
Tame-refl w = record { updates = unchanged; next = refl; now = refl; runs = refl; routed = λ h. h }

claim_rca-Keeps : (now : ℕ) → Keeps (claim_rca now)
claim_rca-Keeps now = record {
  id = λ i. refl;
  check_id = λ i. refl;
  is_open = λ i h. h;
  severity = λ i h. h;
}

abbrev store_rca : String → Incident → Incident
store_rca r i = record i { rca = some r }

store_rca-Keeps : (r : String) → Keeps (store_rca r)
store_rca-Keeps r = record {
  id = λ i. refl;
  check_id = λ i. refl;
  is_open = λ i h. h;
  severity = λ i h. h;
}

-- One UPDATE of the table, from a world that is tame so far.
pub then_update :
    {w w' : World} (p : Incident → Bool) (f : Incident → Incident)
    → Keeps f
    → Tame w w'
    → Tame w (record w' { incidents = update_where p f w'.incidents })
then_update p f k t = record {
  updates = update p f k t.updates refl;
  next = t.next;
  now = t.now;
  runs = t.runs;
  routed = t.routed;
}

if-Tame : (b : Bool) {u v w : World} → Tame w u → Tame w v → Tame w (if b then u else v)
if-Tame true h k = h
if-Tame false h k = k

stamped :
    {w w' : World} (f : ℕ → Option ℕ) → Tame w w' → Tame w (record w' { last_warn_notified_at = f })
stamped f t = record {
  updates = t.updates;
  next = t.next;
  now = t.now;
  runs = t.runs;
  routed = t.routed;
}

module _ (env : Transport) (send : Send) where
  dispatched :
      (n : Notice) (sev : Severity) {w w' : World}
      → Tame w w'
      → sev ≡ n.severity
      → Tame w (dispatch env send n sev w').0
  unfolding dispatch
  dispatched n sev t e = record {
    updates = t.updates;
    next = t.next;
    now = t.now;
    runs = t.runs;
    routed = λ h. (e, t.routed h);
  }

  pub page-Tame :
      (n : Notice) (sev : Severity) (id : ℕ) {w w' : World}
      → sev ≡ n.severity
      → Tame w w'
      → Tame w (page env send n sev id w')
  unfolding page dispatch record_incident_dispatch
  page-Tame n sev id {w} {w'} e t =
      let r = (dispatch env send n sev w').1 in
      let st = notify_status_of r in
      if-Tame (is_failed st)
        (record {
          updates = update (λ i. i.id == id) (account st) (account-Keeps st) t.updates refl;
          next = t.next;
          now = t.now;
          runs = t.runs;
          routed = λ h. (e, t.routed h);
        })
        (record {
          updates = update (λ i. i.id == id) (account st) (account-Keeps st) t.updates refl;
          next = t.next;
          now = t.now;
          runs = t.runs;
          routed = λ h. (e, t.routed h);
        })

  maybe_notify_warn-Tame :
      (check : Check) (run : Run) {w w' : World}
      → Tame w w'
      → Tame w (maybe_notify_warn env send check run w')
  unfolding maybe_notify_warn dispatch
  maybe_notify_warn-Tame check run {w} {w'} t =
      let n = notice_for check check.severity warned none (some run.id) in
      let logged = dispatched n check.severity t refl in
      if-Tame (in_maintenance_window check.id w') t (
        if-Tame (not (warn_due check w')) t (
          if-Tame _ logged
            (stamped (set_at w'.last_warn_notified_at check.id (some w'.now)) logged)))

  pub resolve_incident-Tame :
      (check : Check) (run : Run) (inc : Incident) {w w' : World}
      → Tame w w'
      → Tame w (resolve_incident env send check run inc w')
  unfolding resolve_incident
  resolve_incident-Tame check run inc {w} {w'} t =
      let t' =
        then_update (is_live inc.id) (resolve_row run.id w'.now) (resolve_row-Keeps run.id w'.now)
          t in
      if-Tame (any (is_live inc.id) w'.incidents)
        (if-Tame _ t' (
          page-Tame (notice_for check inc.severity recovered (some inc.id) (some run.id))
            inc.severity inc.id refl t'))
        t

  pub after_recovery-Tame :
      (st : Status) (check : Check) (run : Run) {w w' : World}
      → Tame w w'
      → Tame w (after_recovery env send st check run w')
  unfolding after_recovery
  after_recovery-Tame pass check run {w} {w'} t =
      stamped (set_at w'.last_warn_notified_at check.id none) t
  after_recovery-Tame warn check run t = maybe_notify_warn-Tame check run t
  after_recovery-Tame _ check run t = t

  pub on_up-Tame :
      (check : Check) (run : Run) (found : Option Incident) {w w' : World}
      → Tame w w'
      → Tame w (on_up env send check run found w')
  unfolding on_up
  on_up-Tame check run none t = after_recovery-Tame run.status check run t
  on_up-Tame check run (some inc) t =
      after_recovery-Tame run.status check run (resolve_incident-Tame check run inc t)

  pub escalate-Tame :
      (check : Check) (run : Run) (inc : Incident) (desired : Severity) (n : ℕ) {w w' : World}
      → Tame w w'
      → Tame w (escalate env send check run inc desired n w')
  unfolding escalate
  escalate-Tame check run inc desired n {w} {w'} t =
      let b = escalates inc.severity desired in
      let t' = then_update (is_live inc.id) (escalate_row b n) (escalate_row-Keeps b n) t in
      if-Tame _
        (if-Tame _ t' (
          page-Tame (notice_for check critical escalated (some inc.id) (some run.id)) critical
            inc.id refl t'))
        t'

  send_rca_ready_enrichment-Tame :
      (check : Check) (id : ℕ) {w w' : World}
      → Tame w w'
      → Tame w (send_rca_ready_enrichment env send check id w')
  unfolding send_rca_ready_enrichment claim_row
  send_rca_ready_enrichment-Tame check id {w} {w'} t =
      elim (find? (unclaimed id) w'.incidents) as (λ o. Tame w (claim_row env send check id w' o)) [
        | none ↦ t
        | some row ↦
            page-Tame (notice_for check row.severity rca_ready (some id) none) row.severity id refl
              (then_update (unclaimed id) (claim_rca w'.now) (claim_rca-Keeps w'.now) t)
      ]

  enrich-Tame :
      (check : Check) (id : ℕ) (rca : Option String) {w w' : World}
      → Tame w w'
      → Tame w (enrich env send check id rca w')
  unfolding enrich
  enrich-Tame check id none t = t
  enrich-Tame check id (some r) t =
      send_rca_ready_enrichment-Tame check id
        (then_update (λ i. i.id == id) (store_rca r) (store_rca-Keeps r) t)

  pub after_upsert-Tame :
      (check : Check) (run : Run) (desired : Severity) (rca : Option String) {w w' : World}
      (up : Upsert)
      → Tame w w'
      → Tame w (after_upsert env send check run desired rca w' up)
  unfolding after_upsert
  after_upsert-Tame check run desired rca conflict t = t
  after_upsert-Tame check run desired rca (updated id) t =
      page-Tame (notice_for check critical escalated (some id) (some run.id)) critical id refl t
  after_upsert-Tame check run desired rca (inserted id) t =
      enrich-Tame check id rca
        (page-Tame (notice_for check desired opened (some id) (some run.id)) desired id refl t)
