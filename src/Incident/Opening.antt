-- ===== src/Incident/Opening.antt =====
-- What an evaluation of runner/evaluate.ts opens or escalates.
use synthwatch.Prelude.{
  ℕ, String, Option, none, some, Bool, true, false, ◌&&◌, ◌||◌, List, [], ◌∷◌, ◌≡◌, refl, arith,
  if◌then◌else◌, ◌==◌, any, find?, Bool-cases, inl, inr, not, if-elim, ◌⊎◌,
}
use synthwatch.Types.{Check, Run, Severity, critical, is_critical}
use synthwatch.Alerts.{Transport}
use synthwatch.Verdict.{Verdict, incident_severity}
use synthwatch.World.{
  Incident, Notice, World, open_for, update_where, in_maintenance_window, get_open_incident, Send,
  dispatch, NotifyStatus, opened, escalated, rca_ready,
}
use synthwatch.Incident.{
  account, notify_status_of, record_incident_dispatch, is_live, escalate_row, Upsert, inserted,
  updated, conflict, page, escalate, upsert_incident, upsert_row, send_rca_ready_enrichment, enrich,
  after_upsert, open_incident, on_down, evaluate_from, notice_for, is_failed, escalates,
  live_critical, claim_row, unclaimed, claim_rca, down_count,
}

-- An open incident of the check at this severity or above.
abbrev pub stands : ℕ → Severity → Incident → Bool
stands c desired i = open_for c i && (not (is_critical desired) || is_critical i.severity)

-- A change of a row that closes nothing and lowers no severity.
pub record Stays (f : Incident → Incident) : Type 0 where
  pub check_id : (i : Incident) → (f i).check_id ≡ i.check_id
  pub is_open : (i : Incident) → i.is_open ≡ true → (f i).is_open ≡ true
  pub severity : (i : Incident) → i.severity ≡ critical → (f i).severity ≡ critical

stands-update_where :
    (p : Incident → Bool) (f : Incident → Incident)
    → Stays f
    → (c : ℕ) (d : Severity) (is : List Incident) → any (stands c d) is ≡ true
    → any (stands c d) (update_where p f is) ≡ true
unfolding update_where
stands-update_where p f k c d [] h = h
stands-update_where p f k c d (i ∷ is) h =
    ground (arith, stands-update_where p f k c d is, k.check_id i, k.is_open i, k.severity i)

account-Stays : (st : NotifyStatus) → Stays (account st)
account-Stays st = record { check_id = λ i. refl; is_open = λ i h. h; severity = λ i h. h }

escalate_row-Stays : (b : Bool) (n : ℕ) → Stays (escalate_row b n)
escalate_row-Stays b n = record {
  check_id = λ i. refl;
  is_open = λ i h. h;
  severity = λ i h. ground arith;
}

-- The row that was found open reaches the severity that is wanted.
stands-escalate :
    (c : ℕ) (d : Severity) (n : ℕ) (inc : Incident) (is : List Incident)
    → find? (open_for c) is ≡ some inc
    → any
        (stands c d)
        (update_where (is_live inc.id) (escalate_row (escalates inc.severity d) n) is)
      ≡ true
unfolding update_where
stands-escalate c d n inc [] e = cc
stands-escalate c d n inc (i ∷ is) e = elim (Bool-cases (open_for c i)) [
  | inl y ↦ ground (arith, y)
  | inr y ↦ ground (arith, y, stands-escalate c d n inc is)
]

stands-found :
    (c : ℕ) (d : Severity) (inc : Incident) (is : List Incident)
    → find? (open_for c) is ≡ some inc
    → escalates inc.severity d ≡ false
    → any (stands c d) is ≡ true
stands-found c d inc [] e h = cc
stands-found c d inc (i ∷ is) e h = ground (arith, stands-found c d inc is)

module _ (env : Transport) (send : Send) (c : ℕ) (d : Severity) where
  -- An open incident of the check at this severity or above stands in this world.
  abbrev Standing : World → Type 0
  Standing w = any (stands c d) w.incidents ≡ true

  page-Standing :
      (n : Notice) (sev : Severity) (id : ℕ) (w : World)
      → Standing w
      → Standing (page env send n sev id w)
  unfolding page dispatch record_incident_dispatch
  page-Standing n sev id w h =
      let st = notify_status_of (dispatch env send n sev w).1 in
      let kept =
        stands-update_where (λ i. i.id == id) (account st) (account-Stays st) c d w.incidents h in
      elim (Bool-cases (is_failed st)) [ inl e ↦ rw e kept | inr e ↦ rw e kept ]

  escalate-Standing :
      (check : Check) (run : Run) (inc : Incident) (desired : Severity) (n : ℕ) (w : World)
      → any (stands c d) (
          update_where
            (is_live inc.id)
            (escalate_row (escalates inc.severity desired) n)
            w.incidents)
        ≡ true
      → Standing (escalate env send check run inc desired n w)
  unfolding escalate
  escalate-Standing check run inc desired n w h =
      let b = escalates inc.severity desired in
      let w' = record w {
        incidents = update_where (is_live inc.id) (escalate_row b n) w.incidents;
      } in
      let note = notice_for check critical escalated (some inc.id) (some run.id) in
      let paged = page env send note critical inc.id w' in
      let quiet = in_maintenance_window check.id w' in
      if-elim Standing (b && live_critical inc.id w'.incidents) (if quiet then w' else paged) w'
        (λ _.
          if-elim Standing quiet w' paged (λ _. h) (λ _. page-Standing note critical inc.id w' h))
        (λ _. h)

  send_rca-Standing :
      (check : Check) (id : ℕ) (w : World)
      → Standing w
      → Standing (send_rca_ready_enrichment env send check id w)
  unfolding send_rca_ready_enrichment claim_row
  send_rca-Standing check id w h =
      elim (find? (unclaimed id) w.incidents) as (λ o. Standing (claim_row env send check id w o)) [
        | none ↦ h
        | some row ↦
            page-Standing (notice_for check row.severity rca_ready (some id) none) row.severity id _
              (stands-update_where (unclaimed id) (claim_rca w.now)
                (record { check_id = λ i. refl; is_open = λ i h. h; severity = λ i h. h }) c d
                w.incidents h)
      ]

  enrich-Standing :
      (check : Check) (id : ℕ) (rca : Option String) (w : World)
      → Standing w
      → Standing (enrich env send check id rca w)
  unfolding enrich
  enrich-Standing check id none w h = h
  enrich-Standing check id (some r) w h =
      let f = λ (i : Incident). record i { rca = some r } in
      let w' = record w { incidents = update_where (λ i. i.id == id) f w.incidents } in
      send_rca-Standing check id w' (
        stands-update_where (λ i. i.id == id) f
          (record { check_id = λ i. refl; is_open = λ i h. h; severity = λ i h. h }) c d w.incidents
          h)

  after_upsert-Standing :
      (check : Check) (run : Run) (desired : Severity) (rca : Option String) (w : World)
      (up : Upsert)
      → Standing w
      → Standing (after_upsert env send check run desired rca w up)
  unfolding after_upsert
  after_upsert-Standing check run desired rca w conflict h = h
  after_upsert-Standing check run desired rca w (updated id) h =
      page-Standing (notice_for check critical escalated (some id) (some run.id)) critical id w h
  after_upsert-Standing check run desired rca w (inserted id) h =
      let n = notice_for check desired opened (some id) (some run.id) in
      enrich-Standing check id rca (page env send n desired id w) (page-Standing n desired id w h)

  upsert_row-keeps :
      (check : Check) (run : Run) (desired : Severity) (n : ℕ) (w : World) (o : Option Incident)
      → Standing w
      → Standing (upsert_row check run desired n w o).0
  unfolding upsert_row
  upsert_row-keeps check run desired n w none h = ground arith
  upsert_row-keeps check run desired n w (some row) h =
      elim (Bool-cases (escalates row.severity desired)) [
        | inl e ↦ rw e (
            stands-update_where (is_live row.id) (escalate_row true n) (escalate_row-Stays true n) c
              d w.incidents h)
        | inr e ↦ rw e h
      ]

  -- A branch with a region down keeps what stands.
  on_down-keeps :
      (check : Check) (run : Run) (v : Verdict) (desired : Severity) (rca : Option String)
      (found : Option Incident) (w : World)
      → Standing w
      → Standing (on_down env send check run v desired rca found w)
  unfolding on_down open_incident upsert_incident
  on_down-keeps check run v desired rca (some inc) w h =
      let b = escalates inc.severity desired in
      escalate-Standing check run inc desired _ w (
        stands-update_where (is_live inc.id) (escalate_row b _) (escalate_row-Stays b _) c d
          w.incidents h)
  on_down-keeps check run v desired rca none w h =
      let up = upsert_incident check run desired (down_count check run v w) w in
      if-elim Standing (in_maintenance_window check.id w) w
        (after_upsert env send check run desired rca up.0 up.1) (λ _. h)
        (λ _. after_upsert-Standing check run desired rca up.0 up.1 (
          upsert_row-keeps check run desired (down_count check run v w) w
            (get_open_incident check.id w) h))

-- After the INSERT with its ON CONFLICT clause the wanted severity stands.
upsert_row-stands :
    (check : Check) (run : Run) (desired : Severity) (n : ℕ) (w : World) (o : Option Incident)
    → get_open_incident check.id w ≡ o
    → any (stands check.id desired) (upsert_row check run desired n w o).0.incidents ≡ true
unfolding upsert_row get_open_incident
upsert_row-stands check run desired n w none e = ground arith
upsert_row-stands check run desired n w (some row) e =
    elim (Bool-cases (escalates row.severity desired)) [
      | inl y ↦ let up = stands-escalate check.id desired n row w.incidents e in rw y (rw y at up)
      | inr y ↦ rw y (stands-found check.id desired row w.incidents e y)
    ]

module _ (env : Transport) (send : Send) where
  open_incident-stands :
      (check : Check) (run : Run) (desired : Severity) (n : ℕ) (rca : Option String) (w : World)
      → in_maintenance_window check.id w ≡ false
      → any (stands check.id desired) (open_incident env send check run desired n rca w).incidents
        ≡ true
  unfolding open_incident upsert_incident
  open_incident-stands check run desired n rca w quiet = rw quiet (
      after_upsert-Standing env send check.id desired check run desired rca _ _
        (upsert_row-stands check run desired n w (get_open_incident check.id w) refl))

  on_down-stands :
      (check : Check) (run : Run) (v : Verdict) (desired : Severity) (rca : Option String)
      (found : Option Incident) (w : World)
      → in_maintenance_window check.id w ≡ false
      → (found ≡ none) ⊎ (get_open_incident check.id w ≡ found)
      → any (stands check.id desired) (on_down env send check run v desired rca found w).incidents
        ≡ true
  unfolding on_down get_open_incident
  on_down-stands check run v desired rca none w quiet e =
      open_incident-stands check run desired (down_count check run v w) rca w quiet
  on_down-stands check run v desired rca (some inc) w quiet (inl e) = cc
  on_down-stands check run v desired rca (some inc) w quiet (inr e) =
      escalate-Standing env send check.id desired check run inc desired (down_count check run v w) w
        (stands-escalate check.id desired (down_count check run v w) inc w.incidents e)

  -- When the verdict gives a severity and no maintenance window holds, an incident of the check is open after
  -- the evaluation, at the severity of the verdict or above. That holds when the open incident was read
  -- just before, and also when none was seen and another evaluation has opened one since.
  pub evaluate_from_opens :
      (check : Check) (run : Run) (rca : Option String) (found : Option Incident) (v : Verdict)
      (desired : Severity) (w : World)
      → in_maintenance_window check.id w ≡ false
      → (found ≡ none) ⊎ (get_open_incident check.id w ≡ found)
      → incident_severity v.failing v.failing_warning v.total check.min_fail_locations
          check.severity
        ≡ some desired
      → any (stands check.id desired) (evaluate_from env send check run rca found v w).incidents
        ≡ true
  unfolding evaluate_from
  evaluate_from_opens check run rca found v desired w quiet e s =
      rw (s, evaluate_from) (on_down-stands check run v desired rca found w quiet e)

  -- A later evaluation of the check that sees a region down, with whatever it read and at whatever
  -- severity, keeps an incident open at every severity that stood before: an escalation is not lost.
  pub evaluate_from_keeps :
      (check : Check) (run : Run) (rca : Option String) (found : Option Incident) (v : Verdict)
      (desired stood : Severity) (w : World)
      → incident_severity v.failing v.failing_warning v.total check.min_fail_locations
          check.severity
        ≡ some desired
      → any (stands check.id stood) w.incidents ≡ true
      → any (stands check.id stood) (evaluate_from env send check run rca found v w).incidents
        ≡ true
  unfolding evaluate_from
  evaluate_from_keeps check run rca found v desired stood w s h =
      rw (s, evaluate_from)
        (on_down-keeps env send check.id stood check run v desired rca found w h)
