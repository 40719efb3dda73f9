-- ===== src/Incident/Races.antt =====
-- What is open after an evaluation of runner/evaluate.ts, alone and against a second one.
use synthwatch.Prelude.{
  ℕ, ◌≤◌, String, Option, none, some, Bool, false, List, [], ◌∷◌, ◌≡◌, refl, arith, if◌then◌else◌,
  ◌==◌, any, find?, count, Bool-cases, inl, inr, if-elim, ◌∙◌,
}
use synthwatch.Types.{Check, Run, Severity}
use synthwatch.Alerts.{Transport}
use synthwatch.Verdict.{Verdict, incident_severity}
use synthwatch.World.{
  Incident, Notice, World, open_for, update_where, in_maintenance_window, get_open_incident, Send,
  dispatch, recovered, NotifyStatus,
}
use synthwatch.Incident.{
  account, notify_status_of, record_incident_dispatch, is_live, resolve_row, page, resolve_incident,
  after_recovery, on_up, evaluate_from, notice_for, is_failed,
}
use synthwatch.Incident.Rows.{Updates-count, find?-none_of_count, count_of_find?-none}
use synthwatch.Incident.Tame.{WellFormed, Tame-refl, after_recovery-Tame, page-Tame}

no_live_after_resolve :
    (id run_id now : ℕ) (is : List Incident)
    → any (is_live id) (update_where (is_live id) (resolve_row run_id now) is) ≡ false
unfolding update_where
no_live_after_resolve id run_id now [] = refl
no_live_after_resolve id run_id now (i ∷ is) =
    ground (arith, no_live_after_resolve id run_id now is)

live_after_account :
    (id : ℕ) (p : Incident → Bool) (st : NotifyStatus) (is : List Incident)
    → any (is_live id) (update_where p (account st) is) ≡ any (is_live id) is
unfolding update_where
live_after_account id p st [] = refl
live_after_account id p st (i ∷ is) = ground (arith, live_after_account id p st is)

count-zero_after :
    (c run_id now : ℕ) (inc : Incident) (is : List Incident)
    → count (open_for c) is ≡ 0
    → count (open_for c) (update_where (is_live inc.id) (resolve_row run_id now) is) ≡ 0
unfolding update_where
count-zero_after c run_id now inc [] h = refl
count-zero_after c run_id now inc (i ∷ is) h = ground (arith, count-zero_after c run_id now inc is)

-- Resolving the one open row of a check leaves none.
count-resolve_row :
    (c run_id now : ℕ) (inc : Incident) (is : List Incident)
    → find? (open_for c) is ≡ some inc
    → count (open_for c) is ≤ 1
    → count (open_for c) (update_where (is_live inc.id) (resolve_row run_id now) is) ≡ 0
unfolding update_where
count-resolve_row c run_id now inc [] h k = cc
count-resolve_row c run_id now inc (i ∷ is) h k = elim (Bool-cases (open_for c i)) [
  | inl e ↦ ground (arith, e, count-zero_after c run_id now inc is)
  | inr e ↦ ground (arith, e, count-resolve_row c run_id now inc is)
]

-- The row that the lookup finds is open under its id.
find?-live :
    (c : ℕ) (inc : Incident) (is : List Incident)
    → find? (open_for c) is ≡ some inc
    → any (is_live inc.id) is ≡ false
    → ⊥
find?-live c inc [] h k = cc
find?-live c inc (i ∷ is) h k = ground (arith, find?-live c inc is)

abbrev resolved_world : Incident → Run → World → World
resolved_world inc run w = record w {
  incidents = update_where (is_live inc.id) (resolve_row run.id w.now) w.incidents;
}

module _ (env : Transport) (send : Send) where
  abbrev recovery_page : Check → Run → Incident → World → World
  recovery_page check run inc w =
      page env send (notice_for check inc.severity recovered (some inc.id) (some run.id))
        inc.severity inc.id (resolved_world inc run w)

  page-live :
      (n : Notice) (sev : Severity) (id inc_id : ℕ) (w : World)
      → any (is_live id) (page env send n sev inc_id w).incidents ≡ any (is_live id) w.incidents
  unfolding page dispatch record_incident_dispatch
  page-live n sev id inc_id w =
      let st = notify_status_of (dispatch env send n sev w).1 in
      elim (Bool-cases (is_failed st)) [
        | inl e ↦ rw e (live_after_account id (λ i. i.id == inc_id) st w.incidents)
        | inr e ↦ rw e (live_after_account id (λ i. i.id == inc_id) st w.incidents)
      ]

  resolve_incident-live :
      (check : Check) (run : Run) (inc : Incident) (w : World)
      → any (is_live inc.id) (resolve_incident env send check run inc w).incidents ≡ false
  unfolding resolve_incident
  resolve_incident-live check run inc w =
      let none_live = λ (u : World). any (is_live inc.id) u.incidents ≡ false in
      let w' = resolved_world inc run w in
      let paged = recovery_page check run inc w in
      let gone = no_live_after_resolve inc.id run.id w.now w.incidents in
      let quiet = in_maintenance_window check.id w' in
      if-elim none_live (any (is_live inc.id) w.incidents) (if quiet then w' else paged) w
        (λ _.
          if-elim none_live quiet w' paged (λ _. gone)
            (λ _.
              page-live (notice_for check inc.severity recovered (some inc.id) (some run.id))
                inc.severity inc.id inc.id w'
              ∙ gone))
        (λ e. e)

  -- Two evaluations that both read the same open incident and both see the recovery: the second
  -- resolve changes nothing and sends nothing, so that one recovery page goes out.
  pub resolve_incident_twice :
      (check : Check) (run run' : Run) (inc : Incident) (w : World)
      → let w' = resolve_incident env send check run inc w in
        resolve_incident env send check run' inc w' ≡ w'
  unfolding resolve_incident
  resolve_incident_twice check run run' inc w = rw (resolve_incident-live check run inc w)

  -- The resolving evaluation leaves no incident of the check open.
  resolve_incident-count :
      (check : Check) (run : Run) (inc : Incident) (w : World)
      → get_open_incident check.id w ≡ some inc
      → WellFormed w
      → count (open_for check.id) (resolve_incident env send check run inc w).incidents ≡ 0
  unfolding resolve_incident get_open_incident
  resolve_incident-count check run inc w e h =
      let none_open = λ (u : World). count (open_for check.id) u.incidents ≡ 0 in
      let w' = resolved_world inc run w in
      let paged = recovery_page check run inc w in
      let quiet = in_maintenance_window check.id w' in
      let gone = count-resolve_row check.id run.id w.now inc w.incidents e (h.one_open check.id) in
      let n = notice_for check inc.severity recovered (some inc.id) (some run.id) in
      let t = page-Tame env send n inc.severity inc.id refl (Tame-refl w') in
      if-elim none_open (any (is_live inc.id) w.incidents) (if quiet then w' else paged) w
        (λ _.
          if-elim none_open quiet w' paged (λ _. gone)
            (λ _. omega (arith, Updates-count check.id t.updates, gone)))
        (λ e'. absurd (find?-live check.id inc w.incidents e e'))

  on_up_recovers :
      (check : Check) (run : Run) (found : Option Incident) (w : World)
      → get_open_incident check.id w ≡ found
      → WellFormed w
      → get_open_incident check.id (on_up env send check run found w) ≡ none
  unfolding on_up get_open_incident
  on_up_recovers check run none w e h =
      let t = after_recovery-Tame env send run.status check run (Tame-refl w) in
      find?-none_of_count check.id (after_recovery env send run.status check run w).incidents (
        omega (arith, Updates-count check.id t.updates, count_of_find?-none check.id w.incidents e))
  on_up_recovers check run (some inc) w e h =
      let w' = resolve_incident env send check run inc w in
      let t = after_recovery-Tame env send run.status check run (Tame-refl w') in
      find?-none_of_count check.id (after_recovery env send run.status check run w').incidents (
        omega (arith, Updates-count check.id t.updates, resolve_incident-count check run inc w e h))

  -- From at most one open incident for each check and ids in order: when the verdict gives no severity,
  -- and the evaluation has read the incident that is open now, the check has no open incident after it,
  -- whatever the run, the maintenance windows and the deliveries.
  pub evaluate_from_recovers :
      (check : Check) (run : Run) (rca : Option String) (v : Verdict) (w : World)
      → WellFormed w
      → incident_severity v.failing v.failing_warning v.total check.min_fail_locations
          check.severity
        ≡ none
      → let found = get_open_incident check.id w in
        get_open_incident check.id (evaluate_from env send check run rca found v w) ≡ none
  unfolding evaluate_from
  evaluate_from_recovers check run rca v w h e =
      rw (e, evaluate_from) (on_up_recovers check run (get_open_incident check.id w) w refl h)
