-- ===== src/Burn/Paging.antt =====
-- When the SLO burn of runner/evaluate.ts pages.
use synthwatch.Prelude.{
  ℕ, ◌≤◌, ◌<◌, Option, none, some, true, false, List, ◌≡◌, refl, arith, length, if◌then◌else◌, All,
  Bool-cases, inl, inr,
}
use synthwatch.Types.{Check, Severity, critical, warning}
use synthwatch.Alerts.{Transport}
use synthwatch.Verdict.{effective_n}
use synthwatch.World.{World, Incident, Send, get_open_incident, in_maintenance_window, dispatch}
use synthwatch.Burn.{
  LocBurn, BurnState, fast, slow, calm, burning_locations, is_over, burn_state_of, burn_due,
  burn_alert, on_burn, burn_unless, maybe_burn_alert, burn_fast_threshold, burn_slow_threshold,
}
use synthwatch.Incident.Tame.{IsRouted}

-- Without an override, when two or more locations report in the window and only one of them burns, the
-- window is not over its threshold.
is_over_minority :
    (check : Check) (target threshold : ℕ) (rates : List LocBurn)
    → check.min_fail_locations ≡ none
    → 2 ≤ length rates
    → burning_locations target rates threshold check.failure_threshold ≤ 1
    → is_over check target threshold rates ≡ false
unfolding is_over effective_n
is_over_minority check target threshold rates m h b = ground (arith, m)

-- Without an override, when two or more locations report over the fast and over the long slow window
-- and at most one of them burns in each, nothing is paged: one region cannot raise a burn alert.
pub burn_state_of_minority :
    (check : Check) (target : ℕ) (fast_rates slow_long slow_short : List LocBurn)
    → check.min_fail_locations ≡ none
    → 2 ≤ length fast_rates
    → burning_locations target fast_rates burn_fast_threshold check.failure_threshold ≤ 1
    → 2 ≤ length slow_long
    → burning_locations target slow_long burn_slow_threshold check.failure_threshold ≤ 1
    → burn_state_of check target fast_rates slow_long slow_short ≡ calm
unfolding burn_state_of
burn_state_of_minority check target fast_rates slow_long slow_short m f bf s bs = ground (
  arith,
  is_over_minority check target burn_fast_threshold fast_rates m f bf,
  is_over_minority check target burn_slow_threshold slow_long m s bs,
)

module _ (env : Transport) (send : Send) (check : Check) where
  not_due :
      (severity : Severity) (w : World)
      → 0 < check.warn_renotify_seconds
      → burn_due check (burn_alert env send check severity w) ≡ false
  unfolding burn_due burn_alert dispatch
  not_due severity w h = ground arith

  on_burn_twice :
      (state : BurnState) (w : World)
      → 0 < check.warn_renotify_seconds
      → on_burn env send check state (on_burn env send check state w)
        ≡ on_burn env send check state w
  unfolding on_burn
  on_burn_twice calm w h = refl
  on_burn_twice fast w h = elim (Bool-cases (burn_due check w)) [
    | inl e ↦ rw (e, not_due critical w h) refl
    | inr e ↦ rw (e, e) refl
  ]
  on_burn_twice slow w h = elim (Bool-cases (burn_due check w)) [
    | inl e ↦ rw (e, not_due warning w h) refl
    | inr e ↦ rw (e, e) refl
  ]

  on_burn-open :
      (state : BurnState) (w : World)
      → get_open_incident check.id (on_burn env send check state w) ≡ get_open_incident check.id w
  unfolding on_burn burn_alert dispatch get_open_incident
  on_burn-open calm w = refl
  on_burn-open fast w = ground arith
  on_burn-open slow w = ground arith

  on_burn-window :
      (state : BurnState) (w : World)
      → in_maintenance_window check.id (on_burn env send check state w)
        ≡ in_maintenance_window check.id w
  unfolding on_burn burn_alert dispatch in_maintenance_window
  on_burn-window calm w = refl
  on_burn-window fast w = ground arith
  on_burn-window slow w = ground arith

  burn_unless_twice :
      (o : Option Incident) (state : BurnState) (w : World)
      → 0 < check.warn_renotify_seconds
      → get_open_incident check.id w ≡ o
      → let w' = burn_unless env send o check state w in
        burn_unless env send (get_open_incident check.id w') check state w' ≡ w'
  unfolding burn_unless
  burn_unless_twice (some inc) state w h e = rw (e, burn_unless) refl
  burn_unless_twice none state w h e = elim (Bool-cases (in_maintenance_window check.id w)) [
    | inl q ↦ rw (q, burn_unless, e, q) refl
    | inr q ↦
        rw (q, burn_unless, on_burn-open state w, e, on_burn-window state w, q)
          (on_burn_twice state w h)
  ]

  -- With a positive re-notify interval, a second burn alert for the same state at the same time, as of
  -- another region that evaluates with it, sends nothing and changes nothing.
  pub maybe_burn_alert_twice :
      (target : Option ℕ) (state : BurnState) (w : World)
      → 0 < check.warn_renotify_seconds
      → let w' = maybe_burn_alert env send check target state w in
        maybe_burn_alert env send check target state w' ≡ w'
  unfolding maybe_burn_alert
  maybe_burn_alert_twice none state w h = refl
  maybe_burn_alert_twice (some target) state w h =
      burn_unless_twice (get_open_incident check.id w) state w h refl

  on_burn-IsRouted :
      (state : BurnState) (w : World)
      → All IsRouted w.alerts
      → All IsRouted (on_burn env send check state w).alerts
  unfolding on_burn burn_alert dispatch
  on_burn-IsRouted calm w h = h
  on_burn-IsRouted fast w h =
      elim (burn_due check w)
        as (λ b. All IsRouted (if b then burn_alert env send check critical w else w).alerts) [
          | true ↦ (refl, h)
          | false ↦ h
        ]
  on_burn-IsRouted slow w h =
      elim (burn_due check w)
        as (λ b. All IsRouted (if b then burn_alert env send check warning w else w).alerts) [
          | true ↦ (refl, h)
          | false ↦ h
        ]

  burn_unless-IsRouted :
      (o : Option Incident) (state : BurnState) (w : World)
      → All IsRouted w.alerts
      → All IsRouted (burn_unless env send o check state w).alerts
  unfolding burn_unless
  burn_unless-IsRouted (some inc) state w h = h
  burn_unless-IsRouted none state w h =
      elim (in_maintenance_window check.id w)
        as (λ b. All IsRouted (if b then w else on_burn env send check state w).alerts) [
          | true ↦ h
          | false ↦ on_burn-IsRouted state w h
        ]

  -- A burn alert keeps the invariant of the alert log: its channels are resolved at the severity of the
  -- burn, which is the severity that it carries.
  pub maybe_burn_alert-IsRouted :
      (target : Option ℕ) (state : BurnState) (w : World)
      → All IsRouted w.alerts
      → All IsRouted (maybe_burn_alert env send check target state w).alerts
  unfolding maybe_burn_alert
  maybe_burn_alert-IsRouted none state w h = h
  maybe_burn_alert-IsRouted (some target) state w h =
      burn_unless-IsRouted (get_open_incident check.id w) state w h

module _ (env : Transport) (send : Send) (check : Check) where
  on_burn-now : (state : BurnState) (w : World) → (on_burn env send check state w).now ≡ w.now
  unfolding on_burn burn_alert dispatch
  on_burn-now calm w = refl
  on_burn-now fast w = ground arith
  on_burn-now slow w = ground arith

  burn_unless-now :
      (o : Option Incident) (state : BurnState) (w : World)
      → (burn_unless env send o check state w).now ≡ w.now
  unfolding burn_unless
  burn_unless-now (some i) state w = refl
  burn_unless-now none state w = ground (arith, on_burn-now state w)

  -- A burn alert does not touch the clock.
  pub maybe_burn_alert-now :
      (target : Option ℕ) (state : BurnState) (w : World)
      → (maybe_burn_alert env send check target state w).now ≡ w.now
  unfolding maybe_burn_alert
  maybe_burn_alert-now none state w = refl
  maybe_burn_alert-now (some t) state w = burn_unless-now (get_open_incident check.id w) state w

  on_burn-runs : (state : BurnState) (w : World) → (on_burn env send check state w).runs ≡ w.runs
  unfolding on_burn burn_alert dispatch
  on_burn-runs calm w = refl
  on_burn-runs fast w = ground arith
  on_burn-runs slow w = ground arith

  burn_unless-runs :
      (o : Option Incident) (state : BurnState) (w : World)
      → (burn_unless env send o check state w).runs ≡ w.runs
  unfolding burn_unless
  burn_unless-runs (some i) state w = refl
  burn_unless-runs none state w = ground (arith, on_burn-runs state w)

  -- A burn alert does not touch the runs.
  pub maybe_burn_alert-runs :
      (target : Option ℕ) (state : BurnState) (w : World)
      → (maybe_burn_alert env send check target state w).runs ≡ w.runs
  unfolding maybe_burn_alert
  maybe_burn_alert-runs none state w = refl
  maybe_burn_alert-runs (some t) state w = burn_unless-runs (get_open_incident check.id w) state w
