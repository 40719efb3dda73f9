-- ===== src/Burn.antt =====
-- runner/evaluate.ts: the SLO burn rate of each location, the burn state, and its alert. A target is a
-- number of millionths and a threshold a number of tenths, so that a rate is compared exactly. The state
-- that an alert acts on comes from the SQL function slo_burn_status, and is an argument.
pub mod Paging
use synthwatch.Prelude.{
  ℕ, ◌+◌, ◌*◌, ◌-◌, Option, none, some, Bool, true, ◌&&◌, ◌||◌, List, [], map, filter, any, count,
  length, if◌then◌else◌, ltb, leb, ◌==◌, not, String, str_eq,
}
use synthwatch.Types.{Check, Run, is_down, is_up, Severity, critical, warning}
use synthwatch.Alerts.{Transport}
use synthwatch.Verdict.{effective_n, locations}
use synthwatch.World.{
  World, Window, Incident, Send, burning, dispatch, get_open_incident, in_maintenance_window,
  set_at,
}
use synthwatch.Incident.{notice_for}

-- A location's counts over a window, `total` and `down`.
pub record LocBurn : Type 0 where
  pub down : ℕ
  pub total : ℕ

pub data BurnState : Type 0 where
  fast slow calm : BurnState

-- BURN_FAST_WINDOW, BURN_SLOW_WINDOW and BURN_SLOW_SHORT_WINDOW.
abbrev pub burn_fast_window : ℕ
burn_fast_window = 3600000

abbrev pub burn_slow_window : ℕ
burn_slow_window = 21600000

abbrev pub burn_slow_short_window : ℕ
burn_slow_short_window = 1800000

-- BURN_FAST_THRESHOLD and BURN_SLOW_THRESHOLD.
abbrev pub burn_fast_threshold : ℕ
burn_fast_threshold = 144

abbrev pub burn_slow_threshold : ℕ
burn_slow_threshold = 60

-- A maintenance window that covers the run.
covers : Run → Window → Bool
covers r w =
    (elim w.check_id [ none ↦ true | some c ↦ c == r.check_id ])
    && (leb w.starts_at r.started_at && ltb r.started_at w.ends_at)

-- The rows that the query groups.
pub in_burn_window : ℕ → ℕ → ℕ → List Window → Run → Bool
unfolding covers
in_burn_window check_id now window windows r =
    r.check_id == check_id
    && (leb now (r.started_at + window) && ltb r.started_at now && not (any (covers r) windows))

loc_burn : List Run → String → LocBurn
loc_burn rows l = record {
  down = count (λ r. str_eq r.location l && is_down r.status) rows;
  total = count (λ r. str_eq r.location l && (is_down r.status || is_up r.status)) rows;
}

-- `burnRatesByLocation`
pub burn_rates_by_location : ℕ → ℕ → ℕ → List Window → List Run → List LocBurn
unfolding loc_burn
burn_rates_by_location check_id now window windows runs =
    let rows = filter (in_burn_window check_id now window windows) runs in
    filter (λ b. ltb 0 b.total) (map (loc_burn rows) (locations rows))

-- `burn >= threshold`, where `burn` is `down / total / (1 - target)`.
pub is_burning : ℕ → ℕ → LocBurn → Bool
is_burning target threshold b = leb (threshold * (b.total * (1000000 - target))) (b.down * 10000000)

-- `burningLocations`
pub burning_locations : ℕ → List LocBurn → ℕ → ℕ → ℕ
unfolding is_burning
burning_locations target rates threshold floor =
    count (λ b. leb floor b.total && is_burning target threshold b) rates

-- One window over its threshold in enough locations.
pub is_over : Check → ℕ → ℕ → List LocBurn → Bool
is_over check target threshold rates =
    ltb 0 (length rates)
    && leb (effective_n (length rates) check.min_fail_locations)
        (burning_locations target rates threshold check.failure_threshold)

-- The composition of `burnStateFromTs` over the rates of its three windows.
pub burn_state_of : Check → ℕ → List LocBurn → List LocBurn → List LocBurn → BurnState
unfolding is_over
burn_state_of check target fast_rates slow_long slow_short =
    if is_over check target burn_fast_threshold fast_rates
    then fast
    else if is_over check target burn_slow_threshold slow_long
        && is_over check target burn_slow_threshold slow_short
    then slow
    else calm

-- `burnStateFromTs`, its `burn_state`.
pub burn_state_from_ts : Check → Option ℕ → ℕ → List Window → List Run → BurnState
unfolding burn_state_of
burn_state_from_ts check none now windows runs = calm
burn_state_from_ts check (some target) now windows runs =
    burn_state_of check target (burn_rates_by_location check.id now burn_fast_window windows runs)
      (burn_rates_by_location check.id now burn_slow_window windows runs)
      (burn_rates_by_location check.id now burn_slow_short_window windows runs)

-- The debounce of the burn alert.
pub burn_due : Check → World → Bool
burn_due check w = elim (w.last_burn_notified_at check.id) [
  | none ↦ true
  | some t ↦ leb (t + check.warn_renotify_seconds * 1000) w.now
]

module _ (env : Transport) (send : Send) where
  -- The dispatch at the burn's own severity, and the stamp.
  pub burn_alert : Check → Severity → World → World
  burn_alert check severity w =
      let w' = (dispatch env send (notice_for check severity burning none none) severity w).0 in
      record w' { last_burn_notified_at = set_at w.last_burn_notified_at check.id (some w.now) }

  pub on_burn : Check → BurnState → World → World
  on_burn check fast w = if burn_due check w then burn_alert check critical w else w
  on_burn check slow w = if burn_due check w then burn_alert check warning w else w
  on_burn check calm w = w

  -- The suppression by an open incident and by a maintenance window.
  pub burn_unless : Option Incident → Check → BurnState → World → World
  burn_unless (some _) check state w = w
  burn_unless none check state w =
      if in_maintenance_window check.id w then w else on_burn check state w

  -- `maybeBurnAlert`, of a check with the SLO target, on the state of the SQL function.
  pub maybe_burn_alert : Check → Option ℕ → BurnState → World → World
  maybe_burn_alert check none state w = w
  maybe_burn_alert check (some target) state w =
      burn_unless (get_open_incident check.id w) check state w
