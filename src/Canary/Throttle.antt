-- ===== src/Canary/Throttle.antt =====
-- How often the canary of runner/canary.ts reports, and what trail a page leaves.
use synthwatch.Prelude.{
  ℕ, ◌+◌, ◌≤◌, max, ◌≡◌, refl, ap, Option, none, some, Bool, true, false, ◌&&◌, List, [], ◌∷◌,
  filter, all, if◌then◌else◌, leb, not, arith,
}
use synthwatch.Alerts.{DispatchResult}
use synthwatch.Canary.{
  misconfigured, delivery_failed, stale, CanaryState, CanaryConfig, canary_interval_ms, latest,
  is_recent, same_phase, times_of, alerted_recently, record_canary_error, alert_ops,
  report_misconfigured, after_probe, run_on, staleness_on, StalenessResult, stale_throttled,
  stale_alerted, earliest, delivered_times, run_canary_if_due, judge_staleness,
  check_canary_staleness, canary_tick, probe_delivered, decide_stale, requested_times,
}

-- Every instant is at least an interval after each older one.
abbrev pub is_spaced : List ℕ → Bool
is_spaced [] = true
is_spaced (t ∷ ts) = all (λ u. leb (u + canary_interval_ms) t) ts && is_spaced ts

all_weaken :
    (a b : ℕ) (ts : List ℕ)
    → a ≤ b
    → all (λ u. leb (u + canary_interval_ms) a) ts ≡ true
    → all (λ u. leb (u + canary_interval_ms) b) ts ≡ true
all_weaken a b [] h k = refl
all_weaken a b (t ∷ ts) h k = ground (arith, all_weaken a b ts)

rested :
    (now : ℕ) (ts : List ℕ)
    → is_recent now (latest ts) ≡ false
    → all (λ u. leb (u + canary_interval_ms) now) ts ≡ true
unfolding latest
rested now [] h = refl
rested now (t ∷ ts) h =
    elim (latest ts)
        as (λ o.
          (latest ts ≡ o)
          → is_recent now (elim o [ none ↦ some t | some u ↦ some (max t u) ]) ≡ false
          → all (λ u. leb (u + canary_interval_ms) now) (t ∷ ts) ≡ true) [
            | none ↦ λ e k. ground (arith, rested now ts)
            | some u ↦ λ e k. ground (arith, rested now ts)
          ]
      refl h

-- The two reports that are throttled are spaced, and each page has its row.
pub record Orderly (s : CanaryState) : Type 0 where
  pub misconfigured_spaced : is_spaced (times_of misconfigured s.errors) ≡ true
  pub stale_spaced : is_spaced (times_of stale s.errors) ≡ true
  pub trail : s.pages ≡ filter (λ e. not (same_phase e.phase misconfigured)) s.errors

report_misconfigured-Orderly :
    (now : ℕ) (s : CanaryState) → Orderly s → Orderly (report_misconfigured now s)
unfolding report_misconfigured alerted_recently times_of
report_misconfigured-Orderly now s h =
    elim (is_recent now (latest (times_of misconfigured s.errors)))
        as (λ b.
          (is_recent now (latest (times_of misconfigured s.errors)) ≡ b)
          → Orderly (if b then s else record_canary_error misconfigured now s)) [
            | true ↦ λ e. h
            | false ↦ λ e. record {
              misconfigured_spaced =
                  ground
                    (arith, rested now (times_of misconfigured s.errors), h.misconfigured_spaced);
              stale_spaced = h.stale_spaced;
              trail = h.trail;
            }
          ]
      refl

after_probe-Orderly :
    (b : Bool) (channel now : ℕ) (s : CanaryState)
    → Orderly s
    → Orderly (after_probe b channel now s).0
unfolding after_probe times_of
after_probe-Orderly true channel now s h = record {
  misconfigured_spaced = h.misconfigured_spaced;
  stale_spaced = h.stale_spaced;
  trail = h.trail;
}
after_probe-Orderly false channel now s h = record {
  misconfigured_spaced = h.misconfigured_spaced;
  stale_spaced = h.stale_spaced;
  trail = ap (λ es. record { phase = delivery_failed; at = now } ∷ es) h.trail;
}

if-Orderly :
    {A : Type 0} (b : Bool) (u v : CanaryState × A)
    → Orderly u.0
    → Orderly v.0
    → Orderly (if◌then◌else◌ {A = CanaryState × A} b u v).0
if-Orderly true u v h k = h
if-Orderly false u v h k = k

run_on-Orderly :
    (channel : Option ℕ) (has_recipient : Bool) (probe : Option DispatchResult) (now : ℕ)
    (s : CanaryState)
    → Orderly s
    → Orderly (run_on channel has_recipient probe now s).0
unfolding run_on
run_on-Orderly none has_recipient probe now s h = report_misconfigured-Orderly now s h
run_on-Orderly (some channel) has_recipient probe now s h =
    if-Orderly (not has_recipient) _ _ (report_misconfigured-Orderly now s h) (
      if-Orderly (is_recent now (latest (requested_times channel s.test_sends))) _ _ h
        (after_probe-Orderly (probe_delivered probe) channel now s h))

judge_staleness-Orderly :
    (last first : Option ℕ) (now : ℕ) (s : CanaryState)
    → Orderly s
    → Orderly (judge_staleness last first now s).0
unfolding judge_staleness alerted_recently times_of
judge_staleness-Orderly last first now s h = if-Orderly (not (decide_stale last first now)) _ _ h (
    elim (is_recent now (latest (times_of stale s.errors)))
        as (λ b.
          (is_recent now (latest (times_of stale s.errors)) ≡ b)
          → Orderly
              (if◌then◌else◌ {A = CanaryState × StalenessResult} b (s, stale_throttled)
                (alert_ops stale now (record_canary_error stale now s), stale_alerted)).0) [
                  | true ↦ λ e. h
                  | false ↦ λ e. record {
                    misconfigured_spaced = h.misconfigured_spaced;
                    stale_spaced =
                        ground (arith, rested now (times_of stale s.errors), h.stale_spaced);
                    trail = ap (λ es. record { phase = stale; at = now } ∷ es) h.trail;
                  }
                ]
      refl)

staleness_on-Orderly :
    (channel : Option ℕ) (now : ℕ) (s : CanaryState)
    → Orderly s
    → Orderly (staleness_on channel now s).0
unfolding staleness_on
staleness_on-Orderly none now s h = h
staleness_on-Orderly (some channel) now s h =
    judge_staleness-Orderly (latest (delivered_times channel s.test_sends))
      (earliest (requested_times channel s.test_sends)) now s h

-- A tick keeps the canary's reports in order: two reports of a missing configuration, and two of
-- staleness, are an interval apart at least, and the pages are those of the other reports, each with
-- its own `runner_errors` row.
pub canary_tick-Orderly :
    (config : CanaryConfig) (probe : Option DispatchResult) (now : ℕ) (s : CanaryState)
    → Orderly s
    → Orderly (canary_tick config probe now s).0
unfolding canary_tick check_canary_staleness run_canary_if_due
canary_tick-Orderly config probe now s h =
    staleness_on-Orderly config.channel now (run_canary_if_due config probe now s).0
      (run_on-Orderly config.channel config.has_recipient probe now s h)
