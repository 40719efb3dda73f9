-- ===== src/Canary/Guard.antt =====
-- That the canary of runner/canary.ts is not silent when it is dead, and is quiet when it is well.
use synthwatch.Prelude.{
  ℕ, ◌+◌, min, max, ◌≡◌, ◌∙◌, refl, ap, Option, none, some, Bool, true, false, ◌||◌, List, [], ◌∷◌,
  any, ltb, leb, arith, is_some,
}
use synthwatch.Alerts.{DispatchResult}
use synthwatch.Canary.{
  stale, CanaryState, canary_interval_ms, canary_stale_ms, latest, earliest, is_recent, times_of,
  alerted_recently, report_misconfigured, after_probe, run_on, run_canary_if_due, judge_staleness,
  staleness_on, check_canary_staleness, canary_tick, probe_delivered, decide_stale, requested_times,
  delivered_times, fresh,
}

-- The newest instant is one of them.
any_of_latest :
    (f : ℕ → Bool) (m : ℕ) (ts : List ℕ) → latest ts ≡ some m → f m ≡ true → any f ts ≡ true
unfolding latest
any_of_latest f m [] e h = ground arith
any_of_latest f m (t ∷ ts) e h =
    elim (latest ts)
        as (λ o.
          (latest ts ≡ o)
          → (elim o [ none ↦ some t | some u ↦ some (max t u) ]) ≡ some m
          → any f (t ∷ ts) ≡ true) [
            | none ↦ λ i k. ground arith
            | some u ↦ λ i k. ground (arith, any_of_latest f u ts)
          ]
      refl e

-- When one of the instants is old, so is the first.
earliest_old :
    (now : ℕ) (ts : List ℕ)
    → any (λ t. ltb (t + canary_stale_ms) now) ts ≡ true
    → decide_stale none (earliest ts) now ≡ true
unfolding earliest decide_stale
earliest_old now [] h = ground arith
earliest_old now (t ∷ ts) h =
    elim (earliest ts)
        as (λ o.
          (earliest ts ≡ o)
          → decide_stale none (elim o [ none ↦ some t | some u ↦ some (min t u) ]) now ≡ true) [
            | none ↦ λ i. ground (arith, earliest_old now ts)
            | some u ↦ λ i. ground (arith, earliest_old now ts)
          ]
      refl

-- A probe was delivered within the stale window, and the stale canary was reported within an interval.
abbrev pub is_alive : ℕ → ℕ → CanaryState → Bool
is_alive channel now s =
    any (λ t. leb now (t + canary_stale_ms)) (delivered_times channel s.test_sends)

abbrev pub is_loud : ℕ → CanaryState → Bool
is_loud now s = any (λ t. ltb now (t + canary_interval_ms)) (times_of stale s.errors)

-- A probe was attempted before the stale window.
abbrev pub has_old_attempt : ℕ → ℕ → CanaryState → Bool
has_old_attempt channel now s =
    any (λ t. ltb (t + canary_stale_ms) now) (requested_times channel s.test_sends)

stale_unless_alive :
    (first : Option ℕ) (now : ℕ) (ds : List ℕ)
    → decide_stale none first now ≡ true
    → decide_stale (latest ds) first now ≡ false
    → any (λ t. leb now (t + canary_stale_ms)) ds ≡ true
unfolding decide_stale
stale_unless_alive first now ds h k =
    elim (latest ds)
        as (λ o.
          (latest ds ≡ o)
          → decide_stale o first now ≡ false
          → any (λ t. leb now (t + canary_stale_ms)) ds ≡ true) [
            | none ↦ λ e j. cc
            | some m ↦
                λ e j. any_of_latest (λ t. leb now (t + canary_stale_ms)) m ds e (ground arith)
          ]
      refl k

loud_if_recent :
    (now : ℕ) (ts : List ℕ)
    → is_recent now (latest ts) ≡ true
    → any (λ t. ltb now (t + canary_interval_ms)) ts ≡ true
loud_if_recent now ts h =
    elim (latest ts)
        as (λ o.
          (latest ts ≡ o)
          → is_recent now o ≡ true
          → any (λ t. ltb now (t + canary_interval_ms)) ts ≡ true) [
            | none ↦ λ e j. ground arith
            | some m ↦ λ e j. any_of_latest (λ t. ltb now (t + canary_interval_ms)) m ts e j
          ]
      refl h

judged :
    (channel now : ℕ) (s : CanaryState)
    → has_old_attempt channel now s ≡ true
    → (is_alive channel now (staleness_on (some channel) now s).0
        || is_loud now (staleness_on (some channel) now s).0)
      ≡ true
unfolding staleness_on judge_staleness alerted_recently times_of
judged channel now s h = ground (
  arith,
  earliest_old now (requested_times channel s.test_sends),
  stale_unless_alive (earliest (requested_times channel s.test_sends)) now
      (delivered_times channel s.test_sends),
  loud_if_recent now (times_of stale s.errors),
)

old_attempt_after :
    (b : Bool) (channel now : ℕ) (s : CanaryState)
    → has_old_attempt channel now s ≡ true
    → has_old_attempt channel now (after_probe b channel now s).0 ≡ true
unfolding after_probe requested_times
old_attempt_after true channel now s h = ground arith
old_attempt_after false channel now s h = ground arith

old_attempt_stays :
    (channel : ℕ) (has_recipient : Bool) (probe : Option DispatchResult) (now : ℕ) (s : CanaryState)
    → has_old_attempt channel now s ≡ true
    → has_old_attempt channel now (run_on (some channel) has_recipient probe now s).0 ≡ true
unfolding run_on report_misconfigured requested_times
old_attempt_stays channel has_recipient probe now s h =
    ground (arith, old_attempt_after (probe_delivered probe) channel now s)

-- No silence that looks like health: where the canary's channel is there and a probe was attempted before
-- the stale window, after every tick either a probe was delivered within the window, or the staleness was
-- reported within the last interval.
pub canary_tick_heard :
    (channel : ℕ) (has_recipient : Bool) (probe : Option DispatchResult) (now : ℕ) (s : CanaryState)
    → has_old_attempt channel now s ≡ true
    → (is_alive channel now
          (canary_tick
            (record { channel = some channel; has_recipient = has_recipient })
            probe
            now
            s).0
        || is_loud now
            (canary_tick
              (record { channel = some channel; has_recipient = has_recipient })
              probe
              now
              s).0)
      ≡ true
unfolding canary_tick run_canary_if_due check_canary_staleness
canary_tick_heard channel has_recipient probe now s h =
    judged channel now (run_on (some channel) has_recipient probe now s).0
      (old_attempt_stays channel has_recipient probe now s h)

latest_now :
    (now : ℕ) (ts : List ℕ) (first : Option ℕ) → decide_stale (latest (now ∷ ts)) first now ≡ false
unfolding latest decide_stale
latest_now now ts first =
    elim (latest ts)
      as (λ o.
        decide_stale (elim o [ none ↦ some now | some u ↦ some (max now u) ]) first now ≡ false) [
          | none ↦ ground arith
          | some u ↦ ground arith
        ]

latest_some : (t : ℕ) (ts : List ℕ) → is_some (latest (t ∷ ts)) ≡ true
unfolding latest
latest_some t ts =
    elim (latest ts) as (λ o. is_some (elim o [ none ↦ some t | some u ↦ some (max t u) ]) ≡ true) [
      | none ↦ refl
      | some u ↦ refl
    ]

judge_fresh :
    (last first : Option ℕ) (now : ℕ) (s : CanaryState)
    → decide_stale last first now ≡ false
    → is_some last ≡ true
    → judge_staleness last first now s ≡ (s, fresh)
unfolding judge_staleness
judge_fresh last first now s h k = rw (h, k) refl

delivered_now :
    (channel now : ℕ) (s : CanaryState)
    → delivered_times channel (after_probe true channel now s).0.test_sends
      ≡ now ∷ delivered_times channel s.test_sends
unfolding after_probe delivered_times
delivered_now channel now s = ground arith

after_delivery :
    (channel now : ℕ) (s : CanaryState)
    → staleness_on (some channel) now (after_probe true channel now s).0
      ≡ ((after_probe true channel now s).0, fresh)
unfolding staleness_on
after_delivery channel now s =
    let ds = delivered_times channel s.test_sends in
    let s' = (after_probe true channel now s).0 in
    judge_fresh (latest (delivered_times channel s'.test_sends))
      (earliest (requested_times channel s'.test_sends)) now s'
      (ap (λ ts. decide_stale (latest ts) (earliest (requested_times channel s'.test_sends)) now)
          (delivered_now channel now s)
        ∙ latest_now now ds _)
      (ap (λ ts. is_some (latest ts)) (delivered_now channel now s) ∙ latest_some now ds)

run_on_due :
    (channel : ℕ) (probe : Option DispatchResult) (now : ℕ) (s : CanaryState)
    → is_recent now (latest (requested_times channel s.test_sends)) ≡ false
    → probe_delivered probe ≡ true
    → run_on (some channel) true probe now s ≡ after_probe true channel now s
unfolding run_on
run_on_due channel probe now s h k = rw (h, k) refl

-- Recovery is quiet: where the canary is configured and due, a tick whose probe is delivered reports
-- nothing and pages nobody, and finds the canary fresh, however long it had been stale.
pub canary_tick_recovers :
    (channel : ℕ) (probe : Option DispatchResult) (now : ℕ) (s : CanaryState)
    → is_recent now (latest (requested_times channel s.test_sends)) ≡ false
    → probe_delivered probe ≡ true
    → let t = canary_tick (record { channel = some channel; has_recipient = true }) probe now s in
      (t.1 ≡ fresh) × (t.0.pages ≡ s.pages) × (t.0.errors ≡ s.errors)
unfolding canary_tick run_canary_if_due check_canary_staleness after_probe
canary_tick_recovers channel probe now s h k =
    let e =
      ap (λ r. staleness_on (some channel) now r.0) (run_on_due channel probe now s h k)
      ∙ after_delivery channel now s in
    (ap (λ t. t.1) e, ap (λ t. t.0.pages) e, ap (λ t. t.0.errors) e)
