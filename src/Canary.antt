-- ===== src/Canary.antt =====
-- runner/canary.ts: the probe of the alert transport, and the guard against a canary that has stopped. The
-- probe's send is an argument, which is `none` where it throws. The details, the summaries and the logs
-- are left out, and the SQL clock is the tick's. A page is logged whether or not its sends succeed.
pub mod Guard
pub mod Throttle
use synthwatch.Prelude.{
  ℕ, ◌+◌, ◌*◌, min, max, Option, none, some, Bool, true, false, ◌&&◌, List, [], ◌∷◌, if◌then◌else◌,
  ltb, ◌==◌, not, is_some,
}
use synthwatch.Alerts.{DispatchResult}

-- test_send_requests.status
pub data SendStatus : Type 0 where
  pending sending delivered failed : SendStatus

-- A row of `test_send_requests`.
pub record TestSend : Type 0 where
  pub id : ℕ
  pub channel_id : ℕ
  pub status : SendStatus
  pub requested_at : ℕ
  pub completed_at : Option ℕ

-- The phases of the canary's `runner_errors` rows.
pub data CanaryPhase : Type 0 where
  misconfigured delivery_failed stale : CanaryPhase

-- A `runner_errors` row, or a page, by its phase and instant.
pub record Stamp : Type 0 where
  pub phase : CanaryPhase
  pub at : ℕ

-- The tables that the canary writes, the next id of a row, and the pages, newest first.
pub record CanaryState : Type 0 where
  pub test_sends : List TestSend
  pub next_id : ℕ
  pub errors : List Stamp
  pub pages : List Stamp

-- The `__canary__` channel and CANARY_EMAIL_TO, whether each is there.
pub record CanaryConfig : Type 0 where
  pub channel : Option ℕ
  pub has_recipient : Bool

-- CANARY_INTERVAL_MS and CANARY_STALE_MS
abbrev pub canary_interval_ms : ℕ
canary_interval_ms = 72000000

abbrev pub canary_stale_ms : ℕ
canary_stale_ms = 2 * canary_interval_ms

-- `max(…)` and `min(…)`, which are NULL over no row.
unfoldable pub latest : List ℕ → Option ℕ
latest [] = none
latest (t ∷ ts) = elim (latest ts) [ none ↦ some t | some u ↦ some (max t u) ]

pub earliest : List ℕ → Option ℕ
earliest [] = none
earliest (t ∷ ts) = elim (earliest ts) [ none ↦ some t | some u ↦ some (min t u) ]

-- `last && nowMs - last < CANARY_INTERVAL_MS`
abbrev pub is_recent : ℕ → Option ℕ → Bool
is_recent now none = false
is_recent now (some t) = ltb now (t + canary_interval_ms)

abbrev pub same_phase : CanaryPhase → CanaryPhase → Bool
same_phase misconfigured misconfigured = true
same_phase delivery_failed delivery_failed = true
same_phase stale stale = true
same_phase _ _ = false

unfoldable pub times_of : CanaryPhase → List Stamp → List ℕ
times_of phase [] = []
times_of phase (e ∷ es) =
    if same_phase e.phase phase then e.at ∷ times_of phase es else times_of phase es

-- `alertedRecently`
pub alerted_recently : CanaryPhase → ℕ → CanaryState → Bool
unfolding latest times_of
alerted_recently phase now s = is_recent now (latest (times_of phase s.errors))

-- `recordCanaryError`
abbrev pub record_canary_error : CanaryPhase → ℕ → CanaryState → CanaryState
record_canary_error phase now s = record s {
  errors = record { phase = phase; at = now } ∷ s.errors;
}

-- `deps.alertOps(failurePayload(…))`
abbrev pub alert_ops : CanaryPhase → ℕ → CanaryState → CanaryState
alert_ops phase now s = record s { pages = record { phase = phase; at = now } ∷ s.pages }

-- `CanaryOutcome`
pub data CanaryOutcome : Type 0 where
  was_sent has_failed not_due unconfigured : CanaryOutcome

pub report_misconfigured : ℕ → CanaryState → CanaryState
unfolding alerted_recently
report_misconfigured now s =
    if alerted_recently misconfigured now s then s else record_canary_error misconfigured now s

unfoldable pub requested_times : ℕ → List TestSend → List ℕ
requested_times channel [] = []
requested_times channel (t ∷ ts) =
    if t.channel_id == channel
    then t.requested_at ∷ requested_times channel ts
    else requested_times channel ts

-- `result.delivered > 0`, where a send that throws delivers nothing.
abbrev pub probe_delivered : Option DispatchResult → Bool
probe_delivered none = false
probe_delivered (some r) = ltb 0 r.delivered

-- The evidence row, inserted as 'sending' and completed.
abbrev pub evidence : ℕ → ℕ → ℕ → SendStatus → TestSend
evidence id channel now status = record {
  id = id;
  channel_id = channel;
  status = status;
  requested_at = now;
  completed_at = some now;
}

-- What follows the probe, by whether it was delivered.
pub after_probe : Bool → ℕ → ℕ → CanaryState → CanaryState × CanaryOutcome
after_probe true channel now s = (
  record s {
    test_sends = evidence s.next_id channel now delivered ∷ s.test_sends;
    next_id = s.next_id + 1;
  },
  was_sent,
)
after_probe false channel now s = (
  alert_ops delivery_failed now (
      record_canary_error delivery_failed now (record s {
        test_sends = evidence s.next_id channel now failed ∷ s.test_sends;
        next_id = s.next_id + 1;
      })),
  has_failed,
)

pub run_on : Option ℕ → Bool → Option DispatchResult → ℕ → CanaryState → CanaryState × CanaryOutcome
unfolding report_misconfigured requested_times after_probe latest
run_on none has_recipient probe now s = (report_misconfigured now s, unconfigured)
run_on (some channel) has_recipient probe now s =
    if not has_recipient
    then (report_misconfigured now s, unconfigured)
    else if is_recent now (latest (requested_times channel s.test_sends))
    then (s, not_due)
    else after_probe (probe_delivered probe) channel now s

-- `runCanaryIfDue`
pub run_canary_if_due :
    CanaryConfig → Option DispatchResult → ℕ → CanaryState → CanaryState × CanaryOutcome
unfolding run_on
run_canary_if_due config probe now s = run_on config.channel config.has_recipient probe now s

-- `decideStale`
pub decide_stale : Option ℕ → Option ℕ → ℕ → Bool
decide_stale (some last_delivered) first_attempt now = ltb (last_delivered + canary_stale_ms) now
decide_stale none none now = false
decide_stale none (some first_attempt) now = ltb (first_attempt + canary_stale_ms) now

-- `completed_at` of the delivered rows, where it is not NULL.
abbrev pub delivered_at : ℕ → TestSend → Option ℕ
delivered_at channel t =
    if t.channel_id == channel
    then elim t.status [ delivered ↦ t.completed_at | _ ↦ none ]
    else none

pub delivered_times : ℕ → List TestSend → List ℕ
delivered_times channel [] = []
delivered_times channel (t ∷ ts) =
    let rest = delivered_times channel ts in
    elim (delivered_at channel t) [ none ↦ rest | some d ↦ d ∷ rest ]

-- `StalenessResult`
pub data StalenessResult : Type 0 where
  fresh stale_alerted stale_throttled no_baseline : StalenessResult

pub judge_staleness : Option ℕ → Option ℕ → ℕ → CanaryState → CanaryState × StalenessResult
unfolding decide_stale alerted_recently
judge_staleness last_delivered first_attempt now s =
    if not (decide_stale last_delivered first_attempt now)
    then (
      s,
      if not (is_some last_delivered) && not (is_some first_attempt) then no_baseline else fresh,
    )
    else if alerted_recently stale now s
    then (s, stale_throttled)
    else (alert_ops stale now (record_canary_error stale now s), stale_alerted)

pub staleness_on : Option ℕ → ℕ → CanaryState → CanaryState × StalenessResult
unfolding judge_staleness latest earliest delivered_times requested_times
staleness_on none now s = (s, no_baseline)
staleness_on (some channel) now s =
    judge_staleness (latest (delivered_times channel s.test_sends))
      (earliest (requested_times channel s.test_sends)) now s

-- `checkCanaryStaleness`
pub check_canary_staleness : CanaryConfig → ℕ → CanaryState → CanaryState × StalenessResult
unfolding staleness_on
check_canary_staleness config now s = staleness_on config.channel now s

-- What the tick runs of the two, in its order.
pub canary_tick :
    CanaryConfig → Option DispatchResult → ℕ → CanaryState → CanaryState × StalenessResult
unfolding run_canary_if_due check_canary_staleness
canary_tick config probe now s =
    check_canary_staleness config now (run_canary_if_due config probe now s).0
