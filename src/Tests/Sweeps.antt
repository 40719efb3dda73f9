-- ===== src/Tests/Sweeps.antt =====
-- The theorems on the retention, the sweep of stranded incidents, the canary and the finalizing of runs at
-- the rows of Data.antt.
use synthwatch.Prelude.{
  ℕ, none, some, true, false, ◌||◌, List, [], ◌∷◌, ◌≡◌, refl, arith, filter, not, ◌==◌, is_some,
  All,
}
use synthwatch.Types.{fail, running}
use synthwatch.World.{Incident}
use synthwatch.Schedule.{CheckRow, claim, claim_where, is_due}
use synthwatch.Retention.{is_eligible, run_retention}
use synthwatch.Retention.Refinement.{run_retention_refines}
use synthwatch.Canary.{CanaryState, CanaryConfig, canary_tick, failed, times_of, requested_times}
use synthwatch.Canary.Guard.{canary_tick_heard, has_old_attempt, is_alive, is_loud}
use synthwatch.Canary.Throttle.{Orderly}
use synthwatch.RunFinalize.{
  RunRow, ProvisionalVerdict, write_provisional_verdict, reap_stale_running, run_one_row, threw,
}
use synthwatch.RunFinalize.Survival.{reaped, now_on, AllHave, write_provisional_verdict_survives}
use synthwatch.RunFinalize.Endings.{HasEnded, run_one_row_ends}
use synthwatch.Tests.Data.{run_of, failed_runs, open_incident_row}
use synthwatch.Tests.Ticks.{checkout_row, cursors}

-- 100 days after the start.
abbrev late : ℕ
late = 8640000000

abbrev incidents : List Incident
incidents = open_incident_row ∷ []

-- Run 3 opened the incident, and the other three go in two batches.
run_retention_refines_example :
    ((run_retention 90 2 3 late incidents failed_runs).runs
      ≡ filter (λ r. not (is_eligible late 90 incidents r)) failed_runs)
    × ((run_retention 90 2 3 late incidents failed_runs).deleted ≡ 3)
run_retention_refines_example =
    run_retention_refines 90 2 3 late incidents failed_runs refl (omega arith)

abbrev removed_row : CheckRow
removed_row = record checkout_row { enabled = false; removed_at = some 6000 }

claimed : is_some (claim "east" 6000 7 cursors (checkout_row ∷ [])).won ≡ true
unfolding claim claim_where is_due
claimed = refl

abbrev canary : CanaryConfig
canary = record { channel = some 3; has_recipient = true }

-- A failed probe at 1000 and nothing since.
abbrev silent : CanaryState
silent = record {
  test_sends =
      record {
        id = 1;
        channel_id = 3;
        status = failed;
        requested_at = 1000;
        completed_at = some 1000;
      }
      ∷ [];
  next_id = 2;
  errors = [];
  pages = [];
}

old : has_old_attempt 3 200000000 silent ≡ true
unfolding requested_times
old = refl

canary_tick_heard_example :
    (is_alive 3 200000000 (canary_tick canary none 200000000 silent).0
      || is_loud 200000000 (canary_tick canary none 200000000 silent).0)
    ≡ true
canary_tick_heard_example = canary_tick_heard 3 true none 200000000 silent old

orderly : Orderly silent
unfolding times_of
orderly = record { misconfigured_spaced = refl; stale_spaced = refl; trail = refl }

-- Run 9 has just been inserted.
abbrev row : RunRow
row = record {
  run = run_of 9 "east" running 6000;
  finished_at = none;
  duration_ms = none;
  http_status = none;
  error_message = none;
  failed_step = none;
  retry_count = 0;
  egress_ip = none;
  trace_url = none;
  trace_signals = none;
  screenshot_url = none;
}

abbrev verdict : ProvisionalVerdict
verdict = record {
  status = fail;
  duration_ms = 531000;
  http_status = none;
  error_message = some "timeout";
  failed_step = some "pay";
  retry_count = 1;
  egress_ip = none;
}

-- The process is killed while it works on the trace, and the reaper comes after an hour.
write_provisional_verdict_survives_example :
    AllHave 9 537000 verdict
      (reap_stale_running 3606000 (write_provisional_verdict 537000 9 verdict (row ∷ [])))
write_provisional_verdict_survives_example =
    write_provisional_verdict_survives 537000 9 verdict (row ∷ []) _ refl (reaped 3606000 now_on)

run_one_row_ends_example :
    All
      (λ r. (r.run.id == 9) ≡ true → HasEnded threw 7000 r)
      (reap_stale_running 3606000 (run_one_row threw 7000 9 (row ∷ [])))
run_one_row_ends_example = run_one_row_ends threw 7000 9 3606000 (row ∷ []) refl refl
