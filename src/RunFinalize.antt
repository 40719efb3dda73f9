-- ===== src/RunFinalize.antt =====
-- runner/runFinalize.ts, with the wrapper `runOne` and the reaper of runner/index.ts: how a row of `runs`
-- gets its terminal verdict. The signed `cert_days_remaining`, which nothing here reads, is left out.
pub mod Survival
pub mod Endings
use synthwatch.Prelude.{
  ℕ, ◌+◌, String, Option, none, some, Bool, true, false, ◌&&◌, List, [], map, ltb, ◌==◌,
  if◌then◌else◌,
}
use synthwatch.Types.{Run, Status, running, error}

-- A row of `runs`: what Types.antt has of it, with the columns that finalizing writes.
pub record RunRow : Type 0 where
  pub run : Run
  pub finished_at : Option ℕ
  pub duration_ms : Option ℕ
  pub http_status : Option ℕ
  pub error_message : Option String
  pub failed_step : Option String
  pub retry_count : ℕ
  pub egress_ip : Option String
  pub trace_url : Option String
  pub trace_signals : Option String
  pub screenshot_url : Option String

-- `ProvisionalVerdict`
pub record ProvisionalVerdict : Type 0 where
  pub status : Status
  pub duration_ms : ℕ
  pub http_status : Option ℕ
  pub error_message : Option String
  pub failed_step : Option String
  pub retry_count : ℕ
  pub egress_ip : Option String

-- `TraceEnrichment`
pub record TraceEnrichment : Type 0 where
  pub trace_url : Option String
  pub trace_signals : Option String
  pub screenshot_url : Option String

abbrev pub is_running_status : Status → Bool
is_running_status running = true
is_running_status _ = false

abbrev pub verdict_row : ℕ → ProvisionalVerdict → RunRow → RunRow
verdict_row now v r = record r {
  run = record r.run { status = v.status };
  finished_at = some now;
  duration_ms = some v.duration_ms;
  http_status = v.http_status;
  error_message = v.error_message;
  failed_step = v.failed_step;
  retry_count = v.retry_count;
  egress_ip = v.egress_ip;
}

-- `writeProvisionalVerdict`
pub write_provisional_verdict : ℕ → ℕ → ProvisionalVerdict → List RunRow → List RunRow
write_provisional_verdict now id v rows =
    map (λ r. if r.run.id == id then verdict_row now v r else r) rows

abbrev pub trace_row : TraceEnrichment → RunRow → RunRow
trace_row t r = record r {
  trace_url = t.trace_url;
  trace_signals = t.trace_signals;
  screenshot_url = t.screenshot_url;
}

-- `enrichRunTrace`
pub enrich_run_trace : ℕ → TraceEnrichment → List RunRow → List RunRow
enrich_run_trace id t rows = map (λ r. if r.run.id == id then trace_row t r else r) rows

-- `COALESCE(error_message, …)`
abbrev pub coalesce : Option String → String → Option String
coalesce none message = some message
coalesce (some m) message = some m

-- Status 'error' on a row that is still running.
abbrev pub give_up : ℕ → String → RunRow → RunRow
give_up now message r = record r {
  run = record r.run { status = error };
  finished_at = some now;
  error_message = coalesce r.error_message message;
}

-- The `finally` of `runOne`, by `state.finalized`.
pub finalize_fallback : Bool → ℕ → ℕ → List RunRow → List RunRow
finalize_fallback true now id rows = rows
finalize_fallback false now id rows =
    map
      (λ r.
        if r.run.id == id && is_running_status r.run.status
        then give_up now "runner threw before finalizing the run" r
        else r)
      rows

-- STALE_RUNNING, 30 minutes.
abbrev pub stale_running : ℕ
stale_running = 1800000

abbrev pub is_stale_running : ℕ → RunRow → Bool
is_stale_running now r =
    is_running_status r.run.status && ltb (r.run.started_at + stale_running) now

-- `reapStaleRunning`, on `runs`.
pub reap_stale_running : ℕ → List RunRow → List RunRow
reap_stale_running now rows =
    map
      (λ r.
        if is_stale_running now r
        then give_up now "runner did not finalize (stale running)" r
        else r)
      rows

-- How `runOneInner` ends: after the verdict, by a throw before it, or by a kill before it.
pub data Ending : Type 0 where
  finished : ProvisionalVerdict → Ending
  threw killed : Ending

-- `runOne` on the row that it has inserted; a kill runs no `finally`.
pub run_one_row : Ending → ℕ → ℕ → List RunRow → List RunRow
unfolding write_provisional_verdict finalize_fallback
run_one_row (finished v) now id rows =
    finalize_fallback true now id (write_provisional_verdict now id v rows)
run_one_row threw now id rows = finalize_fallback false now id rows
run_one_row killed now id rows = rows
