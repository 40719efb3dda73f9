-- ===== src/Types.antt =====
-- The shared row types of runner/db.ts and of the `runs` columns that the runner reads. A timestamp is
-- a number of milliseconds, and an SQL NULL is `none`.
use synthwatch.Prelude.{ℕ, String, Option, Bool, true, false, ◌&&◌, not, is_some}

-- checks.kind
pub data Kind : Type 0 where
  http browser ssl dns tcp ping multistep : Kind

-- `RunStatus`: the terminal statuses and the in-flight one.
pub data Status : Type 0 where
  pass warn fail error infra_error running : Status

pub data Severity : Type 0 where
  critical warning : Severity

-- The columns of `checks` that the verdict, incident and alert code reads.
pub record Check : Type 0 where
  pub id : ℕ
  pub name : String
  pub kind : Kind
  pub severity : Severity
  pub failure_threshold : ℕ
  pub min_fail_locations : Option ℕ
  pub perf_budget_lcp_ms : Option ℕ
  pub perf_budget_transfer_bytes : Option ℕ
  pub warn_renotify_seconds : ℕ

-- A row of `runs`.
pub record Run : Type 0 where
  pub id : ℕ
  pub check_id : ℕ
  pub location : String
  pub status : Status
  pub started_at : ℕ
  pub sandbox : Bool
  pub confirmation_of_run_id : Option ℕ
  pub superseded_by_run_id : Option ℕ

-- `status IN ('fail','error')`
abbrev pub is_down : Status → Bool
is_down fail = true
is_down error = true
is_down _ = false

-- `status IN ('pass','warn')`
abbrev pub is_up : Status → Bool
is_up pass = true
is_up warn = true
is_up _ = false

-- `status NOT IN ('running','infra_error')`
abbrev pub is_result : Status → Bool
is_result running = false
is_result infra_error = false
is_result _ = true

-- The `WHERE` of the view `countable_run`.
unfoldable pub countable : Run → Bool
countable r =
    is_result r.status
    && not (is_some r.superseded_by_run_id)
    && (not (is_some r.confirmation_of_run_id) && not r.sandbox)

abbrev pub is_critical : Severity → Bool
is_critical critical = true
is_critical warning = false
