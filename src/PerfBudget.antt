-- ===== src/PerfBudget.antt =====
-- runner/evaluate.ts: the performance budgets of a browser run. A tolerance is a number of tenths, and
-- `Math.round` rounds a half up, exactly. The messages are left out.
use synthwatch.Prelude.{
  ℕ, ◌+◌, ◌*◌, ◌/◌, String, Option, none, some, Bool, false, ◌&&◌, ◌||◌, ◌≡◌, ◌⊎◌, refl,
  if◌then◌else◌, ltb, str_eq, is_some, arith,
}
use synthwatch.Types.{Check, Status, pass, warn, fail, error, infra_error, running}

-- The fields of `RunMetrics` that a budget reads.
pub record RunMetrics : Type 0 where
  pub lcp_ms : Option ℕ
  pub transfer_bytes : Option ℕ

-- `latencyToleranceFor` with LOCATION_LATENCY_TOLERANCE.
unfoldable pub latency_tolerance_for : String → ℕ
latency_tolerance_for location = if str_eq location "westus2" then 13 else 10

-- `Math.round(budget * tolerance)`
unfoldable pub scaled_budget : ℕ → ℕ → ℕ
scaled_budget budget tolerance = (budget * tolerance + 5) / 10

-- `budget != null && metric != null && metric > budget`
unfoldable pub is_over_budget : Option ℕ → Option ℕ → Bool
is_over_budget none metric = false
is_over_budget (some budget) none = false
is_over_budget (some budget) (some metric) = ltb budget metric

unfoldable pub lcp_budget : Check → String → Option ℕ
unfolding scaled_budget latency_tolerance_for
lcp_budget check location = elim check.perf_budget_lcp_ms [
  | none ↦ none
  | some budget ↦ some (scaled_budget budget (latency_tolerance_for location))
]

-- `perfBudgetBreach`, whether there is one.
unfoldable pub perf_budget_breach : Check → RunMetrics → String → Bool
unfolding is_over_budget lcp_budget
perf_budget_breach check m location =
    is_over_budget (lcp_budget check location) m.lcp_ms
    || is_over_budget check.perf_budget_transfer_bytes m.transfer_bytes

-- `hasPerfBudget`
unfoldable pub has_perf_budget : Check → Bool
has_perf_budget check = is_some check.perf_budget_lcp_ms || is_some check.perf_budget_transfer_bytes

-- `budgetedMetricCaptureFailed`, by whether each metric is in the set.
pub budgeted_metric_capture_failed : Check → Bool → Bool → Bool
budgeted_metric_capture_failed check lcp_failed transfer_failed =
    is_some check.perf_budget_lcp_ms && lcp_failed
    || is_some check.perf_budget_transfer_bytes && transfer_failed

-- The branches of `perfBudgetVerdict` for a run that passed and has metrics.
unfoldable pub judge_metrics : Check → RunMetrics → Bool → String → Status
unfolding has_perf_budget perf_budget_breach
judge_metrics check m capture_failed location =
    if capture_failed && has_perf_budget check
    then error
    else if perf_budget_breach check m location
    then warn
    else pass

-- `perfBudgetVerdict`, its status.
unfoldable pub perf_budget_verdict : Check → Status → Option RunMetrics → Bool → String → Status
unfolding judge_metrics
perf_budget_verdict check pass (some m) capture_failed location =
    judge_metrics check m capture_failed location
perf_budget_verdict check pass none capture_failed location = pass
perf_budget_verdict check base metrics capture_failed location = base

judge_metrics_pass :
    (check : Check) (m : RunMetrics) (capture_failed : Bool) (location : String)
    → judge_metrics check m capture_failed location ≡ pass
    → ((capture_failed ≡ false) ⊎ (has_perf_budget check ≡ false))
      × (perf_budget_breach check m location ≡ false)
unfolding judge_metrics
judge_metrics_pass check m capture_failed location h = ground arith

-- A run with metrics is green after the budgets only when it was green before, and either the capture
-- did not fail or no budget is set, and no metric breaches its budget.
pub perf_budget_verdict_pass :
    (check : Check) (base : Status) (m : RunMetrics) (capture_failed : Bool) (location : String)
    → perf_budget_verdict check base (some m) capture_failed location ≡ pass
    → (base ≡ pass)
      × ((capture_failed ≡ false) ⊎ (has_perf_budget check ≡ false))
      × (perf_budget_breach check m location ≡ false)
unfolding perf_budget_verdict
perf_budget_verdict_pass check pass m capture_failed location h =
    let (captured, within) = judge_metrics_pass check m capture_failed location h in
    (refl, captured, within)
perf_budget_verdict_pass check warn m capture_failed location h = cc
perf_budget_verdict_pass check fail m capture_failed location h = cc
perf_budget_verdict_pass check error m capture_failed location h = cc
perf_budget_verdict_pass check infra_error m capture_failed location h = cc
perf_budget_verdict_pass check running m capture_failed location h = cc

-- The headroom of a location never tightens a budget: a page that breaches no budget in a region
-- without headroom breaches none in any region.
pub perf_budget_breach_headroom :
    (check : Check) (m : RunMetrics) (location : String)
    → perf_budget_breach check m "default" ≡ false
    → perf_budget_breach check m location ≡ false
unfolding perf_budget_breach is_over_budget lcp_budget scaled_budget latency_tolerance_for
perf_budget_breach_headroom check m location h = ground arith

judge_metrics_running :
    (check : Check) (m : RunMetrics) (capture_failed : Bool) (location : String)
    → judge_metrics check m capture_failed location ≡ running
    → ⊥
unfolding judge_metrics
judge_metrics_running check m capture_failed location h = ground arith

-- The budgets leave no run in flight.
pub perf_budget_verdict_running :
    (check : Check) (base : Status) (metrics : Option RunMetrics) (capture_failed : Bool)
    (location : String)
    → perf_budget_verdict check base metrics capture_failed location ≡ running
    → base ≡ running
unfolding perf_budget_verdict
perf_budget_verdict_running check pass (some m) capture_failed location h =
    absurd (judge_metrics_running check m capture_failed location h)
perf_budget_verdict_running check pass none capture_failed location h = h
perf_budget_verdict_running check warn metrics capture_failed location h = h
perf_budget_verdict_running check fail metrics capture_failed location h = h
perf_budget_verdict_running check error metrics capture_failed location h = h
perf_budget_verdict_running check infra_error metrics capture_failed location h = h
perf_budget_verdict_running check running metrics capture_failed location h = h
