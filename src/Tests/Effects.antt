-- ===== src/Tests/Effects.antt =====
-- The budgets of runner/evaluate.ts at one check.
use synthwatch.Prelude.{none, some, false, ◌≡◌, refl}
use synthwatch.Types.{pass, Check}
use synthwatch.PerfBudget.{RunMetrics, perf_budget_verdict}
use synthwatch.Tests.Data.{checkout}

abbrev budgeted : Check
budgeted = record checkout { perf_budget_lcp_ms = some 2500 }

abbrev metrics : RunMetrics
metrics = record { lcp_ms = some 2400; transfer_bytes = none }

green : perf_budget_verdict budgeted pass (some metrics) false "westus2" ≡ pass
unfolding perf_budget_verdict
green = refl
