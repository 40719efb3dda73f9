-- ===== src/SideEffects/Confirmation.antt =====
-- What a confirmation that passed does to the verdict, in `applyRunSideEffects` of runner/evaluate.ts.
use synthwatch.Prelude.{ℕ, true, false, List, ◌≡◌, refl, arith, filter, ◌==◌, not}
use synthwatch.Types.{Check, Run, countable}
use synthwatch.Verdict.{aggregate_verdict}
use synthwatch.Verdict.Windows.{aggregate_verdict_without}
use synthwatch.SideEffects.{supersede_row, supersede}

superseded_lost :
    (original by : ℕ) (r : Run)
    → (r.id == original) ≡ true
    → countable (supersede_row original by r) ≡ false
unfolding countable
superseded_lost original by r h = rw h (ground arith)

superseded_kept :
    (original by : ℕ) (r : Run) → (r.id == original) ≡ false → supersede_row original by r ≡ r
superseded_kept original by r h = rw h refl

-- When a confirmation that passed has superseded the original run, the verdict of any check is as if the
-- original run had never been recorded.
pub aggregate_verdict-supersede :
    (check : Check) (now original by : ℕ) (runs : List Run)
    → aggregate_verdict check now (supersede original by runs)
      ≡ aggregate_verdict check now (filter (λ r. not (r.id == original)) runs)
unfolding supersede
aggregate_verdict-supersede check now original by runs =
    aggregate_verdict_without check now (λ r. r.id == original) (supersede_row original by)
      (superseded_lost original by) (superseded_kept original by) runs
