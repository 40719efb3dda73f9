-- ===== src/SideEffects/Rows.antt =====
-- What the side effects of a run, in runner/evaluate.ts, keep of the rows of `runs`.
use synthwatch.Prelude.{
  ℕ, ◌≡◌, refl, ap, ◌∙◌, String, Option, none, some, Bool, true, false, List, [], ◌∷◌, any, arith,
  if◌then◌else◌,
}
use synthwatch.Types.{Check, Run, is_up}
use synthwatch.Alerts.{Transport}
use synthwatch.World.{Send}
use synthwatch.Burn.{BurnState}
use synthwatch.Burn.Paging.{maybe_burn_alert-runs}
use synthwatch.Incident.Invariant.{evaluate-Sound}
use synthwatch.SideEffects.{
  Signals, Effects, RunSideEffectContext, enqueue_confirmation_run, should_confirm_by_rerun,
  supersede_row, supersede, classify_row, classify_and_persist_transient, judge,
  settle_confirmation, after_sandbox, apply_run_side_effects,
}

-- A row of a kind that does not depend on what supersedes it is still there.
module _ (p : Run → Bool)
    (stable : (original by : ℕ) (r : Run) → p (supersede_row original by r) ≡ p r) where
  abbrev KeepsRows : Effects → Effects → Type 0
  KeepsRows s s' = any p s.world.runs ≡ true → any p s'.world.runs ≡ true

  if-KeepsRows :
      (b : Bool) (s t u : Effects)
      → KeepsRows s t
      → KeepsRows s u
      → KeepsRows s (if b then t else u)
  if-KeepsRows true s t u h k = h
  if-KeepsRows false s t u h k = k

  any-supersede :
      (original by : ℕ) (runs : List Run) → any p (supersede original by runs) ≡ any p runs
  unfolding supersede
  any-supersede original by [] = refl
  any-supersede original by (r ∷ runs) =
      ground (arith, stable original by r, any-supersede original by runs)

  module _ (signals : ℕ → Signals) (env : Transport) (send : Send) (rca : Option String)
      (target : Option ℕ) (state : BurnState) where
    judge-KeepsRows :
        (check : Check) (run : Run) (s : Effects)
        → KeepsRows s (judge signals env send rca target state check run s)
    unfolding judge
    judge-KeepsRows check run s h =
        ap (any p) (
          maybe_burn_alert-runs env send check target state _
          ∙ (evaluate-Sound env send check run rca s.world).runs)
        ∙ h

    classify-KeepsRows :
        (check_id : ℕ) (o : Option Run) (s : Effects)
        → KeepsRows s (classify_row signals check_id s o)
    unfolding classify_row
    classify-KeepsRows check_id none s h = h
    classify-KeepsRows check_id (some r) s h = h

    settle-KeepsRows :
        (check : Check) (run : Run) (original : ℕ) (s : Effects)
        → KeepsRows s (settle_confirmation signals env send rca target state check run original s)
    unfolding settle_confirmation classify_and_persist_transient
    settle-KeepsRows check run original s =
        if-KeepsRows (is_up run.status) s _ s
          (λ h. classify-KeepsRows check.id _ _ (any-supersede original run.id s.world.runs ∙ h))
          (λ h. h)

    after_sandbox-KeepsRows :
        (check : Check) (run : Run) (failing : Bool) (o : Option ℕ) (s : Effects)
        → KeepsRows s (after_sandbox signals env send rca target state check run failing o s)
    unfolding after_sandbox enqueue_confirmation_run
    after_sandbox-KeepsRows check run failing (some original) s h =
        judge-KeepsRows check run
          (settle_confirmation signals env send rca target state check run original s)
          (settle-KeepsRows check run original s h)
    after_sandbox-KeepsRows check run failing none s h =
        if-KeepsRows (should_confirm_by_rerun check run.status failing) s _ _ (λ k. k)
          (judge-KeepsRows check run s) h

    pub apply_run_side_effects-KeepsRows :
        (check : Check) (run : Run) (ctx : RunSideEffectContext) (s : Effects)
        → KeepsRows s (apply_run_side_effects signals env send rca target state check run ctx s)
    unfolding apply_run_side_effects
    apply_run_side_effects-KeepsRows check run ctx s =
        if-KeepsRows ctx.sandbox s s _ (λ h. h)
          (after_sandbox-KeepsRows check run ctx.already_failing ctx.confirmation_of_run_id s)
