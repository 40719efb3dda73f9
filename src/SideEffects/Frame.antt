-- ===== src/SideEffects/Frame.antt =====
-- What the side effects of a run, in runner/evaluate.ts, keep of the clock and of the requests that are
-- consumed.
use synthwatch.Prelude.{
  ℕ, ◌≤◌, ◌≡◌, refl, ◌∙◌, Option, none, some, Bool, true, false, ◌&&◌, any, ltb, not, arith,
  if◌then◌else◌, String,
}
use synthwatch.Types.{Check, Run, is_up}
use synthwatch.Alerts.{Transport}
use synthwatch.World.{Send}
use synthwatch.Burn.{BurnState}
use synthwatch.Burn.Paging.{maybe_burn_alert-now}
use synthwatch.Incident.Invariant.{evaluate-Sound}
use synthwatch.SideEffects.{
  Signals, Effects, RunSideEffectContext, enqueue, enqueue_confirmation_run,
  should_confirm_by_rerun, is_pending_id, classify_row, classify_and_persist_transient, judge,
  settle_confirmation, after_sandbox, apply_run_side_effects,
}

-- Request `id` was given out and is not pending.
abbrev pub is_consumed : ℕ → Effects → Bool
is_consumed id s = not (any (is_pending_id id) s.run_requests) && ltb id s.next_request_id

-- What a run does to the clock and to the requests.
pub record Keeps (s s' : Effects) : Type 0 where
  pub now : s'.world.now ≡ s.world.now
  pub next : s.next_request_id ≤ s'.next_request_id
  pub consumed : (id : ℕ) → is_consumed id s ≡ true → is_consumed id s' ≡ true
  pub pending :
      (id : ℕ)
      → any (is_pending_id id) s.run_requests ≡ true
      → any (is_pending_id id) s'.run_requests ≡ true

pub Keeps-trans : {s t u : Effects} → Keeps s t → Keeps t u → Keeps s u
Keeps-trans h k = record {
  now = k.now ∙ h.now;
  next = omega (arith, h.next, k.next);
  consumed = λ id c. k.consumed id (h.consumed id c);
  pending = λ id c. k.pending id (h.pending id c);
}

pub Keeps-refl : (s : Effects) → Keeps s s
Keeps-refl s = record { now = refl; next = omega arith; consumed = λ id c. c; pending = λ id c. c }

if-Keeps : (b : Bool) {s t u : Effects} → Keeps s t → Keeps s u → Keeps s (if b then t else u)
if-Keeps true h k = h
if-Keeps false h k = k

enqueue-Keeps : (check : Check) (s : Effects) → Keeps s (enqueue_confirmation_run check s)
unfolding enqueue_confirmation_run enqueue
enqueue-Keeps check s = record {
  now = refl;
  next = omega arith;
  consumed = λ id c. ground arith;
  pending = λ id c. ground arith;
}

module _ (signals : ℕ → Signals) where
  classify-Keeps :
      (check_id : ℕ) (o : Option Run) (s : Effects) → Keeps s (classify_row signals check_id s o)
  unfolding classify_row
  classify-Keeps check_id none s = Keeps-refl s
  classify-Keeps check_id (some r) s = record {
    now = refl;
    next = omega arith;
    consumed = λ id c. c;
    pending = λ id c. c;
  }

  module _ (env : Transport) (send : Send) (rca : Option String) (target : Option ℕ)
      (state : BurnState) where
    judge-Keeps :
        (check : Check) (run : Run) (s : Effects)
        → Keeps s (judge signals env send rca target state check run s)
    unfolding judge
    judge-Keeps check run s = record {
      now =
          maybe_burn_alert-now env send check target state _
          ∙ (evaluate-Sound env send check run rca s.world).now;
      next = omega arith;
      consumed = λ id c. c;
      pending = λ id c. c;
    }

    settle-Keeps :
        (check : Check) (run : Run) (original : ℕ) (s : Effects)
        → Keeps s (settle_confirmation signals env send rca target state check run original s)
    unfolding settle_confirmation classify_and_persist_transient
    settle-Keeps check run original s =
        if-Keeps (is_up run.status)
          (Keeps-trans
            (record { now = refl; next = omega arith; consumed = λ id c. c; pending = λ id c. c })
            (classify-Keeps check.id _ _))
          (Keeps-refl s)

    after_sandbox-Keeps :
        (check : Check) (run : Run) (failing : Bool) (o : Option ℕ) (s : Effects)
        → Keeps s (after_sandbox signals env send rca target state check run failing o s)
    unfolding after_sandbox
    after_sandbox-Keeps check run failing (some original) s =
        Keeps-trans (settle-Keeps check run original s) (judge-Keeps check run _)
    after_sandbox-Keeps check run failing none s =
        if-Keeps (should_confirm_by_rerun check run.status failing) (enqueue-Keeps check s)
          (judge-Keeps check run s)

    -- The side effects of a run leave the clock, and leave each consumed request consumed
    -- and each pending one pending.
    pub apply_run_side_effects-Keeps :
        (check : Check) (run : Run) (ctx : RunSideEffectContext) (s : Effects)
        → Keeps s (apply_run_side_effects signals env send rca target state check run ctx s)
    unfolding apply_run_side_effects
    apply_run_side_effects-Keeps check run ctx s =
        if-Keeps ctx.sandbox (Keeps-refl s)
          (after_sandbox-Keeps check run ctx.already_failing ctx.confirmation_of_run_id s)
