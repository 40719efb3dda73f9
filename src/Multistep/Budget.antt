-- ===== src/Multistep/Budget.antt =====
-- The wall-clock ceiling of a chain of runner/multistep.ts.
use synthwatch.Prelude.{ℕ, suc, ◌+◌, ◌-◌, ◌≤◌, ◌<◌, min, List, [], ◌∷◌, ◌≡◌, inl, inr, arith}
use synthwatch.JsonPath.{JsValues}
use synthwatch.Multistep.Request.{ChainStep, ChainRequest}
use synthwatch.Multistep.Outcome.{Progress, step_timeout, run_step_lem}
use synthwatch.Multistep.Chain.{Surroundings, ChainCheck, ChainState, Exchange, Trail, max_chain_ms}
use synthwatch.Multistep.{stop, pass_step, run_steps, run_chain, run_multistep_chain}

module _ (js : JsValues) (world : Surroundings js) where
  -- The controller aborts a request at its timeout.
  abbrev pub Aborts : Type 0
  Aborts = (i : ℕ) (r : ChainRequest js) (timeout : ℕ) → (world.send i r timeout).1 ≤ timeout

module _ (js : JsValues) (world : Surroundings js) (run_id : ℕ) (check : ChainCheck js) (start : ℕ)
    (aborts : Aborts js world) where
  abbrev InBudget : ChainState js → Type 0
  InBudget s = s.now ≤ start + max_chain_ms

  Progress-InBudget :
      (i : ℕ) (step : ChainStep js) (s s' : ChainState js) (sent : List (Exchange js))
      → Progress js world run_id check start i step s s' sent
      → InBudget s
      → InBudget s'
  Progress-InBudget i step s s' sent (inl p) h = omega arith
  Progress-InBudget i step s s' sent (inr p) h =
      within p.in_budget p.later
        (aborts i p.request (step_timeout js world run_id check start i step s))
    where
      within :
          {t : ℕ}
          → s.now < start + max_chain_ms
          → s'.now ≡ s.now + t
          → t ≤ min check.timeout_ms (start + max_chain_ms - s.now)
          → InBudget s'
      within a e b = omega arith

  abbrev Bounded : Trail js → Type 0
  Bounded t = t.result.duration_ms ≤ max_chain_ms

  run_steps-Bounded :
      (i : ℕ) (steps : List (ChainStep js)) (s : ChainState js)
      → InBudget s
      → Bounded (run_steps js world run_id check start i steps s)
  unfolding run_steps pass_step stop
  run_steps-Bounded i [] s h = omega arith
  run_steps-Bounded i (step ∷ steps) s h =
      elim (run_step_lem js world run_id check start i step s
        (run_steps js world run_id check start (suc i) steps)) [
          | inl p ↦ rw p.same (
              run_steps-Bounded (suc i) steps p.state
                (Progress-InBudget i step s p.state p.sent p.progress h))
          | inr p ↦
              rw p.same (late p.state (Progress-InBudget i step s p.state p.sent p.progress h))
        ]
    where
      late : (s' : ChainState js) → InBudget s' → s'.now - start ≤ max_chain_ms
      late s' k = omega arith

-- The ceiling: where a request is aborted at the latest at its timeout, the whole chain takes at most
-- MAX_CHAIN_MS, however many steps it has, whatever the timeout of the check and whatever the answers.
pub run_multistep_chain-le :
    (js : JsValues) (world : Surroundings js) (run_id : ℕ) (check : ChainCheck js) (start : ℕ)
    → Aborts js world
    → (run_multistep_chain js world run_id check start).result.duration_ms ≤ max_chain_ms
unfolding run_multistep_chain run_chain
run_multistep_chain-le js world run_id check start aborts = chain check.steps
  where
    chain :
        (steps : List (ChainStep js))
        → (run_chain js world run_id check start steps).result.duration_ms ≤ max_chain_ms
    chain [] = omega arith
    chain (step ∷ steps) =
        run_steps-Bounded js world run_id check start aborts 0 (step ∷ steps) _ (omega arith)
