-- ===== src/Multistep/Rows.antt =====
-- The rows of `run_steps` that a chain of runner/multistep.ts leaves, and its result.
use synthwatch.Prelude.{ℕ, suc, none, some, List, [], ◌∷◌, ◌≡◌, ◌≢◌, ◌⊎◌, inl, inr, refl}
use synthwatch.JsonPath.{JsValues}
use synthwatch.Multistep.Request.{ChainStep, StepError}
use synthwatch.Multistep.Outcome.{run_step_lem}
use synthwatch.Multistep.Chain.{
  passed, Surroundings, ChainCheck, ChainState, StepRow, MultistepResult, Trail,
}
use synthwatch.Multistep.{
  stop, pass_step, name_of, redact, run_steps, run_chain, run_multistep_chain,
}

module _ (js : JsValues) (world : Surroundings js) (run_id : ℕ) (check : ChainCheck js)
    (start : ℕ) where
  -- The row is that of step `i`.
  abbrev pub Labels : ℕ → ChainStep js → StepRow js → Type 0
  Labels i step row =
      (row.run_id ≡ run_id)
      × (row.step_index ≡ i)
      × (row.name ≡ name_of js world run_id check start i step.name)

  -- The row of the step that stops the chain, and the result of the chain.
  abbrev pub Stops : StepRow js → MultistepResult js → Type 0
  Stops row r =
      (e : StepError js) × (row.status ≢ passed)
      × (r.verdict ≡ row.status)
      × (r.failed_step ≡ some row.name)
      × (r.error ≡ some e)
      × (row.error_message ≡ some (redact js world run_id check start (world.message e)))

  -- The rows of the steps from `i` on: each passes, up to the end of the chain or to one that stops it.
  abbrev pub Records : ℕ → List (ChainStep js) → List (StepRow js) → MultistepResult js → Type 0
  Records i [] [] r = (r.verdict ≡ passed) × (r.failed_step ≡ none) × (r.error ≡ none)
  Records i [] (row ∷ rows) r = ⊥
  Records i (step ∷ steps) [] r = ⊥
  Records i (step ∷ steps) (row ∷ rows) r =
      Labels i step row
      × (((row.status ≡ passed) × (row.error_message ≡ none) × Records (suc i) steps rows r)
          ⊎ ((rows ≡ []) × Stops row r))

  abbrev RecordsTrail : ℕ → List (ChainStep js) → Trail js → Type 0
  RecordsTrail i steps t = Records i steps t.rows t.result

  run_steps-Records :
      (i : ℕ) (steps : List (ChainStep js)) (s : ChainState js)
      → RecordsTrail i steps (run_steps js world run_id check start i steps s)
  unfolding run_steps pass_step stop
  run_steps-Records i [] s = (refl, refl, refl)
  run_steps-Records i (step ∷ steps) s =
      elim (run_step_lem js world run_id check start i step s
        (run_steps js world run_id check start (suc i) steps)) [
          | inl p ↦
              rw p.same
                ((refl, refl, refl), inl (refl, refl, run_steps-Records (suc i) steps p.state))
          | inr p ↦
              rw p.same
                ((refl, refl, refl), inr (refl, (p.error, p.not_passed, refl, refl, refl, refl)))
        ]

-- The rows tell the run: for a chain with steps, whatever the network answers and whatever throws, the rows
-- are of the steps from the first on, in order and each under its own name; every row but the last is a
-- pass with no message. Either every step has a row that passes and the verdict is a pass with no error,
-- or the last row is of the step that stopped the chain: it has the verdict of the chain, which is no pass,
-- the failed step is its name, and its message is that of the chain's error, after redaction if the check
-- is sensitive.
pub run_multistep_chain-Records :
    (js : JsValues) (world : Surroundings js) (run_id : ℕ) (check : ChainCheck js) (start : ℕ)
    → check.steps ≢ []
    → Records js world run_id check start 0 check.steps
        (run_multistep_chain js world run_id check start).rows
        (run_multistep_chain js world run_id check start).result
unfolding run_multistep_chain run_chain
run_multistep_chain-Records js world run_id check start h = chain check.steps h
  where
    chain :
        (steps : List (ChainStep js))
        → steps ≢ []
        → RecordsTrail js world run_id check start 0 steps
            (run_chain js world run_id check start steps)
    chain [] k = absurd (k refl)
    chain (step ∷ steps) k = run_steps-Records js world run_id check start 0 (step ∷ steps) _
