-- ===== src/Multistep.antt =====
-- `runMultistepChain` of runner/multistep.ts. The network is a function of the step, the request and the
-- timeout; time passes only while a request is under way. A run returns what it has recorded and sent.
pub mod Template
pub mod Cookies
pub mod Request
pub mod Chain
pub mod Outcome
pub mod Rows
pub mod Scope
pub mod Carried
pub mod Budget
use synthwatch.Prelude.{ℕ, suc, ◌+◌, ◌-◌, min, none, some, List, [], ◌∷◌, ◌++◌, if◌then◌else◌, leb}
use synthwatch.SpecPath.{codes}
use synthwatch.Text.{Text}
use synthwatch.JsonPath.{JsValues}
use synthwatch.Assertions.{AssertionOutcome, evaluate_assertions}
use Cookies.{store_cookies}
use Request.{
  ChainStep, StepError, ChainRequest, Built, build_request, built, refused, budget_exhausted,
  send_failed, timed_out, assertions_failed, no_steps,
}
use Chain.{
  max_chain_ms, ChainVerdict, passed, failed, errored, Answer, answered, aborted, threw,
  Surroundings, Exchange, Trail, ChainState, ChainCheck, Extracted, extracted, not_extracted,
  extract_vars, facets_of, response_host,
}

-- The loop, for a run and a check.
module _ (js : JsValues) (world : Surroundings js) (run_id : ℕ) (check : ChainCheck js)
    (start : ℕ) where
  open world use {web, inherited, parse_url, send, message, decimal, redactor}

  -- `redact`
  unfoldable pub redact : Text → Text
  redact t = if check.sensitive then redactor t else t

  -- step.name || `step ${i + 1}`
  unfoldable pub name_of : ℕ → Text → Text
  name_of i [] = codes "step " ++ decimal (suc i)
  name_of i (c ∷ cs) = c ∷ cs

  -- `stop`
  unfoldable pub stop :
      ℕ → Text → ℕ → ChainState js → List (Exchange js) → ChainVerdict → StepError js → Trail js
  unfolding redact
  stop i name step_start s sent verdict e = record {
    rows =
        record {
          run_id = run_id;
          step_index = i;
          name = name;
          status = verdict;
          duration_ms = s.now - step_start;
          error_message = some (redact (message e));
        }
        ∷ [];
    sent = sent;
    result = record {
      verdict = verdict;
      duration_ms = s.now - start;
      failed_step = some name;
      error = some e;
    };
  }

  -- A step that passed, and then the rest of the chain.
  unfoldable pub pass_step : ℕ → Text → ℕ → ChainState js → List (Exchange js) → Trail js → Trail js
  pass_step i name step_start s sent rest = record {
    rows =
        record {
          run_id = run_id;
          step_index = i;
          name = name;
          status = passed;
          duration_ms = s.now - step_start;
          error_message = none;
        }
        ∷ rest.rows;
    sent = sent ++ rest.sent;
    result = rest.result;
  }

  -- After the assertions: the variables, and `next` from them.
  unfoldable pub after_extract :
      ℕ
      → Text
      → ℕ
      → ChainState js
      → List (Exchange js)
      → Extracted js
      → (ChainState js → Trail js)
      → Trail js
  unfolding stop pass_step
  after_extract i name t s sent (not_extracted e) next = stop i name t s sent errored e
  after_extract i name t s sent (extracted vars) next =
      let s' = record s { vars = vars } in pass_step i name t s' sent (next s')

  unfoldable pub after_assertions :
      ℕ
      → Text
      → ℕ
      → ChainState js
      → List (Exchange js)
      → ChainStep js
      → Text
      → AssertionOutcome js
      → (ChainState js → Trail js)
      → Trail js
  unfolding stop after_extract
  after_assertions i name t s sent step text outcome next =
      if outcome.ok
      then after_extract i name t s sent (extract_vars js text step.extract s.vars) next
      else stop i name t s sent failed (assertions_failed outcome.failures)

  -- After `fetch`, with the time that has passed.
  unfoldable pub after_send :
      ℕ
      → Text
      → ChainState js
      → ChainStep js
      → ChainRequest js
      → ℕ
      → Answer js × ℕ
      → (ChainState js → Trail js)
      → Trail js
  unfolding stop after_assertions
  after_send i name s step request timeout (threw, elapsed) next =
      stop i name s.now (record s { now = s.now + elapsed })
        (record { request = request; response_host = none } ∷ []) errored send_failed
  after_send i name s step request timeout (aborted, elapsed) next =
      stop i name s.now (record s { now = s.now + elapsed })
        (record { request = request; response_host = none } ∷ []) errored (timed_out timeout)
  after_send i name s step request timeout (answered r, elapsed) next =
      let host = response_host js parse_url request r in
      after_assertions i name s.now
        (record s {
          now = s.now + elapsed;
          cookies = store_cookies web.lower host r.set_cookies s.cookies;
        })
        (record { request = request; response_host = some host } ∷ []) step r.text
        (evaluate_assertions js step.assertions (facets_of js r)) next

  -- The send, within what is left of the budget of the chain.
  unfoldable pub after_build :
      ℕ → Text → ChainState js → ChainStep js → Built js → (ChainState js → Trail js) → Trail js
  unfolding stop after_send
  after_build i name s step (refused e) next = stop i name s.now s [] errored e
  after_build i name s step (built request) next =
      if leb (start + max_chain_ms) s.now
      then stop i name s.now s [] errored budget_exhausted
      else let timeout = min check.timeout_ms (start + max_chain_ms - s.now) in
        after_send i name s step request timeout (send i request timeout) next

  -- One step, and `next` from the state after it.
  unfoldable pub run_step : ℕ → ChainStep js → ChainState js → (ChainState js → Trail js) → Trail js
  unfolding after_build name_of
  run_step i step s next =
      after_build i (name_of i step.name) s step
        (build_request js web inherited parse_url s.vars s.cookies step) next

  unfoldable pub run_steps : ℕ → List (ChainStep js) → ChainState js → Trail js
  run_steps i [] s = record {
    rows = [];
    sent = [];
    result = record {
      verdict = passed;
      duration_ms = s.now - start;
      failed_step = none;
      error = none;
    };
  }
  run_steps i (step ∷ steps) s = run_step i step s (run_steps (suc i) steps)

  unfoldable pub run_chain : List (ChainStep js) → Trail js
  unfolding run_steps
  run_chain [] = record {
    rows = [];
    sent = [];
    result = record {
      verdict = errored;
      duration_ms = 0;
      failed_step = none;
      error = some no_steps;
    };
  }
  run_chain (step ∷ steps) =
      run_steps 0 (step ∷ steps) (record { vars = []; cookies = []; now = start })

  -- `runMultistepChain`
  unfoldable pub run_multistep_chain : Trail js
  unfolding run_chain
  run_multistep_chain = run_chain check.steps
