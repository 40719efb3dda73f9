-- ===== src/Multistep/Outcome.antt =====
-- What one step of a chain of runner/multistep.ts comes to: it passes, or it stops the chain.
use synthwatch.Prelude.{
  ℕ, ◌+◌, ◌-◌, ◌<◌, min, Option, none, some, List, [], ◌∷◌, ◌≡◌, ◌≢◌, ◌⊎◌, inl, inr, refl, sym, ap,
  leb, arith, Bool-cases,
}
use synthwatch.Text.{Text}
use synthwatch.JsonPath.{JsValues}
use synthwatch.Assertions.{AssertionOutcome}
use synthwatch.Multistep.Cookies.{StoredCookie, store_cookies}
use synthwatch.Multistep.Request.{
  ChainStep, ChainRequest, StepError, Built, build_request, built, refused, budget_exhausted,
}
use synthwatch.Multistep.Chain.{
  ChainVerdict, passed, failed, errored, Surroundings, ChainCheck, ChainState, Exchange, Trail,
  Answer, Extracted, extracted, not_extracted, answered, aborted, threw, max_chain_ms,
  response_host,
}
use synthwatch.Multistep.{
  stop, pass_step, name_of, after_extract, after_assertions, after_send, after_build, run_step,
}

module _ (js : JsValues) (world : Surroundings js) (run_id : ℕ) (check : ChainCheck js) (start : ℕ)
    (i : ℕ) (step : ChainStep js) (s : ChainState js) where
  open world use {web, inherited, parse_url, send}

  -- The timeout of a request that is sent now.
  abbrev pub step_timeout : ℕ
  step_timeout = min check.timeout_ms (start + max_chain_ms - s.now)

  -- The jar after the exchange, by the host that has answered.
  abbrev pub Jar : Option Text → List StoredCookie → Type 0
  Jar none jar = jar ≡ s.cookies
  Jar (some host) jar =
      (set_cookies : List Text) × (jar ≡ store_cookies web.lower host set_cookies s.cookies)

  -- A request was sent, within the budget.
  pub record Sent (s' : ChainState js) (sent : List (Exchange js)) : Type 0 where
    pub request : ChainRequest js
    pub host : Option Text
    pub was_built : build_request js web inherited parse_url s.vars s.cookies step ≡ built request
    pub in_budget : s.now < start + max_chain_ms
    pub later : s'.now ≡ s.now + (send i request step_timeout).1
    pub jar : Jar host s'.cookies
    pub one : sent ≡ record { request = request; response_host = host } ∷ []

  -- The state and the requests after the step.
  abbrev pub Progress : ChainState js → List (Exchange js) → Type 0
  Progress s' sent = ((sent ≡ []) × (s'.cookies ≡ s.cookies) × (s'.now ≡ s.now)) ⊎ Sent s' sent

  pub record Passed (next : ChainState js → Trail js) (trail : Trail js) : Type 0 where
    pub state : ChainState js
    pub sent : List (Exchange js)
    pub progress : Progress state sent
    pub same :
        trail
        ≡ pass_step js world run_id check start i
            (name_of js world run_id check start i step.name)
            s.now
            state
            sent
            (next state)

  pub record Stopped (trail : Trail js) : Type 0 where
    pub state : ChainState js
    pub sent : List (Exchange js)
    pub verdict : ChainVerdict
    pub error : StepError js
    pub progress : Progress state sent
    pub not_passed : verdict ≢ passed
    pub same :
        trail
        ≡ stop js world run_id check start i
            (name_of js world run_id check start i step.name)
            s.now
            state
            sent
            verdict
            error

  abbrev pub Outcome : (ChainState js → Trail js) → Trail js → Type 0
  Outcome next trail = Passed next trail ⊎ Stopped trail

  module _ (next : ChainState js → Trail js) where
    abbrev name : Text
    name = name_of js world run_id check start i step.name

    stopped :
        (s' : ChainState js) (sent : List (Exchange js)) (v : ChainVerdict) (e : StepError js)
        → Progress s' sent
        → v ≢ passed
        → Outcome next (stop js world run_id check start i name s.now s' sent v e)
    stopped s' sent v e p h = inr (record {
      state = s';
      sent = sent;
      verdict = v;
      error = e;
      progress = p;
      not_passed = h;
      same = refl;
    })

    errored-passed : errored ≢ passed
    errored-passed e = cc

    failed-passed : failed ≢ passed
    failed-passed e = cc

    after_extract_lem :
        (s' : ChainState js) (sent : List (Exchange js)) (x : Extracted js)
        → ((vars : _) → Progress (record s' { vars = vars }) sent)
        → Progress s' sent
        → Outcome next (after_extract js world run_id check start i name s.now s' sent x next)
    unfolding after_extract
    after_extract_lem s' sent (not_extracted e) p q = stopped s' sent errored e q errored-passed
    after_extract_lem s' sent (extracted vars) p q =
        inl (record {
          state = record s' { vars = vars };
          sent = sent;
          progress = p vars;
          same = refl;
        })

    after_assertions_lem :
        (s' : ChainState js) (sent : List (Exchange js)) (text : Text) (o : AssertionOutcome js)
        → ((vars : _) → Progress (record s' { vars = vars }) sent)
        → Outcome next
            (after_assertions js world run_id check start i name s.now s' sent step text o next)
    unfolding after_assertions
    after_assertions_lem s' sent text o p = elim (Bool-cases o.ok) [
      | inl e ↦ rw e (after_extract_lem s' sent _ p (p s'.vars))
      | inr e ↦ rw e (stopped s' sent failed _ (p s'.vars) failed-passed)
    ]

    module _ (request : ChainRequest js)
        (b : build_request js web inherited parse_url s.vars s.cookies step ≡ built request)
        (h : s.now < start + max_chain_ms) where
      exchanged :
          (s' : ChainState js) (host : Option Text)
          → s'.now ≡ s.now + (send i request step_timeout).1
          → Jar host s'.cookies
          → Progress s' (record { request = request; response_host = host } ∷ [])
      exchanged s' host later jar = inr (record {
        request = request;
        host = host;
        was_built = b;
        in_budget = h;
        later = later;
        jar = jar;
        one = refl;
      })

      now_after :
          {o : Answer js × ℕ}
          → send i request step_timeout ≡ o
          → s.now + o.1 ≡ s.now + (send i request step_timeout).1
      now_after e = ap (λ (x : Answer js × ℕ). s.now + x.1) (sym e)

      after_send_lem :
          (o : Answer js × ℕ)
          → send i request step_timeout ≡ o
          → Outcome next
              (after_send js world run_id check start i name s step request step_timeout o next)
      unfolding after_send
      after_send_lem (threw, t) e =
          stopped (record s { now = s.now + t })
            (record { request = request; response_host = none } ∷ []) errored _
            (exchanged (record s { now = s.now + t }) none (now_after e) refl) errored-passed
      after_send_lem (aborted, t) e =
          stopped (record s { now = s.now + t })
            (record { request = request; response_host = none } ∷ []) errored _
            (exchanged (record s { now = s.now + t }) none (now_after e) refl) errored-passed
      after_send_lem (answered r, t) e =
          let host = response_host js parse_url request r in
          let s' : ChainState js = record s {
            now = s.now + t;
            cookies = store_cookies web.lower host r.set_cookies s.cookies;
          } in
          after_assertions_lem s' (record { request = request; response_host = some host } ∷ [])
            r.text _
            (λ vars.
              exchanged (record s' { vars = vars }) (some host) (now_after e) (r.set_cookies, refl))

    after_build_lem :
        (b : Built js)
        → build_request js web inherited parse_url s.vars s.cookies step ≡ b
        → Outcome next (after_build js world run_id check start i name s step b next)
    unfolding after_build
    after_build_lem (refused e) _ = stopped s [] errored e (inl (refl, refl, refl)) errored-passed
    after_build_lem (built request) e = elim (Bool-cases (leb (start + max_chain_ms) s.now)) [
      | inl late ↦
          rw late (stopped s [] errored budget_exhausted (inl (refl, refl, refl)) errored-passed)
      | inr soon ↦
          rw soon (after_send_lem request e (ground arith) (send i request step_timeout) refl)
    ]

  -- A step passes, and the chain goes on from what it has left, or it stops the chain and does not pass.
  pub run_step_lem :
      (next : ChainState js → Trail js)
      → Outcome next (run_step js world run_id check start i step s next)
  unfolding run_step
  run_step_lem next = after_build_lem next _ refl
