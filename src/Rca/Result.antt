-- ===== src/Rca/Result.antt =====
-- The results of runner/rca.ts that no model gives: the facts alone, and the runner's own failure.
use synthwatch.Prelude.{
  ℕ, Option, none, some, Bool, true, false, ◌&&◌, ◌||◌, List, [], ◌∷◌, ◌++◌, if◌then◌else◌, leb,
  not, map, any, is_some,
}
use synthwatch.SpecPath.{codes}
use synthwatch.Text.{Text}
use synthwatch.Types.{Kind}
use synthwatch.Rca.Facts.{ConsoleFact, step_pass, StepFact, RcaFacts, is_given, is_cons, only_if}

-- CLASSIFICATIONS and CONFIDENCES
pub data Classification : Type 0 where
  real_outage flaky_transient selector_drift environment_regional perf_regression
        infra_deterministic :
      Classification

pub data Confidence : Type 0 where
  high medium low : Confidence

abbrev is_down_step : StepFact → Bool
is_down_step s = elim s.status [ step_pass ↦ false | _ ↦ true ]

abbrev is_passed_step : StepFact → Bool
is_passed_step s = elim s.status [ step_pass ↦ true | _ ↦ false ]

abbrev is_stepped : Kind → Bool
is_stepped Kind.browser = true
is_stepped Kind.multistep = true
is_stepped _ = false

-- `evidenceThin`
unfoldable pub evidence_thin : RcaFacts → Bool
evidence_thin f = not (
    any is_down_step f.steps
    || (is_cons f.first_party_console
        || (is_cons f.net_failed
            || (is_some f.http_status || is_some f.error_message && not (is_stepped f.kind)))))

-- What a result observes: a sentence of the model, or a fact with its token.
pub data Observation : Type 0 where
  said : Text → Observation
  fact : Text → Observation

pub record RcaResult : Type 0 where
  pub classification : Classification
  pub confidence : Confidence
  pub observed : List Observation
  pub inferred : List Text
  pub signature : Text
  pub from_model : Bool
  pub cached : Bool

abbrev or_question_mark : Text → Text
or_question_mark [] = b'?' ∷ []
or_question_mark (c ∷ cs) = c ∷ cs

first_console : List ConsoleFact → List Text
first_console [] = []
first_console (f ∷ _) = (codes "console:" ++ or_question_mark f.source_host) ∷ []

first_network : List Text → List Text
first_network [] = []
first_network (h ∷ _) = (codes "network:" ++ h) ∷ []

-- The tokens of the sentences of `deterministicResult`, in order.
unfoldable pub fact_tokens : RcaFacts → List Text
unfolding first_console first_network
fact_tokens f =
    only_if (is_given f.failed_step) (codes "failed_step")
    ++ (only_if (any is_passed_step f.steps) (codes "run_steps")
        ++ (only_if (is_given f.error_message) (codes "error_message")
            ++ (only_if (is_some f.http_status) (codes "http_status")
                ++ (first_console f.first_party_console ++ first_network f.net_failed))))

abbrev is_server_error : Option ℕ → Bool
is_server_error none = false
is_server_error (some n) = leb 500 n

-- `deterministicResult`, but for its summary.
unfoldable pub deterministic_result : RcaFacts → Text → RcaResult
unfolding fact_tokens
deterministic_result f signature = record {
  classification = if is_server_error f.http_status then real_outage else flaky_transient;
  confidence = low;
  observed = map fact (fact_tokens f);
  inferred = [];
  signature = signature;
  from_model = false;
  cached = false;
}

-- `infraDeterministicResult`, with its two fixed sentences.
unfoldable pub infra_deterministic_result : Option Text → List Text → Text → RcaResult
infra_deterministic_result error_message sentences signature = record {
  classification = infra_deterministic;
  confidence = high;
  observed = map fact (only_if (is_given error_message) (codes "error_message"));
  inferred = sentences;
  signature = signature;
  from_model = false;
  cached = false;
}
