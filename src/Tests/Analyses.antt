-- ===== src/Tests/Analyses.antt =====
-- The theorems on runner/rca.ts and runner/narrative.ts at a failed login and at one repeated failure.
use mathlib.Core.List.Memᴰ
use synthwatch.Prelude.{
  List, map, Option, none, some, true, [], ◌∷◌, ◌++◌, ◌≡◌, refl, arith, if◌then◌else◌, leb, length,
}
use synthwatch.SpecPath.{codes}
use synthwatch.Text.{Text, is_digit}
use synthwatch.Types.{browser}
use synthwatch.Rca.Result.{selector_drift, high}
use synthwatch.Rca.Facts.{step_pass, step_fail, StepFact, ConsoleMessage, ConsoleFact, RcaFacts}
use synthwatch.Rca.{RcaInput, Gathered, ModelAnswer, run_rca}
use synthwatch.Rca.Failure.{signature_of, normalize_signature_text}
use synthwatch.Rca.Signature.{normalize_signature_text_number}
use synthwatch.Rca.Grounded.{Rests, IfGiven, run_rca-Rests}
use synthwatch.Rca.Gather.{FailedRun, gather_facts, run_rca_on}
use synthwatch.Rca.Privacy.{disguise, run_rca_on_sensitive}
use synthwatch.Narrative.{Narrative, FallbackTexts, DefectCandidate, RepeatGroup}

abbrev message : ConsoleMessage
message = record {
  is_site = true;
  is_error_class = true;
  source_host = codes "shop.example.com";
  text = codes "no token for ann";
}

abbrev facts : RcaFacts
facts = record {
  kind = browser;
  http_status = none;
  duration_ms = some 900;
  failed_step = some (codes "login");
  error_message = some (codes "Timed out after 30s");
  steps =
      record { name = codes "open"; status = step_pass }
      ∷ (record { name = codes "login"; status = step_fail } ∷ []);
  recent = [];
  first_party_console = [];
  third_party_console_error_count = 0;
  net_failed = [];
}

abbrev input : RcaInput
input = record {
  check_id = 7;
  check_id_text = codes "7";
  sensitive = true;
  baseline_screenshot_url = some (codes "baseline.png");
  error_message = some (codes "Timed out after 30s");
  failed_step = some (codes "login");
}

abbrev gathered : Option Gathered
gathered = some (record { facts = facts; screenshot_url = some (codes "failure.png") })

abbrev answer : ModelAnswer
answer = record {
  classification = some selector_drift;
  confidence = some high;
  observed = codes "The step failed [cite: step:login]" ∷ [];
  inferred = codes "The button was renamed" ∷ [];
}

run_rca-Rests_example :
    IfGiven
      (Rests [] input
        (signature_of input.check_id_text input.error_message input.failed_step)
        gathered
        (some (some answer)))
      (run_rca [] true [] 0 input gathered (some (some answer))).result
run_rca-Rests_example = run_rca-Rests [] true [] 0 input gathered (some (some answer))

abbrev failed_run : FailedRun
failed_run = record {
  http_status = none;
  duration_ms = some 900;
  screenshot_url = some (codes "failure.png");
  trace_signals = some (record { messages = message ∷ []; failed = [] });
}

abbrev steps : List StepFact
steps = record { name = codes "login"; status = step_fail } ∷ []

-- The model says what it was sent.
abbrev echo : RcaFacts → List Text → Option (Option ModelAnswer)
echo facts urls = some (
    some (record answer {
      inferred = urls ++ map (λ (x : ConsoleFact). x.text) facts.first_party_console;
    }))

run_rca_on_sensitive_example :
    run_rca_on [] echo true [] 0
      (record input { baseline_screenshot_url = none })
      (gather_facts
        (λ url. url)
        browser
        (record input { baseline_screenshot_url = none })
        (disguise (λ m. codes "no token for bob") (some (codes "other.png")) failed_run)
        steps
        [])
    ≡ run_rca_on [] echo true [] 0 input
        (gather_facts (λ url. url) browser input failed_run steps [])
run_rca_on_sensitive_example =
    run_rca_on_sensitive (λ url. url) [] echo true [] 0 browser input failed_run steps []
      (λ m. codes "no token for bob") (some (codes "other.png")) none refl

normalize_signature_text_number_example :
    normalize_signature_text (codes "after" ++ b' ' ∷ (codes "30" ++ b's' ∷ codes " on 404"))
    ≡ normalize_signature_text (codes "after")
      ++ b' '
        ∷ ((if leb (length (codes "30")) 2 then b'#' ∷ [] else codes "30")
            ++ b's' ∷ normalize_signature_text (codes " on 404"))
unfolding is_digit
normalize_signature_text_number_example =
    normalize_signature_text_number (codes "after") (codes "30") (codes " on 404") b' ' b's' refl
      refl refl (omega arith)

abbrev group : RepeatGroup
group = record { step = some (codes "login"); line = codes "login failed 9 times" }

abbrev candidate : DefectCandidate
candidate = record { step = codes "cart"; fails = 10; signatures = 1; window_runs = 100 }

abbrev texts : FallbackTexts
texts = record {
  headline = codes "A day";
  body = codes "All is well.";
  figures = codes "100 runs" ∷ [];
  divergence = none;
}

abbrev told : Narrative
told = record { headline = codes "Quiet"; body = codes "The login failed."; highlights = [] }
