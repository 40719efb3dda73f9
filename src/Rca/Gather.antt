-- ===== src/Rca/Gather.antt =====
-- `gatherFacts` of runner/rca.ts, and `runRca` on what it reads: the row of the run, the steps and the history.
-- The model is a function of what it is sent, the facts and the screenshots.
use synthwatch.Prelude.{ℕ, Option, none, some, Bool, List, []}
use synthwatch.Text.{Text}
use synthwatch.Types.{Kind}
use synthwatch.Rca.Facts.{
  ConsoleMessage, StepFact, RcaFacts, first_party_console_of, third_party_count_of, net_failed_of,
}
use synthwatch.Rca.{RcaRow, RcaInput, RcaRun, Gathered, ModelAnswer, context_downloads, run_rca}

-- The members of `TraceSignals` that are read; a failed request is its URL.
pub record TraceSignals : Type 0 where
  pub messages : List ConsoleMessage
  pub failed : List Text

-- The columns of the run that are read.
pub record FailedRun : Type 0 where
  pub http_status : Option ℕ
  pub duration_ms : Option ℕ
  pub screenshot_url : Option Text
  pub trace_signals : Option TraceSignals

-- `ts?.console?.messages ?? []`
abbrev pub messages_of : Option TraceSignals → List ConsoleMessage
messages_of none = []
messages_of (some ts) = ts.messages

abbrev pub failed_of : Option TraceSignals → List Text
failed_of none = []
failed_of (some ts) = ts.failed

-- `gatherFacts`, for a row that is there.
unfoldable pub gather_facts :
    (Text → Text) → Kind → RcaInput → FailedRun → List StepFact → List Text → Gathered
unfolding first_party_console_of third_party_count_of net_failed_of
gather_facts host_of_url kind input run steps recent = record {
  facts = record {
    kind = kind;
    http_status = run.http_status;
    duration_ms = run.duration_ms;
    failed_step = input.failed_step;
    error_message = input.error_message;
    steps = steps;
    recent = recent;
    first_party_console = first_party_console_of (messages_of run.trace_signals) input.sensitive;
    third_party_console_error_count = third_party_count_of (messages_of run.trace_signals);
    net_failed = net_failed_of host_of_url (failed_of run.trace_signals);
  };
  screenshot_url = run.screenshot_url;
}

-- `runRca`, with the reads of `gatherContext` and the call of the model.
unfoldable pub run_rca_on :
    List Text
    → (RcaFacts → List Text → Option (Option ModelAnswer))
    → Bool
    → List RcaRow
    → ℕ
    → RcaInput
    → Gathered
    → RcaRun
unfolding context_downloads run_rca
run_rca_on infra_sentences model enabled rows since input g =
    run_rca infra_sentences enabled rows since input (some g)
      (model g.facts (context_downloads input g))
