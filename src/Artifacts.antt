-- ===== src/Artifacts.antt =====
-- The artifacts of a run: the plans of runner/redact.ts, and the uploads of `runOneInner` of
-- runner/index.ts that follow them. Blob storage and the builder of the redacted zip are arguments.
pub mod Sensitive
use synthwatch.Prelude.{
  ℕ, String, Option, none, Bool, true, false, ◌&&◌, List, [], ◌∷◌, ◌++◌, if◌then◌else◌,
}
use synthwatch.Types.{Status, pass, is_down, is_up}

-- `FailureTraceMode`
pub data FailureTraceMode : Type 0 where
  raw redacted no_trace : FailureTraceMode

-- `TracePersistPlan`
pub record TracePersistPlan : Type 0 where
  pub failure_trace_mode : FailureTraceMode
  pub success_baseline : Bool
  pub failure_screenshot : Bool
  pub baseline_screenshot : Bool

abbrev pub is_pass : Status → Bool
is_pass pass = true
is_pass _ = false

-- `tracePersistPlan`
pub trace_persist_plan : Bool → Status → TracePersistPlan
trace_persist_plan true status = record {
  failure_trace_mode = redacted;
  success_baseline = false;
  failure_screenshot = false;
  baseline_screenshot = false;
}
trace_persist_plan false status = record {
  failure_trace_mode = if is_down status then raw else no_trace;
  success_baseline = is_up status;
  failure_screenshot = is_down status;
  baseline_screenshot = is_pass status;
}

-- `previewPersistPlan`
pub preview_persist_plan : Bool → TracePersistPlan
preview_persist_plan sensitive = record {
  failure_trace_mode = if sensitive then redacted else raw;
  success_baseline = false;
  failure_screenshot = true;
  baseline_screenshot = false;
}

-- What is uploaded, with the id of its run or of its check.
pub data Blob : Type 0 where
  run_screenshot raw_trace redacted_trace success_trace check_baseline : ℕ → Blob

-- The uploads of a run, in order, and the columns that are written from them.
pub record Stored : Type 0 where
  pub blobs : List Blob
  pub screenshot_url : Option String
  pub trace_url : Option String
  pub success_trace_url : Option String
  pub baseline_screenshot_url : Option String

-- What a run has in hand: a screenshot, a trace, and a screenshot for the baseline.
pub record InHand : Type 0 where
  pub screenshot : Bool
  pub trace : Bool
  pub baseline : Bool

module _ (upload : Blob → Option String) (run_id check_id : ℕ) where
  pub store_blob : Blob → Bool → List Blob × Option String
  store_blob b true = (b ∷ [], upload b)
  store_blob b false = ([], none)

  -- The trace by its mode; `built` is the result of `buildRedactedTraceZip`.
  pub store_trace : FailureTraceMode → Bool → Bool → List Blob × Option String
  unfolding store_blob
  store_trace raw in_hand built = store_blob (raw_trace run_id) in_hand
  store_trace redacted in_hand built = store_blob (redacted_trace run_id) (in_hand && built)
  store_trace no_trace in_hand built = ([], none)

  -- The last branch for a trace, which is taken in neither of the other modes.
  pub store_success : TracePersistPlan → Bool → List Blob × Option String
  unfolding store_blob
  store_success plan in_hand = elim plan.failure_trace_mode [
    | raw ↦ ([], none)
    | redacted ↦ ([], none)
    | no_trace ↦ store_blob (success_trace check_id) (plan.success_baseline && in_hand)
  ]

  -- The uploads of `runOneInner`, for a plan.
  pub store_artifacts : TracePersistPlan → InHand → Bool → Stored
  unfolding store_blob store_trace store_success
  store_artifacts plan hand built =
      let shot = store_blob (run_screenshot run_id) (plan.failure_screenshot && hand.screenshot) in
      let trace = store_trace plan.failure_trace_mode hand.trace built in
      let success = store_success plan hand.trace in
      let base = store_blob (check_baseline check_id) (plan.baseline_screenshot && hand.baseline) in
      record {
        blobs = shot.0 ++ (trace.0 ++ (success.0 ++ base.0));
        screenshot_url = shot.1;
        trace_url = trace.1;
        success_trace_url = success.1;
        baseline_screenshot_url = base.1;
      }
