-- ===== src/Artifacts/Sensitive.antt =====
-- What the runs of runner/index.ts leave in blob storage.
use synthwatch.Prelude.{
  ℕ, String, Option, none, Bool, true, false, not, ◌&&◌, ◌||◌, [], ◌∷◌, ◌++◌, ◌≡◌, refl, any,
  if◌then◌else◌, arith,
}
use synthwatch.Types.{Status, is_up}
use synthwatch.Artifacts.{
  trace_persist_plan, Blob, redacted_trace, success_trace, check_baseline, InHand, store_blob,
  store_artifacts, is_pass,
}

abbrev pub is_redacted : Blob → Bool
is_redacted (redacted_trace id) = true
is_redacted _ = false

-- Kept under a key of the check, which is exempt from the purge.
abbrev pub is_permanent : Blob → Bool
is_permanent (success_trace id) = true
is_permanent (check_baseline id) = true
is_permanent _ = false

-- A sensitive monitor leaves nothing raw: whatever the status of its run, what the run has in hand and
-- what blob storage answers, the one upload is that of the redacted trace, where there is a trace and its
-- redacted copy could be built, and no column but that of the trace gets an address.
pub store_artifacts_sensitive :
    (upload : Blob → Option String) (run_id check_id : ℕ) (status : Status) (hand : InHand)
    (built : Bool)
    → let s = store_artifacts upload run_id check_id (trace_persist_plan true status) hand built in
      (s.blobs ≡ (if hand.trace && built then redacted_trace run_id ∷ [] else []))
      × (s.trace_url ≡ (if hand.trace && built then upload (redacted_trace run_id) else none))
      × (s.screenshot_url ≡ none)
      × (s.success_trace_url ≡ none)
      × (s.baseline_screenshot_url ≡ none)
unfolding store_artifacts trace_persist_plan
store_artifacts_sensitive upload run_id check_id status hand built =
    (one (hand.trace && built), address (hand.trace && built), refl, refl, refl)
  where
    one :
        (b : Bool)
        → (store_blob upload run_id check_id (redacted_trace run_id) b).0 ++ []
          ≡ (if b then redacted_trace run_id ∷ [] else [])
    one true = refl
    one false = refl

    address :
        (b : Bool)
        → (store_blob upload run_id check_id (redacted_trace run_id) b).1
          ≡ (if b then upload (redacted_trace run_id) else none)
    address true = refl
    address false = refl

-- What is kept for good comes of a success that is not sensitive: a run uploads to a permanent key exactly
-- if its check is not sensitive and it has either passed or warned with a trace in hand, or passed with a
-- screenshot for the baseline in hand.
pub store_artifacts_permanent :
    (upload : Blob → Option String) (run_id check_id : ℕ) (sensitive : Bool) (status : Status)
    (hand : InHand) (built : Bool)
    → any is_permanent
        (store_artifacts upload run_id check_id
          (trace_persist_plan sensitive status)
          hand
          built).blobs
      ≡ (not sensitive && (is_up status && hand.trace || is_pass status && hand.baseline))
unfolding store_artifacts trace_persist_plan
store_artifacts_permanent upload run_id check_id sensitive status hand built =
    by_cases sensitive status hand.screenshot hand.trace hand.baseline
  where
    by_cases :
        (sensitive : Bool) (status : Status) (sc tr ba : Bool)
        → any is_permanent
            (store_artifacts upload run_id check_id
              (trace_persist_plan sensitive status)
              (record { screenshot = sc; trace = tr; baseline = ba })
              built).blobs
          ≡ (not sensitive && (is_up status && tr || is_pass status && ba))
    by_cases sensitive status sc tr ba = ground arith
