-- ===== src/Tests/Uploads.antt =====
-- The theorems on the artifacts of a run of runner/index.ts at a failed and at a passed run.
use synthwatch.Prelude.{String, Option, none, some, true, false, [], ◌≡◌}
use synthwatch.Types.{fail}
use synthwatch.Artifacts.{Blob, InHand, Stored, trace_persist_plan, store_artifacts}
use synthwatch.Artifacts.Sensitive.{store_artifacts_sensitive}

abbrev upload : Blob → Option String
upload b = some "https://blobs.example.com"

abbrev in_hand : InHand
in_hand = record { screenshot = true; trace = true; baseline = true }

abbrev failed_run : Stored
failed_run = store_artifacts upload 9 7 (trace_persist_plan true fail) in_hand false

store_artifacts_sensitive_example :
    (failed_run.blobs ≡ [])
    × (failed_run.trace_url ≡ none)
    × (failed_run.screenshot_url ≡ none)
    × (failed_run.success_trace_url ≡ none)
    × (failed_run.baseline_screenshot_url ≡ none)
store_artifacts_sensitive_example = store_artifacts_sensitive upload 9 7 fail in_hand false
