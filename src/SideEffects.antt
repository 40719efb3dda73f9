-- ===== src/SideEffects.antt =====
-- runner/evaluate.ts: what a finished run does beyond its own row (`applyRunSideEffects`), with the
-- class of a transient of runner/transientClass.ts. The keys of a run's trace signals, which the source
-- gets by URL parsing and regular expressions, and the burn state of the SQL function are arguments.
pub mod Confirmation
pub mod Frame
pub mod Rows
pub mod Transients
use synthwatch.Prelude.{
  ℕ, suc, ◌+◌, String, Option, none, some, Bool, true, false, ◌&&◌, List, [], ◌∷◌, ◌++◌, map,
  filter, any, take, if◌then◌else◌, ltb, ◌==◌, not, str_eq, find?,
}
use synthwatch.Types.{Check, Run, Status, is_down, is_up}
use synthwatch.Retry.{confirm_by_rerun_eligible, uses_dedicated_execution}
use synthwatch.Alerts.{Transport}
use synthwatch.Verdict.{order_desc}
use synthwatch.World.{World, Send}
use synthwatch.Incident.{evaluate}
use synthwatch.Burn.{BurnState, maybe_burn_alert}

-- `TransientClass`
pub data TransientClass : Type 0 where
  monitor_side service_side indeterminate : TransientClass

-- The first-party failure keys of a run, or nothing when it captured no signals.
abbrev pub Signals : Type 0
Signals = Option (List String)

abbrev pub keys_of : Signals → List String
keys_of none = []
keys_of (some ks) = ks

-- `baseKeys`, the union over the baseline.
pub base_keys : List Signals → List String
base_keys [] = []
base_keys (b ∷ bs) = keys_of b ++ base_keys bs

pub has_key : String → List String → Bool
has_key k ks = any (str_eq k) ks

-- `classifyTransient`
pub classify_transient : Signals → List Signals → TransientClass
unfolding base_keys has_key
classify_transient none baseline = indeterminate
classify_transient (some ks) baseline =
    if any (λ k. not (has_key k (base_keys baseline))) ks then service_side else monitor_side

-- TRANSIENT_BASELINE_RUNS
abbrev pub transient_baseline_runs : ℕ
transient_baseline_runs = 4

-- 30 days.
abbrev baseline_age : ℕ
baseline_age = 2592000000

-- The `WHERE` of the baseline query.
pub in_baseline : ℕ → Run → Run → Bool
in_baseline check_id orig r =
    r.check_id == check_id
    && is_up r.status
    && (ltb r.started_at orig.started_at && ltb orig.started_at (r.started_at + baseline_age))
    && (not (r.id == orig.id) && str_eq r.location orig.location)

pub baseline_runs : ℕ → Run → List Run → List Run
unfolding in_baseline
baseline_runs check_id orig runs =
    take transient_baseline_runs (order_desc (filter (in_baseline check_id orig) runs))

-- A row of `run_requests`.
pub record RunRequest : Type 0 where
  pub id : ℕ
  pub check_id : ℕ
  pub sandbox : Bool
  pub confirmation : Bool
  pub is_pending : Bool
  pub requested_at : ℕ

-- The tables of World.antt, with `run_requests`, `runs.transient_class` and the job starts.
pub record Effects : Type 0 where
  pub world : World
  pub run_requests : List RunRequest
  pub next_request_id : ℕ
  pub transient_classes : List (ℕ × TransientClass)
  pub job_starts : ℕ

-- `RunSideEffectContext`
pub record RunSideEffectContext : Type 0 where
  pub sandbox : Bool
  pub already_failing : Bool
  pub confirmation_of_run_id : Option ℕ

abbrev pub pending_for : ℕ → RunRequest → Bool
pending_for check_id q = q.is_pending && q.check_id == check_id

-- `WHERE id = $1 AND status = 'pending'`
abbrev pub is_pending_id : ℕ → RunRequest → Bool
is_pending_id id q = q.id == id && q.is_pending

-- The INSERT with its partial unique index on pending requests; `done` is the other status.
pub enqueue : ℕ → ℕ → ℕ → List RunRequest → List RunRequest
enqueue check_id id now requests =
    if any (pending_for check_id) requests
    then requests
    else record {
      id = id;
      check_id = check_id;
      sandbox = false;
      confirmation = true;
      is_pending = true;
      requested_at = now;
    }
      ∷ requests

-- `enqueueConfirmationRun`; an INSERT takes its id whether or not it conflicts.
pub enqueue_confirmation_run : Check → Effects → Effects
unfolding enqueue
enqueue_confirmation_run check s = record s {
  run_requests = enqueue check.id s.next_request_id s.world.now s.run_requests;
  next_request_id = suc s.next_request_id;
  job_starts = if uses_dedicated_execution check.kind then suc s.job_starts else s.job_starts;
}

-- `shouldConfirmByRerun`
pub should_confirm_by_rerun : Check → Status → Bool → Bool
should_confirm_by_rerun check status already_failing =
    not already_failing && (is_down status && confirm_by_rerun_eligible check.kind)

-- `UPDATE runs SET superseded_by_run_id`
abbrev pub supersede_row : ℕ → ℕ → Run → Run
supersede_row original by r =
    if r.id == original then record r { superseded_by_run_id = some by } else r

pub supersede : ℕ → ℕ → List Run → List Run
supersede original by runs = map (supersede_row original by) runs

module _ (signals : ℕ → Signals) where
  classify_row : ℕ → Effects → Option Run → Effects
  unfolding classify_transient baseline_runs
  classify_row check_id s none = s
  classify_row check_id s (some orig) = record s {
    transient_classes =
        (
          orig.id,
          classify_transient (signals orig.id)
              (map (λ (r : Run). signals r.id) (baseline_runs check_id orig s.world.runs)),
        )
        ∷ s.transient_classes;
  }

  -- `classifyAndPersistTransient`
  pub classify_and_persist_transient : Check → ℕ → Effects → Effects
  unfolding classify_row
  classify_and_persist_transient check original s =
      classify_row check.id s (find? (λ r. r.id == original) s.world.runs)

  module _ (env : Transport) (send : Send) (rca : Option String) (target : Option ℕ)
      (state : BurnState) where
    -- `evaluate` and then `maybeBurnAlert`.
    pub judge : Check → Run → Effects → Effects
    judge check run s = record s {
      world =
          maybe_burn_alert env send check target state (evaluate env send check run rca s.world);
    }

    -- Branch (A), before its verdict.
    pub settle_confirmation : Check → Run → ℕ → Effects → Effects
    unfolding supersede
    settle_confirmation check run original s =
        if is_up run.status
        then classify_and_persist_transient check original
            (record s { world = record s.world { runs = supersede original run.id s.world.runs } })
        else s

    after_sandbox : Check → Run → Bool → Option ℕ → Effects → Effects
    unfolding judge settle_confirmation enqueue_confirmation_run should_confirm_by_rerun
    after_sandbox check run already_failing (some original) s =
        judge check run (settle_confirmation check run original s)
    after_sandbox check run already_failing none s =
        if should_confirm_by_rerun check run.status already_failing
        then enqueue_confirmation_run check s
        else judge check run s

    -- `applyRunSideEffects`
    pub apply_run_side_effects : Check → Run → RunSideEffectContext → Effects → Effects
    unfolding after_sandbox
    apply_run_side_effects check run ctx s =
        if ctx.sandbox
        then s
        else after_sandbox check run ctx.already_failing ctx.confirmation_of_run_id s
