-- ===== src/Tick.antt =====
-- The tick of runner/index.ts: `runOneInner` with its side effects, the drain of the on-demand requests and
-- the loop over the due checks. The executors, which run a browser or use the network, are an argument; it
-- is `none` where they throw. A tick has one clock.
pub mod Drain
pub mod Loop
pub mod Served
pub mod Runnable
pub mod Turn
pub mod Verdicts
use synthwatch.Prelude.{
  ℕ, suc, ◌+◌, String, Option, none, some, Bool, true, false, ◌&&◌, ◌||◌, List, [], ◌∷◌, map,
  filter, any, if◌then◌else◌, ltb, leb, ◌==◌, not, str_eq, is_some,
}
use synthwatch.Types.{Check, Run, Status, running, error, is_down}
use synthwatch.Alerts.{Transport}
use synthwatch.World.{World, Send, get_open_incident}
use synthwatch.Verdict.{order_desc}
use synthwatch.PerfBudget.{RunMetrics, perf_budget_verdict}
use synthwatch.Burn.{BurnState}
use synthwatch.SideEffects.{Signals, RunRequest, Effects, is_pending_id, apply_run_side_effects}
use synthwatch.Schedule.{
  CheckRow, Cursor, Candidate, Claimed, find_due_checks, claim, force_claim, joins,
}
use synthwatch.StaleIncidents.{close_stranded_incidents}

-- The parts of `Outcome` that the verdict reads.
pub record Outcome : Type 0 where
  pub status : Status
  pub metrics : Option RunMetrics
  pub metrics_capture_failed : Bool

-- The tables.
pub record Fleet : Type 0 where
  pub effects : Effects
  pub checks : List CheckRow
  pub cursors : List Cursor
  pub next_run_id : ℕ

-- What a run depends on beyond the tables.
pub record Surroundings : Type 0 where
  pub location : String
  pub execute : Check → ℕ → Option Outcome
  pub env : Transport
  pub send : Send
  pub rca : ℕ → Option String
  pub signals : ℕ → Signals
  pub slo_target : ℕ → Option ℕ
  pub burn_state : ℕ → BurnState

-- `errorOutcome`
abbrev pub outcome_of : Option Outcome → Outcome
outcome_of none = record { status = error; metrics = none; metrics_capture_failed = false }
outcome_of (some o) = o

-- The INSERT of `runOne`.
abbrev pub started_run : String → ℕ → ℕ → ℕ → Bool → Option ℕ → Run
started_run location now id check_id sandbox confirmation_of = record {
  id = id;
  check_id = check_id;
  location = location;
  status = running;
  started_at = now;
  sandbox = sandbox;
  confirmation_of_run_id = confirmation_of;
  superseded_by_run_id = none;
}

-- `writeProvisionalVerdict`, its status.
abbrev pub set_status : ℕ → Status → Run → Run
set_status id status r = if r.id == id then record r { status = status } else r

abbrev pub with_runs : List Run → Effects → Effects
with_runs runs s = record s { world = record s.world { runs = runs } }

-- The verdict of `runOneInner`: the outcome, and then the budgets.
pub final_status : String → Check → Option Outcome → Status
final_status location check o =
    perf_budget_verdict check (outcome_of o).status (outcome_of o).metrics
      (outcome_of o).metrics_capture_failed location

-- `hasOpenIncident`
abbrev pub has_open_incident : ℕ → World → Bool
has_open_incident check_id w = is_some (get_open_incident check_id w)

-- `runOne` and `runOneInner` on the tables, for a process that is not killed.
pub run_one : Surroundings → Check → Bool → Option ℕ → Fleet → Fleet
unfolding final_status
run_one env check sandbox confirmation_of f =
    let id = f.next_run_id in
    let run = started_run env.location f.effects.world.now id check.id sandbox confirmation_of in
    let failing = has_open_incident check.id f.effects.world in
    let status = final_status env.location check (env.execute check id) in
    record f {
      next_run_id = suc id;
      effects =
          apply_run_side_effects env.signals env.env env.send (env.rca id) (env.slo_target check.id)
            (env.burn_state check.id) check (record run { status = status })
            (record {
              sandbox = sandbox;
              already_failing = failing;
              confirmation_of_run_id = confirmation_of;
            })
            (with_runs (map (set_status id status) (run ∷ f.effects.world.runs)) f.effects);
    }

-- The `WHERE` and the joins of the pending requests.
abbrev pub is_runnable : String → List Cursor → List CheckRow → RunRequest → Bool
is_runnable location cursors checks q =
    q.is_pending
    && any
        (λ c.
          c.check.id == q.check_id
          && ((c.enabled || q.sandbox) && (not (is_some c.archived_at) || q.sandbox))
          && any (λ cur. joins location c cur) cursors)
        checks

-- `ORDER BY rr.requested_at`
pub insert_request : RunRequest → List RunRequest → List RunRequest
insert_request x [] = x ∷ []
insert_request x (y ∷ ys) =
    if leb x.requested_at y.requested_at then x ∷ y ∷ ys else y ∷ insert_request x ys

pub order_requests : List RunRequest → List RunRequest
unfolding insert_request
order_requests [] = []
order_requests (x ∷ xs) = insert_request x (order_requests xs)

pub pending_here : String → Fleet → List RunRequest
unfolding order_requests
pending_here location f =
    order_requests (filter (is_runnable location f.cursors f.checks) f.effects.run_requests)

abbrev pub done_row : ℕ → RunRequest → RunRequest
done_row id q = if is_pending_id id q then record q { is_pending = false } else q

abbrev pub consume : ℕ → Fleet → Fleet
consume id f = record f {
  effects = record f.effects { run_requests = map (done_row id) f.effects.run_requests };
}

-- ACA_REPLICA_TIMEOUT_S
abbrev pub aca_replica_timeout : ℕ
aca_replica_timeout = 660000

abbrev pub is_in_flight : Status → Bool
is_in_flight running = true
is_in_flight _ = false

-- The `WHERE` of the deduplication.
abbrev pub runs_here : String → ℕ → ℕ → Run → Bool
runs_here location check_id now r =
    r.check_id == check_id
    && str_eq r.location location
    && (is_in_flight r.status && ltb now (r.started_at + aca_replica_timeout))

-- The `WHERE` of the original that a confirmation confirms.
abbrev pub is_awaiting : String → ℕ → Run → Bool
is_awaiting location check_id r =
    r.check_id == check_id
    && str_eq r.location location
    && (is_down r.status
        && (not (is_some r.confirmation_of_run_id) && not (is_some r.superseded_by_run_id)))

abbrev first_id : List Run → Option ℕ
first_id [] = none
first_id (r ∷ _) = some r.id

pub original_of : String → ℕ → List Run → Option ℕ
original_of location check_id runs =
    first_id (order_desc (filter (is_awaiting location check_id) runs))

-- The forced claim, and the run where it is won.
pub after_claim : Surroundings → RunRequest → Fleet → Claimed → Fleet
unfolding run_one original_of
after_claim env q f t = elim t.won [
  | none ↦ f
  | some c ↦
      run_one env c.check q.sandbox
        (if q.confirmation then original_of env.location q.check_id f.effects.world.runs else none)
        (record f { cursors = t.cursors; checks = t.checks })
]

pub after_consume : Surroundings → RunRequest → Fleet → Fleet
unfolding after_claim
after_consume env q f =
    if any (runs_here env.location q.check_id f.effects.world.now) f.effects.world.runs
    then f
    else after_claim env q f
        (force_claim env.location q.sandbox f.effects.world.now q.check_id f.cursors f.checks)

-- One turn of the loop of `drainRunRequests`.
pub drain_one : Surroundings → RunRequest → Fleet → Fleet
unfolding after_consume
drain_one env q f =
    if any (is_pending_id q.id) f.effects.run_requests
    then after_consume env q (consume q.id f)
    else f

-- The loop, over the requests that the replica has read.
pub drain_from : Surroundings → List RunRequest → Fleet → Fleet
unfolding drain_one
drain_from env [] f = f
drain_from env (q ∷ qs) f = drain_from env qs (drain_one env q f)

-- `drainRunRequests`
pub drain_run_requests : Surroundings → Fleet → Fleet
unfolding drain_from pending_here
drain_run_requests env f = drain_from env (pending_here env.location f) f

pub after_due_claim : Surroundings → Fleet → Claimed → Fleet
unfolding run_one
after_due_claim env f t = elim t.won [
  | none ↦ f
  | some c ↦ run_one env c.check false none (record f { cursors = t.cursors; checks = t.checks })
]

-- The loop over the due checks.
pub due_loop : Surroundings → List Candidate → Fleet → Fleet
unfolding after_due_claim
due_loop env [] f = f
due_loop env (x ∷ xs) f =
    due_loop env xs
      (after_due_claim env f (claim env.location f.effects.world.now x.id f.cursors f.checks))

-- `reapStaleRunning`, on the status.
abbrev pub reap_run : ℕ → Run → Run
reap_run now r =
    if is_in_flight r.status && ltb (r.started_at + 1800000) now
    then record r { status = error }
    else r

abbrev pub reap : Fleet → Fleet
reap f = record f {
  effects = with_runs (map (reap_run f.effects.world.now) f.effects.world.runs) f.effects;
}

abbrev pub sweep : Fleet → Fleet
sweep f = record f {
  effects = record f.effects { world = (close_stranded_incidents f.checks f.effects.world).0 };
}

-- `main`, from the reaper on.
pub tick : Surroundings → Fleet → Fleet
unfolding drain_run_requests due_loop
tick env f =
    let g = drain_run_requests env (sweep (reap f)) in
    due_loop env (find_due_checks env.location g.effects.world.now g.cursors g.checks) g
