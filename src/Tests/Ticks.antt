-- ===== src/Tests/Ticks.antt =====
-- The theorems on the tick of runner/index.ts at a fleet of one check with two cursors.
use synthwatch.Prelude.{
  ◌↔◌, all, map, none, some, true, false, List, [], ◌∷◌, ◌≡◌, refl, arith, any, map, ◌==◌, is_some,
}
use synthwatch.Burn.{calm}
use synthwatch.SideEffects.{RunRequest, is_pending_id}
use synthwatch.Schedule.{CheckRow, Cursor, is_due, claim, claim_where, find_due_checks, stamp}
use synthwatch.Schedule.Gate.{claim-find_due_checks, claim_twice, claim_again}
use synthwatch.Tick.{Surroundings, Fleet, drain_from, drain_run_requests, due_loop}
use synthwatch.Tick.Runnable.{CanRun, drain_run_requests_consumes}
use synthwatch.Tick.Drain.{drain_from_again}
use synthwatch.Tick.Served.{has_turn, due_loop_serves}
use synthwatch.Schedule.Owed.{is_owed}
use synthwatch.Tests.Data.{checkout, transport, send_ok, down_world}

abbrev pub checkout_row : CheckRow
checkout_row = record {
  check = checkout;
  enabled = true;
  archived_at = none;
  removed_at = none;
  interval_seconds = 300;
  last_run_at = none;
}

abbrev pub cursors : List Cursor
cursors =
    record { check_id = 7; location = "east"; last_run_at = none }
    ∷ record { check_id = 7; location = "west"; last_run_at = some 5000 }
    ∷ []

abbrev request : RunRequest
request = record {
  id = 1;
  check_id = 7;
  sandbox = false;
  confirmation = false;
  is_pending = true;
  requested_at = 5900;
}

abbrev fleet : Fleet
fleet = record {
  effects = record {
    world = down_world;
    run_requests = request ∷ [];
    next_request_id = 2;
    transient_classes = [];
    job_starts = 0;
  };
  checks = checkout_row ∷ [];
  cursors = cursors;
  next_run_id = 9;
}

abbrev east : Surroundings
east = record {
  location = "east";
  execute = λ check id. none;
  env = transport;
  send = send_ok;
  rca = λ id. none;
  signals = λ id. none;
  slo_target = λ id. none;
  burn_state = λ id. calm;
}

claim-find_due_checks_example :
    is_some (claim "east" 6000 7 cursors (checkout_row ∷ [])).won
    ≡ any (λ x. x.id == 7) (find_due_checks "east" 6000 cursors (checkout_row ∷ []))
claim-find_due_checks_example = claim-find_due_checks "east" 6000 7 cursors (checkout_row ∷ [])

won_once : is_some (claim "east" 6000 7 cursors (checkout_row ∷ [])).won ≡ true
unfolding claim claim_where is_due
won_once = refl

claim_again_example :
    is_some (claim_twice "east" 6000 66000 7 cursors (checkout_row ∷ [])).won ≡ false
claim_again_example =
    claim_again "east" 6000 66000 7 cursors (checkout_row ∷ []) (omega arith) refl won_once

drain_run_requests_consumes_example :
    (any (is_pending_id 1) (drain_run_requests east fleet).effects.run_requests ≡ false)
    ↔ CanRun "east" fleet 1
drain_run_requests_consumes_example = drain_run_requests_consumes east fleet 1 refl refl

drain_from_again_example :
    drain_from east (request ∷ request ∷ []) (drain_from east (request ∷ []) fleet)
    ≡ drain_from east (request ∷ []) fleet
drain_from_again_example =
    drain_from_again east east (request ∷ []) (request ∷ request ∷ []) fleet refl refl

due_loop_serves_example :
    (all
        (has_turn "east" 6000 9
          (due_loop east
            (find_due_checks "east" 6000 cursors (checkout_row ∷ []))
            fleet).next_run_id
          (checkout_row ∷ [])
          (due_loop east
            (find_due_checks "east" 6000 cursors (checkout_row ∷ []))
            fleet).effects.world.runs)
        cursors
      ≡ true)
    × ((due_loop east (find_due_checks "east" 6000 cursors (checkout_row ∷ [])) fleet).cursors
        ≡ map (stamp (is_owed "east" 6000 (checkout_row ∷ [])) 6000) cursors)
due_loop_serves_example = due_loop_serves east (λ check id e. cc) fleet

-- One of the cursors is due.
owed_test : any (is_owed "east" 6000 (checkout_row ∷ [])) cursors ≡ true
owed_test = refl
