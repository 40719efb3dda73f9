-- ===== src/Tests/Data.antt =====
-- Rows that the tests share: a check of two regions with its runs, an open incident and an email
-- channel.
use synthwatch.Prelude.{ℕ, String, none, some, true, false, List, [], ◌∷◌}
use synthwatch.Types.{http, Status, pass, fail, critical, warning, Check, Run}
use synthwatch.Alerts.{Channel, email, webhook, Transport, AlertRoute, Routing}
use synthwatch.World.{Incident, Window, World, Send}

abbrev pub checkout : Check
checkout = record {
  id = 7;
  name = "checkout";
  kind = http;
  severity = critical;
  failure_threshold = 1;
  min_fail_locations = none;
  perf_budget_lcp_ms = none;
  perf_budget_transfer_bytes = none;
  warn_renotify_seconds = 3600;
}

abbrev pub run_of : ℕ → String → Status → ℕ → Run
run_of id location status started_at = record {
  id = id;
  check_id = 7;
  location = location;
  status = status;
  started_at = started_at;
  sandbox = false;
  confirmation_of_run_id = none;
  superseded_by_run_id = none;
}

abbrev pub failed_runs : List Run
failed_runs =
    run_of 4 "east" fail 5000
    ∷ run_of 3 "west" fail 4900
    ∷ run_of 2 "east" pass 4000
    ∷ run_of 1 "west" pass 3900
    ∷ []

abbrev pub passed_runs : List Run
passed_runs = run_of 6 "east" pass 5800 ∷ run_of 5 "west" pass 5700 ∷ []

abbrev pub pager : Channel
pager = record {
  id = 1;
  name = "on call";
  type = email;
  to = "ops@example.com" ∷ [];
  url = none;
  enabled = true;
}

abbrev pub hook : Channel
hook = record {
  id = 2;
  name = "hook";
  type = webhook;
  to = [];
  url = some "https://hooks.example.com";
  enabled = true;
}

abbrev pub transport : Transport
transport = record { acs_email_connection_string = true; alert_email_from = true }

abbrev pub critical_route : AlertRoute
critical_route = record { channel_id = 1; severity = some critical; check_id = none }

abbrev pub routing : Routing
routing = record {
  channels = pager ∷ hook ∷ [];
  alert_routes = critical_route ∷ [];
  tag_routes = [];
  check_tags = [];
}

abbrev pub send_ok : Send
send_ok channel notice = none

abbrev pub open_incident_row : Incident
open_incident_row = record {
  id = 1;
  check_id = 7;
  is_open = true;
  severity = warning;
  opened_run_id = 3;
  resolved_run_id = none;
  consecutive_failures = 2;
  opened_at = 5000;
  resolved_at = none;
  rca = none;
  rca_notified_at = none;
  notify_status = none;
  notify_attempts = 0;
}

abbrev pub world_of : List Run → List Incident → ℕ → List Window → World
world_of runs incidents next windows = record {
  now = 6000;
  runs = runs;
  incidents = incidents;
  next_incident_id = next;
  windows = windows;
  routing = routing;
  last_warn_notified_at = λ k. none;
  last_burn_notified_at = λ k. none;
  alerts = [];
  runner_errors = [];
}

-- No incident yet, and both regions down.
abbrev pub down_world : World
down_world = world_of failed_runs [] 1 []

-- A warning incident is open.
abbrev pub warned_world : World
warned_world = world_of failed_runs (open_incident_row ∷ []) 2 []

-- The fleet is in a maintenance window.
abbrev pub quiet_world : World
quiet_world =
    world_of failed_runs (open_incident_row ∷ []) 2
      (record { check_id = none; starts_at = 5000; ends_at = 7000 } ∷ [])
