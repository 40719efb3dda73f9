-- ===== src/StaleIncidents.antt =====
-- runner/staleIncidents.ts: the sweep that closes the incidents of checks that have stopped running. The
-- column `resolution_reason` is in the rows that the statement returns.
pub mod Sweep
use synthwatch.Prelude.{
  ℕ, Option, none, some, Bool, false, ◌&&◌, List, [], ◌∷◌, ◌==◌, any, find?, if◌then◌else◌, is_some,
  not,
}
use synthwatch.World.{Incident, World, update_where}
use synthwatch.Schedule.{CheckRow, is_running}

-- incidents.resolution_reason
pub data ResolutionReason : Type 0 where
  monitor_removed monitor_archived monitor_paused : ResolutionReason

-- STOPPED_CHECK_PREDICATE
abbrev pub is_stopped : CheckRow → Bool
is_stopped c = not (is_running c)

-- The CASE of the statement.
pub resolution_reason : CheckRow → ResolutionReason
resolution_reason c =
    if is_some c.removed_at
    then monitor_removed
    else if is_some c.archived_at
    then monitor_archived
    else monitor_paused

-- The join of an incident and its stopped check.
abbrev pub stops : ℕ → CheckRow → Bool
stops check_id c = c.check.id == check_id && is_stopped c

abbrev pub is_stranded : List CheckRow → Incident → Bool
is_stranded checks i = i.is_open && any (stops i.check_id) checks

abbrev pub strand_row : ℕ → Incident → Incident
strand_row now i = record i { is_open = false; resolved_at = some now }

-- A row that the statement returns.
pub record Closed : Type 0 where
  pub id : ℕ
  pub check_id : ℕ
  pub reason : ResolutionReason

closed_row : Incident → Option CheckRow → List Closed → List Closed
unfolding resolution_reason
closed_row i none rest = rest
closed_row i (some c) rest =
    record { id = i.id; check_id = i.check_id; reason = resolution_reason c } ∷ rest

pub closed_rows : List CheckRow → List Incident → List Closed
unfolding closed_row
closed_rows checks [] = []
closed_rows checks (i ∷ is) =
    let rest = closed_rows checks is in
    if i.is_open then closed_row i (find? (stops i.check_id) checks) rest else rest

-- `closeStrandedIncidents` with CLOSE_STRANDED_INCIDENTS_SQL: the tables, and the rows returned.
unfoldable pub close_stranded_incidents : List CheckRow → World → World × List Closed
unfolding closed_rows
close_stranded_incidents checks w = (
  record w { incidents = update_where (is_stranded checks) (strand_row w.now) w.incidents },
  closed_rows checks w.incidents,
)
