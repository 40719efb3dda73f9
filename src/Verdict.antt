-- ===== src/Verdict.antt =====
-- runner/evaluate.ts: the cross-location verdict. Each SQL query is a function of the list of `runs`
-- rows and of `now`, with its own names for the common table expressions.
pub mod Quorum
pub mod Windows
use synthwatch.Prelude.{
  ℕ, suc, ◌+◌, ◌*◌, ◌/◌, min, String, Option, none, some, Bool, false, ◌&&◌, List, [], ◌∷◌, map,
  if◌then◌else◌, ltb, leb, ◌==◌, str_eq, length, take, all, filter, count,
}
use synthwatch.Types.{
  Status, fail, error, infra_error, Severity, warning, Check, Run, is_down, countable,
}

-- `effectiveN`: a majority of the reporting locations, or the override capped at their number.
unfoldable pub effective_n : ℕ → Option ℕ → ℕ
effective_n reporting none = reporting / 2 + 1
effective_n reporting (some m) = min m reporting

-- `crossLocationDown`
unfoldable pub cross_location_down : ℕ → ℕ → Option ℕ → Bool
unfolding effective_n
cross_location_down failing reporting min_fail =
    leb 1 failing && leb (effective_n reporting min_fail) failing

-- `incidentSeverity`; `null` is `none`.
unfoldable pub incident_severity : ℕ → ℕ → ℕ → Option ℕ → Severity → Option Severity
unfolding effective_n
incident_severity failing failing_warning total min_fail check_severity =
    if leb 1 failing && leb (effective_n total min_fail) failing
    then some check_severity
    else if leb 1 failing_warning
    then some warning
    else none

-- STALE_LOCATION, one hour.
abbrev pub stale_location : ℕ
stale_location = 3600000

abbrev pub warning_debounce_multiplier : ℕ
warning_debounce_multiplier = 2

-- `ORDER BY started_at DESC`; rows of one instant keep their order.
pub insert_desc : Run → List Run → List Run
insert_desc r [] = r ∷ []
insert_desc r (x ∷ xs) = if ltb r.started_at x.started_at then x ∷ insert_desc r xs else r ∷ x ∷ xs

pub order_desc : List Run → List Run
unfolding insert_desc
order_desc [] = []
order_desc (r ∷ rs) = insert_desc r (order_desc rs)

-- The distinct locations, `GROUP BY location`.
pub add_location : String → List String → List String
add_location l [] = l ∷ []
add_location l (x ∷ xs) = if str_eq x l then x ∷ xs else x ∷ add_location l xs

pub locations : List Run → List String
unfolding add_location
locations [] = []
locations (r ∷ rs) = add_location r.location (locations rs)

-- `FROM countable_run WHERE check_id = $1`
pub recent : ℕ → List Run → List Run
recent check_id runs = filter (λ r. countable r && r.check_id == check_id) runs

-- The partition of one location, newest first.
pub partition : String → List Run → List Run
unfolding order_desc
partition l rows = order_desc (filter (λ r. str_eq r.location l) rows)

-- `bool_and(status IN ('fail','error'))`, which is NULL over no row, and NULL passes no filter.
abbrev pub all_down : List Run → Bool
all_down [] = false
all_down (r ∷ rs) = all (λ x. is_down x.status) (r ∷ rs)

-- `loc_last > now() - $3::interval`, where the partition's first row has the greatest `started_at`.
pub is_fresh : ℕ → List Run → Bool
is_fresh now [] = false
is_fresh now (r ∷ _) = ltb now (r.started_at + stale_location)

-- The newest `k` rows are `k` rows, all of them down.
pub is_failing : ℕ → List Run → Bool
is_failing k rows = all_down (take k rows) && leb k (length (take k rows))

pub record Verdict : Type 0 where
  pub down : Bool
  pub failing : ℕ
  pub failing_warning : ℕ
  pub total : ℕ

-- `per_loc`: a partition for each location.
pub per_loc : ℕ → List Run → List (List Run)
unfolding recent partition locations
per_loc check_id runs =
    let rows = recent check_id runs in map (λ l. partition l rows) (locations rows)

-- The outer `SELECT` of `aggregateVerdict`, and what it returns.
tally : Check → ℕ → List (List Run) → Verdict
unfolding is_fresh is_failing cross_location_down
tally check now parts =
    let k = check.failure_threshold in
    let total = count (is_fresh now) parts in
    let failing = count (λ p. is_failing k p && is_fresh now p) parts in
    record {
      down = cross_location_down failing total check.min_fail_locations;
      failing = failing;
      failing_warning =
          count (λ p. is_failing (warning_debounce_multiplier * k) p && is_fresh now p) parts;
      total = total;
    }

-- `aggregateVerdict`
unfoldable pub aggregate_verdict : Check → ℕ → List Run → Verdict
unfolding tally per_loc
aggregate_verdict check now runs = tally check now (per_loc check.id runs)

-- `failingLocationNames`; the order of the names is left as the locations stand.
unfoldable pub failing_location_names : Check → ℕ → List Run → List String
unfolding recent partition locations is_fresh is_failing
failing_location_names check now runs =
    let rows = recent check.id runs in
    filter (λ l. let p = partition l rows in is_failing check.failure_threshold p && is_fresh now p)
      (locations rows)

-- The loop of `countConsecutiveDown` over the selected statuses.
pub count_down : List Status → ℕ
count_down [] = 0
count_down (fail ∷ rows) = suc (count_down rows)
count_down (error ∷ rows) = suc (count_down rows)
count_down (infra_error ∷ rows) = count_down rows
count_down (_ ∷ rows) = 0

-- `countConsecutiveDown` for one location.
unfoldable pub count_consecutive_down : ℕ → ℕ → String → List Run → ℕ
unfolding count_down recent partition
count_consecutive_down check_id threshold location runs =
    count_down (map (λ r. r.status) (take threshold (partition location (recent check_id runs))))
