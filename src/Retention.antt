-- ===== src/Retention.antt =====
-- runner/retention.ts: the runs that age out, deleted in batches, and the checks that git removed. A time
-- is a number of milliseconds.
pub mod Batches
pub mod Refinement
pub mod Pinned
use synthwatch.Prelude.{
  ℕ, zero, suc, ◌+◌, ◌*◌, none, some, Bool, true, false, ◌&&◌, ◌||◌, List, [], ◌∷◌, filter, any,
  count, take, if◌then◌else◌, ltb, leb, ◌==◌, not,
}
use synthwatch.Types.{Run}
use synthwatch.World.{Incident}
use synthwatch.Schedule.{CheckRow}

-- RETENTION_DAYS, RETENTION_BATCH_SIZE and the default of `maxBatches`.
abbrev pub retention_days : ℕ
retention_days = 90

abbrev pub retention_batch_size : ℕ
retention_batch_size = 5000

abbrev pub max_batches : ℕ
max_batches = 10000

-- `t < now() - make_interval(days => …)`
abbrev pub is_older : ℕ → ℕ → ℕ → Bool
is_older now days t = ltb (t + days * 86400000) now

-- `i.opened_run_id = r.id OR i.resolved_run_id = r.id`
abbrev pub pins : Run → Incident → Bool
pins r i = i.opened_run_id == r.id || (elim i.resolved_run_id [ none ↦ false | some k ↦ k == r.id ])

abbrev pub is_pinned : List Incident → Run → Bool
is_pinned incidents r = any (pins r) incidents

-- The `WHERE` of the victims.
abbrev pub is_eligible : ℕ → ℕ → List Incident → Run → Bool
is_eligible now days incidents r = is_older now days r.started_at && not (is_pinned incidents r)

-- `ORDER BY r.started_at`
pub insert_oldest : Run → List Run → List Run
insert_oldest x [] = x ∷ []
insert_oldest x (y ∷ ys) =
    if leb x.started_at y.started_at then x ∷ y ∷ ys else y ∷ insert_oldest x ys

pub order_asc : List Run → List Run
unfolding insert_oldest
order_asc [] = []
order_asc (x ∷ xs) = insert_oldest x (order_asc xs)

-- The `victims` of a batch, for the test of the `WHERE`.
pub victims : (Run → Bool) → ℕ → List Run → List Run
unfolding order_asc
victims p batch_size runs = take batch_size (order_asc (filter p runs))

-- `id IN (SELECT id FROM victims)`
abbrev pub is_among : List Run → Run → Bool
is_among vs r = any (λ v. v.id == r.id) vs

-- RetentionResult with the table that is left.
pub record Pruned : Type 0 where
  pub runs : List Run
  pub deleted : ℕ
  pub batches : ℕ

-- The loop, on the number of batches that `maxBatches` still allows.
pub prune_loop : (Run → Bool) → ℕ → ℕ → List Run → Pruned
unfolding victims
prune_loop p batch_size zero runs = record { runs = runs; deleted = 0; batches = 0 }
prune_loop p batch_size (suc m) runs =
    let vs = victims p batch_size runs in
    let n = count (is_among vs) runs in
    let left = filter (λ r. not (is_among vs r)) runs in
    elim (ltb n batch_size) [
      | true ↦ record { runs = left; deleted = n; batches = 1 }
      | false ↦
          let rest = prune_loop p batch_size m left in
          record { runs = rest.runs; deleted = n + rest.deleted; batches = suc rest.batches }
    ]

-- `runRetention`
pub run_retention : ℕ → ℕ → ℕ → ℕ → List Incident → List Run → Pruned
unfolding prune_loop
run_retention days batch_size batches now incidents runs =
    prune_loop (is_eligible now days incidents) batch_size batches runs

-- `c.removed_at < now() - make_interval(days => …)`
abbrev pub is_past_window : ℕ → ℕ → CheckRow → Bool
is_past_window now days c = elim c.removed_at [ none ↦ false | some t ↦ is_older now days t ]

-- The `EXISTS` of a check's runs that an incident pins.
abbrev pub has_pinned_run : List Incident → List Run → CheckRow → Bool
has_pinned_run incidents runs c = any (λ r. r.check_id == c.check.id && is_pinned incidents r) runs

abbrev pub is_deferred : ℕ → ℕ → List Incident → List Run → CheckRow → Bool
is_deferred now days incidents runs c = is_past_window now days c && has_pinned_run incidents runs c

abbrev pub is_purgeable : ℕ → ℕ → List Incident → List Run → CheckRow → Bool
is_purgeable now days incidents runs c =
    is_past_window now days c && not (has_pinned_run incidents runs c)

-- PurgeRemovedResult with the tables that are left.
pub record Purged : Type 0 where
  pub checks : List CheckRow
  pub runs : List Run
  pub incidents : List Incident
  pub purged : ℕ
  pub deferred : ℕ

-- Whether a row of this check id goes by ON DELETE CASCADE.
abbrev pub cascades : (CheckRow → Bool) → List CheckRow → ℕ → Bool
cascades p checks check_id = any (λ c. p c && c.check.id == check_id) checks

-- `purgeRemovedChecks`
pub purge_removed_checks : ℕ → ℕ → List Incident → List CheckRow → List Run → Purged
purge_removed_checks days now incidents checks runs =
    let p = is_purgeable now days incidents runs in
    record {
      checks = filter (λ c. not (p c)) checks;
      runs = filter (λ r. not (cascades p checks r.check_id)) runs;
      incidents = filter (λ i. not (cascades p checks i.check_id)) incidents;
      purged = count p checks;
      deferred = count (is_deferred now days incidents runs) checks;
    }
