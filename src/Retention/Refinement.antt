-- ===== src/Retention/Refinement.antt =====
-- `runRetention` of runner/retention.ts against its abstract specification, one unbounded DELETE.
use synthwatch.Prelude.{
  ℕ, zero, suc, ◌+◌, ◌*◌, ◌<◌, ◌≡◌, refl, ◌∙◌, Bool, true, false, List, filter, count, ltb, not,
  arith,
}
use synthwatch.Types.{Run}
use synthwatch.World.{Incident}
use synthwatch.Retention.{victims, is_among, Pruned, prune_loop, run_retention, is_eligible}
use synthwatch.Retention.Batches.{
  unique_ids, unique_ids-filter, victims_pass, batch_size_lem, nothing_left, others_stay,
  count_left,
}

-- The loop's result on rows `runs`: those that fail the test, and the number of those that pass.
abbrev IsPrunedOf : (Run → Bool) → List Run → Pruned → Type 0
IsPrunedOf p runs t = (t.runs ≡ filter (λ r. not (p r)) runs) × (t.deleted ≡ count p runs)

prune_loop_lem :
    (p : Run → Bool) (batch_size m : ℕ) (runs : List Run)
    → unique_ids runs ≡ true
    → count p runs < m * batch_size
    → IsPrunedOf p runs (prune_loop p batch_size m runs)
unfolding prune_loop
prune_loop_lem p batch_size zero runs unique h = ground arith
prune_loop_lem p batch_size (suc m) runs unique h =
    let d = is_among (victims p batch_size runs) in
    let left = filter (λ r. not (d r)) runs in
    let n = count d runs in
    let pass = victims_pass p batch_size runs unique in
    let size = batch_size_lem p batch_size runs in
    elim (ltb n batch_size)
        as (λ b.
          (ltb n batch_size ≡ b)
          → IsPrunedOf p runs (elim b [
            | true ↦ record { runs = left; deleted = n; batches = 1 }
            | false ↦
                let rest = prune_loop p batch_size m left in
                record { runs = rest.runs; deleted = n + rest.deleted; batches = suc rest.batches }
          ])) [
            | true ↦ λ e. (
              nothing_left p left (ground (arith, count_left p d runs)) ∙ others_stay p d runs pass,
              ground (arith, count_left p d runs),
            )
            | false ↦ λ e.
                let (r, c) =
                  prune_loop_lem p batch_size m left
                    (unique_ids-filter (λ r. not (d r)) runs unique)
                    (ground (arith, count_left p d runs)) in
                (r ∙ others_stay p d runs pass, ground (arith, count_left p d runs))
          ]
      refl

-- With room for more rows than are eligible, and the primary key of `runs`, the bounded batches end at
-- what one unbounded DELETE of the eligible rows leaves, and they count the rows that it deletes.
pub run_retention_refines :
    (days batch_size batches now : ℕ) (incidents : List Incident) (runs : List Run)
    → unique_ids runs ≡ true
    → count (is_eligible now days incidents) runs < batches * batch_size
    → IsPrunedOf
        (is_eligible now days incidents)
        runs
        (run_retention days batch_size batches now incidents runs)
unfolding run_retention
run_retention_refines days batch_size batches now incidents runs unique h =
    prune_loop_lem (is_eligible now days incidents) batch_size batches runs unique h
