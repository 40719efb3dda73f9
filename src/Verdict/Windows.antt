-- ===== src/Verdict/Windows.antt =====
-- The counts of `aggregateVerdict` in runner/evaluate.ts.
use synthwatch.Prelude.{
  if◌then◌else◌, not, Bool-cases, ◌⊎◌, inl, inr, is_some, ℕ, zero, suc, ◌*◌, ◌≤◌, ◌<◌, String, Bool,
  true, false, ◌&&◌, List, [], ◌∷◌, map, ◌≡◌, refl, arith, length, take, all, count, leb, filter,
  count_mono, and_parts, leb→le, le→leb, sym, ap, ◌==◌,
}
use synthwatch.Types.{Check, Run, is_down, is_result, countable}
use synthwatch.Verdict.{
  all_down, is_fresh, is_failing, tally, per_loc, aggregate_verdict, recent, partition, locations,
  failing_location_names,
}

-- A longer run of down rows contains the shorter one.
all-take :
    (p : Run → Bool) (j k : ℕ) (rows : List Run)
    → j ≤ k
    → all p (take k rows) ≡ true
    → all p (take j rows) ≡ true
all-take p zero k rows h e = refl
all-take p (suc j) zero rows h e = absurd (omega arith)
all-take p (suc j) (suc k) [] h e = refl
all-take p (suc j) (suc k) (r ∷ rows) h e = ground (arith, all-take p j k rows)

length-take_le :
    (j k : ℕ) (rows : List Run) → j ≤ k → k ≤ length (take k rows) → j ≤ length (take j rows)
length-take_le zero k rows h e = omega arith
length-take_le (suc j) zero rows h e = absurd (omega arith)
length-take_le (suc j) (suc k) [] h e = absurd (omega arith)
length-take_le (suc j) (suc k) (r ∷ rows) h e = omega (arith, length-take_le j k rows)

-- Over at least one row `all_down` is the plain conjunction.
all_down_lem :
    (k : ℕ) (rows : List Run)
    → 0 < k
    → all_down (take k rows) ≡ true
    → all (λ x. is_down x.status) (take k rows) ≡ true
all_down_lem zero rows h e = absurd (omega arith)
all_down_lem (suc k) [] h e = refl
all_down_lem (suc k) (r ∷ rows) h e = e

all_down_of_all :
    (k : ℕ) (rows : List Run)
    → 0 < length (take k rows)
    → all (λ x. is_down x.status) (take k rows) ≡ true
    → all_down (take k rows) ≡ true
all_down_of_all zero rows h e = absurd (omega arith)
all_down_of_all (suc k) [] h e = absurd (omega arith)
all_down_of_all (suc k) (r ∷ rows) h e = e

-- The bar of `j` rows is met wherever a higher bar of `k` rows is.
pub is_failing_mono :
    (j k : ℕ) (rows : List Run)
    → 0 < j
    → j ≤ k
    → is_failing k rows ≡ true
    → is_failing j rows ≡ true
unfolding is_failing
is_failing_mono j k rows p h e =
    let (d, n) = and_parts (all_down (take k rows)) (leb k (length (take k rows))) e in
    let len : j ≤ length (take j rows) = length-take_le j k rows h (leb→le _ _ n) in
    let downs = all-take (λ x. is_down x.status) j k rows h (all_down_lem k rows (omega arith) d) in
    let down = all_down_of_all j rows (omega arith) downs in
    ground (arith, le→leb j (length (take j rows)) len, down)

count-map :
    (f : String → List Run) (p : List Run → Bool) (ls : List String)
    → count p (map f ls) ≡ length (filter (λ l. p (f l)) ls)
count-map f p [] = refl
count-map f p (l ∷ ls) = ground (arith, count-map f p ls)

-- The verdict counts no failing location that is not reporting, and no location past the warning bar
-- that is not past the critical bar, whatever the rows.
pub aggregate_verdict_bounds :
    (check : Check) (now : ℕ) (runs : List Run)
    → 0 < check.failure_threshold
    → let v = aggregate_verdict check now runs in
      (v.failing_warning ≤ v.failing) × (v.failing ≤ v.total)
unfolding aggregate_verdict
aggregate_verdict_bounds check now runs h =
    let k = check.failure_threshold in
    (
      count_mono (λ p. is_failing (2 * k) p && is_fresh now p)
          (λ p. is_failing k p && is_fresh now p)
          (λ p e.
            let (f, s) = and_parts (is_failing (2 * k) p) (is_fresh now p) e in
            let low = is_failing_mono k (2 * k) p h (omega arith) f in ground arith)
          (per_loc check.id runs),
      count_mono (λ p. is_failing k p && is_fresh now p) (is_fresh now)
          (λ p e. (and_parts (is_failing k p) (is_fresh now p) e).1) (per_loc check.id runs),
    )

-- The alert email names exactly as many locations as the verdict counts as failing.
pub length-failing_location_names :
    (check : Check) (now : ℕ) (runs : List Run)
    → length (failing_location_names check now runs) ≡ (aggregate_verdict check now runs).failing
unfolding failing_location_names aggregate_verdict
length-failing_location_names check now runs = sym (
    count-map (λ l. partition l (recent check.id runs))
      (λ p. is_failing check.failure_threshold p && is_fresh now p)
      (locations (recent check.id runs)))

not_countable :
    (check_id : ℕ) (r : Run)
    → ((r.check_id == check_id) ≡ false)
      ⊎ (is_result r.status ≡ false)
      ⊎ (is_some r.superseded_by_run_id ≡ true)
      ⊎ (is_some r.confirmation_of_run_id ≡ true)
      ⊎ (r.sandbox ≡ true)
    → (countable r && r.check_id == check_id) ≡ false
unfolding countable
not_countable check_id r (inl h) = ground arith
not_countable check_id r (inr (inl h)) = ground arith
not_countable check_id r (inr (inr (inl h))) = ground arith
not_countable check_id r (inr (inr (inr (inl h)))) = ground arith
not_countable check_id r (inr (inr (inr (inr h)))) = ground arith

per_loc_ignores :
    (check_id : ℕ) (r : Run) (runs : List Run)
    → (countable r && r.check_id == check_id) ≡ false
    → per_loc check_id (r ∷ runs) ≡ per_loc check_id runs
unfolding per_loc
per_loc_ignores check_id r runs h = rw h

-- A run of another check, an unfinished or infra-error run, a superseded run, a confirmation run or a
-- sandbox run does not move the verdict.
pub aggregate_verdict_ignores :
    (check : Check) (now : ℕ) (r : Run) (runs : List Run)
    → ((r.check_id == check.id) ≡ false)
      ⊎ (is_result r.status ≡ false)
      ⊎ (is_some r.superseded_by_run_id ≡ true)
      ⊎ (is_some r.confirmation_of_run_id ≡ true)
      ⊎ (r.sandbox ≡ true)
    → aggregate_verdict check now (r ∷ runs) ≡ aggregate_verdict check now runs
unfolding aggregate_verdict
aggregate_verdict_ignores check now r runs h =
    ap (tally check now) (per_loc_ignores check.id r runs (not_countable check.id r h))

module _ (check_id : ℕ) (p : Run → Bool) (f : Run → Run)
    (lost : (r : Run) → p r ≡ true → countable (f r) ≡ false)
    (kept : (r : Run) → p r ≡ false → f r ≡ r) where
  recent-map :
      (runs : List Run)
      → recent check_id (map f runs) ≡ recent check_id (filter (λ r. not (p r)) runs)
  unfolding recent
  recent-map [] = refl
  recent-map (r ∷ runs) = elim (Bool-cases (p r)) [
    | inl e ↦ rw (e, lost r e) (recent-map runs)
    | inr e ↦
        rw (e, kept r e)
          (ap (λ rs. if countable r && r.check_id == check_id then r ∷ rs else rs)
            (recent-map runs))
  ]

-- An UPDATE that takes the rows of a test out of the count has the verdict of their removal.
pub aggregate_verdict_without :
    (check : Check) (now : ℕ) (p : Run → Bool) (f : Run → Run)
    → ((r : Run) → p r ≡ true → countable (f r) ≡ false)
    → ((r : Run) → p r ≡ false → f r ≡ r)
    → (runs : List Run)
    → aggregate_verdict check now (map f runs)
      ≡ aggregate_verdict check now (filter (λ r. not (p r)) runs)
unfolding aggregate_verdict per_loc
aggregate_verdict_without check now p f lost kept runs =
    ap (λ rows. tally check now (map (λ l. partition l rows) (locations rows)))
      (recent-map check.id p f lost kept runs)
