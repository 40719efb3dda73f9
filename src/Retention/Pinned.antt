-- ===== src/Retention/Pinned.antt =====
-- What the purge of runner/retention.ts keeps: the incidents, and the runs that are their evidence.
use synthwatch.Prelude.{
  any_const, any_imp, any_swap, any_none, any_ext, sym, ◌∙◌, ℕ, ◌+◌, ◌≡◌, refl, Bool, true, false,
  ◌&&◌, List, [], ◌∷◌, filter, any, all, count, ◌==◌, not, arith,
}
use synthwatch.Types.{Run}
use synthwatch.World.{Incident}
use synthwatch.Schedule.{CheckRow}
use synthwatch.Retention.{
  pins, is_pinned, has_pinned_run, is_past_window, is_deferred, is_purgeable, cascades,
  purge_removed_checks,
}

-- The opening run of an incident is there, and it is a run of the incident's check.
abbrev pub has_evidence : List Run → Incident → Bool
has_evidence runs i = any (λ r. r.id == i.opened_run_id && r.check_id == i.check_id) runs

module _ (incidents : List Incident) (runs : List Run) where
  at_check :
      (c : CheckRow) (k : ℕ)
      → c.check.id ≡ k
      → any (λ r. r.check_id == k && is_pinned incidents r) runs ≡ true
      → has_pinned_run incidents runs c ≡ true
  at_check c k e h = rw e h

  -- A check with such a run is not purged.
  spared :
      (now days : ℕ) (checks : List CheckRow) (k : ℕ)
      → any (λ r. r.check_id == k && is_pinned incidents r) runs ≡ true
      → cascades (is_purgeable now days incidents runs) checks k ≡ false
  spared now days [] k h = refl
  spared now days (c ∷ cs) k h = ground (arith, spared now days cs k, at_check c k)

-- No pinned run goes with a check that is purged.
none_cascades :
    (now days : ℕ) (incidents : List Incident) (runs : List Run) (checks : List CheckRow)
    → any
        (λ r.
          is_pinned incidents r
          && cascades (is_purgeable now days incidents runs) checks r.check_id)
        runs
      ≡ false
none_cascades now days incidents runs checks =
    let p = is_purgeable now days incidents runs in
    let q =
      λ (r : Run) (c : CheckRow). is_pinned incidents r && (p c && c.check.id == r.check_id) in
    any_ext (λ r. is_pinned incidents r && cascades p checks r.check_id) (λ r. any (q r) checks)
      (λ r. sym (any_const (is_pinned incidents r) (λ c. p c && c.check.id == r.check_id) checks))
      runs
    ∙ any_swap q runs checks
    ∙ any_none (λ c. any (λ r. q r c) runs) (λ c. at_none now days incidents runs c) checks
  where
    at_none :
        (now days : ℕ) (incidents : List Incident) (runs : List Run) (c : CheckRow)
        → any
            (λ r.
              is_pinned incidents r
              && (is_purgeable now days incidents runs c && c.check.id == r.check_id))
            runs
          ≡ false
    at_none now days incidents runs c =
        let p = is_purgeable now days incidents runs c in
        let f = λ (r : Run). r.check_id == c.check.id && is_pinned incidents r in
        any_imp (λ r. is_pinned incidents r && (p && c.check.id == r.check_id)) (λ r. p && f r)
          (λ r h. ground arith) runs (any_const p f runs ∙ (ground arith))

passing_stay :
    (p d : Run → Bool) (xs : List Run)
    → any (λ r. p r && d r) xs ≡ false
    → filter p (filter (λ r. not (d r)) xs) ≡ filter p xs
passing_stay p d [] h = refl
passing_stay p d (x ∷ xs) h = ground (arith, passing_stay p d xs)

-- The opening run of an incident is pinned.
evidence_pins :
    (incidents : List Incident) (i : Incident) (runs : List Run)
    → ((r : Run) → pins r i ≡ true → is_pinned incidents r ≡ true)
    → has_evidence runs i ≡ true
    → any (λ r. r.check_id == i.check_id && is_pinned incidents r) runs ≡ true
evidence_pins incidents i runs m h =
    let p = λ (r : Run). r.id == i.opened_run_id && r.check_id == i.check_id in
    let q = λ (r : Run). r.check_id == i.check_id && is_pinned incidents r in
    elim (any q runs) as (λ b. any q runs ≡ b → b ≡ true) [
      | true ↦ λ e. refl
      | false ↦ λ e. ground (arith, any_imp p q (λ r t. opens incidents i r t (m r)) runs)
    ]
      refl
  where
    opens :
        (incidents : List Incident) (i : Incident) (r : Run)
        → (r.id == i.opened_run_id && r.check_id == i.check_id) ≡ true
        → (pins r i ≡ true → is_pinned incidents r ≡ true)
        → (r.check_id == i.check_id && is_pinned incidents r) ≡ true
    opens incidents i r t m = ground arith

incidents_stay :
    (now days : ℕ) (incidents : List Incident) (runs : List Run) (checks : List CheckRow)
    (is : List Incident)
    → ((r : Run) → is_pinned is r ≡ true → is_pinned incidents r ≡ true)
    → all (has_evidence runs) is ≡ true
    → filter (λ i. not (cascades (is_purgeable now days incidents runs) checks i.check_id)) is ≡ is
incidents_stay now days incidents runs checks [] m h = refl
incidents_stay now days incidents runs checks (i ∷ is) m h = ground (
  arith,
  spared incidents runs now days checks i.check_id,
  evidence_pins incidents i runs (λ r t. m r (first i is r t)),
  incidents_stay now days incidents runs checks is (λ r t. m r (later i is r t)),
)
  where
    first :
        (i : Incident) (is : List Incident) (r : Run)
        → pins r i ≡ true
        → is_pinned (i ∷ is) r ≡ true
    first i is r t = ground arith

    later :
        (i : Incident) (is : List Incident) (r : Run)
        → is_pinned is r ≡ true
        → is_pinned (i ∷ is) r ≡ true
    later i is r t = ground arith

purged_partition :
    (now days : ℕ) (incidents : List Incident) (runs : List Run) (checks : List CheckRow)
    → count (is_purgeable now days incidents runs) checks
        + count (is_deferred now days incidents runs) checks
      ≡ count (is_past_window now days) checks
purged_partition now days incidents runs [] = refl
purged_partition now days incidents runs (c ∷ cs) =
    ground (arith, purged_partition now days incidents runs cs)

-- The purge of the checks that git removed loses no incident history, where the opening run of each
-- incident is a run of its check: the incidents and the runs that they pin are all left, and each check
-- past the window is either purged or counted as deferred.
pub purge_removed_checks_keeps :
    (days now : ℕ) (incidents : List Incident) (checks : List CheckRow) (runs : List Run)
    → all (has_evidence runs) incidents ≡ true
    → ((purge_removed_checks days now incidents checks runs).incidents ≡ incidents)
      × (filter (is_pinned incidents) (purge_removed_checks days now incidents checks runs).runs
          ≡ filter (is_pinned incidents) runs)
      × ((purge_removed_checks days now incidents checks runs).purged
            + (purge_removed_checks days now incidents checks runs).deferred
          ≡ count (is_past_window now days) checks)
unfolding purge_removed_checks
purge_removed_checks_keeps days now incidents checks runs h = (
  incidents_stay now days incidents runs checks incidents (λ r t. t) h,
  passing_stay (is_pinned incidents)
      (λ r. cascades (is_purgeable now days incidents runs) checks r.check_id) runs
      (none_cascades now days incidents runs checks),
  purged_partition now days incidents runs checks,
)
