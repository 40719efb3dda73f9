-- ===== src/Schedule/Cadence.antt =====
-- The cadence that the predicate of runner/duePredicate.ts gives.
use synthwatch.Prelude.{ℕ, ◌+◌, ◌*◌, ◌≤◌, ◌<◌, some, true, false, ◌≡◌, arith}
use synthwatch.Schedule.{is_due, tick_slip_guard}

-- A check that is claimed `delay` after a mark, by no more than the guard and half its interval, is due
-- again one interval after the mark, and it is not due again within half an interval of the claim.
pub is_due_cadence :
    (mark delay elapsed interval_seconds : ℕ)
    → delay ≤ tick_slip_guard
    → 2 * delay ≤ interval_seconds * 1000
    → 2 * elapsed < interval_seconds * 1000
    → (is_due (mark + interval_seconds * 1000) interval_seconds (some (mark + delay)) ≡ true)
      × (is_due (mark + delay + elapsed) interval_seconds (some (mark + delay)) ≡ false)
unfolding is_due
is_due_cadence mark delay elapsed interval_seconds g h k = ground arith
