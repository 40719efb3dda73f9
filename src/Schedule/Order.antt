-- ===== src/Schedule/Order.antt =====
-- The order in which `findDueChecks` of runner/index.ts hands out the due checks.
use synthwatch.Prelude.{
  ℕ, ◌≡◌, refl, String, Option, none, some, Bool, true, false, ◌&&◌, List, [], ◌∷◌, arith,
}
use synthwatch.Schedule.{
  CheckRow, Cursor, Candidate, candidates, comes_before, insert_candidate, order_candidates,
  find_due_checks,
}

-- Each candidate comes before the next.
abbrev pub is_ordered : List Candidate → Bool
is_ordered [] = true
is_ordered (x ∷ []) = true
is_ordered (x ∷ y ∷ ys) = comes_before x y && is_ordered (y ∷ ys)

comes_before_total : (x y : Candidate) → comes_before x y ≡ false → comes_before y x ≡ true
unfolding comes_before
comes_before_total x y h = total x.id y.id x.last_run_at y.last_run_at h
  where
    total :
        (i j : ℕ) (s t : Option ℕ)
        → comes_before (record { id = i; last_run_at = s }) (record { id = j; last_run_at = t })
          ≡ false
        → comes_before (record { id = j; last_run_at = t }) (record { id = i; last_run_at = s })
          ≡ true
    total i j none none h = ground arith
    total i j none (some t) h = ground arith
    total i j (some s) none h = ground arith
    total i j (some s) (some t) h = ground arith

insert-ordered :
    (x : Candidate) (ys : List Candidate)
    → is_ordered ys ≡ true
    → is_ordered (insert_candidate x ys) ≡ true
unfolding insert_candidate
insert-ordered x [] h = refl
insert-ordered x (y ∷ []) h = ground (arith, comes_before_total x y)
insert-ordered x (y ∷ z ∷ zs) h =
    ground (arith, comes_before_total x y, comes_before_total x z, insert-ordered x (z ∷ zs))

order-ordered : (xs : List Candidate) → is_ordered (order_candidates xs) ≡ true
unfolding order_candidates
order-ordered [] = refl
order-ordered (x ∷ xs) = insert-ordered x (order_candidates xs) (order-ordered xs)

-- A tick hands out the longest-unserved check first: of two due checks that follow each other, the first
-- has never been served, or not later than the second, and of two equally served the lower id is first.
pub find_due_checks-ordered :
    (location : String) (now : ℕ) (cursors : List Cursor) (checks : List CheckRow)
    → is_ordered (find_due_checks location now cursors checks) ≡ true
unfolding find_due_checks
find_due_checks-ordered location now cursors checks =
    order-ordered (candidates location now cursors checks)
