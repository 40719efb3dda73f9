-- ===== src/StaleIncidents/Sweep.antt =====
-- What the sweep of runner/staleIncidents.ts does to the open incidents, and to those of live checks.
use synthwatch.Prelude.{
  sym, ◌∙◌, ℕ, ◌≤◌, ◌≡◌, refl, ap, none, Bool, true, false, ◌&&◌, List, [], ◌∷◌, ◌==◌, any, any_imp,
  any_and, count_zero-any, count, find?, if◌then◌else◌, is_some, length, arith, String,
}
use synthwatch.World.{Incident, World, update_where, open_for, get_open_incident}
use synthwatch.Schedule.{CheckRow, Cursor, selects, takes, claim}
use synthwatch.Schedule.Gate.{won_iff}
use synthwatch.StaleIncidents.{
  is_stopped, stops, is_stranded, strand_row, closed_rows, close_stranded_incidents,
}

same_check :
    (checks : List CheckRow) (j k : ℕ) → j ≡ k → any (stops j) checks ≡ any (stops k) checks
same_check checks j k e = ap (λ n. any (stops n) checks) e

-- The open incident of a check after the sweep.
swept_none :
    (checks : List CheckRow) (now k : ℕ) (is : List Incident)
    → any (stops k) checks ≡ true
    → find? (open_for k) (update_where (is_stranded checks) (strand_row now) is) ≡ none
unfolding update_where
swept_none checks now k [] h = refl
swept_none checks now k (i ∷ is) h =
    ground (arith, swept_none checks now k is, same_check checks i.check_id k)

swept_same :
    (checks : List CheckRow) (now k : ℕ) (is : List Incident)
    → any (stops k) checks ≡ false
    → find? (open_for k) (update_where (is_stranded checks) (strand_row now) is)
      ≡ find? (open_for k) is
unfolding update_where
swept_same checks now k [] h = refl
swept_same checks now k (i ∷ is) h =
    ground (arith, swept_same checks now k is, same_check checks i.check_id k)

any-find? : {A : Type 0} (p : A → Bool) (xs : List A) → is_some (find? p xs) ≡ any p xs
any-find? p [] = refl
any-find? p (x ∷ xs) = ground (arith, any-find? p xs)

empty_of_length : {A : Type 0} (xs : List A) → length xs ≡ 0 → xs ≡ []
empty_of_length [] h = refl
empty_of_length (x ∷ xs) h = ground arith

closed_rows-count :
    (checks : List CheckRow) (is : List Incident)
    → length (closed_rows checks is) ≡ count (is_stranded checks) is
unfolding closed_rows
closed_rows-count checks [] = refl
closed_rows-count checks (i ∷ is) =
    ground (arith, closed_rows-count checks is, any-find? (stops i.check_id) checks)

swept_count :
    (checks : List CheckRow) (now : ℕ) (is : List Incident)
    → count (is_stranded checks) (update_where (is_stranded checks) (strand_row now) is) ≡ 0
unfolding update_where
swept_count checks now [] = refl
swept_count checks now (i ∷ is) = ground (arith, swept_count checks now is)

-- The sweep closes the open incident of each check that is paused or archived, and of no other check; it
-- returns a row for each incident that it closes, and a second sweep closes nothing.
pub close_stranded_incidents_lem :
    (checks : List CheckRow) (w : World) (check_id : ℕ)
    → (get_open_incident check_id (close_stranded_incidents checks w).0
        ≡ (if any (stops check_id) checks then none else get_open_incident check_id w))
      × (length (close_stranded_incidents checks w).1 ≡ count (is_stranded checks) w.incidents)
      × ((close_stranded_incidents checks (close_stranded_incidents checks w).0).1 ≡ [])
unfolding close_stranded_incidents get_open_incident
close_stranded_incidents_lem checks w k = (
  elim (any (stops k) checks)
        as (λ b.
          (any (stops k) checks ≡ b)
          → find? (open_for k) (update_where (is_stranded checks) (strand_row w.now) w.incidents)
            ≡ (if b then none else find? (open_for k) w.incidents)) [
              | true ↦ swept_none checks w.now k w.incidents
              | false ↦ swept_same checks w.now k w.incidents
            ]
      refl,
  closed_rows-count checks w.incidents,
  empty_of_length _ (
      omega (
        arith,
        closed_rows-count checks (update_where (is_stranded checks) (strand_row w.now) w.incidents),
        swept_count checks w.now w.incidents,
      )),
)

-- A check of the due loop is not stopped, its id being the key of `checks`.
live_of_selected :
    (location : String) (now k : ℕ) (cur : Cursor) (cs : List CheckRow)
    → count (λ c. c.check.id == k) cs ≤ 1
    → (cur.check_id == k && any (λ c. selects location now c cur) cs) ≡ true
    → any (stops k) cs ≡ false
live_of_selected location now k cur [] one h = refl
live_of_selected location now k cur (c ∷ cs) one h = ground (
  arith,
  live_of_selected location now k cur cs,
  count_zero-any (λ x. x.check.id == k) cs,
  any_and (λ x. x.check.id == k) is_stopped cs,
  any_imp (λ x. selects location now x cur) (λ x. x.check.id == cur.check_id) (λ x t. ground arith)
      cs,
  key_is cs cur.check_id k,
)
  where
    key_is :
        (cs : List CheckRow) (j k : ℕ)
        → j ≡ k
        → any (λ x. x.check.id == j) cs ≡ any (λ x. x.check.id == k) cs
    key_is cs j k e = ap (λ n. any (λ x. x.check.id == n) cs) e

live_of_taken :
    (location : String) (now k : ℕ) (curs : List Cursor) (cs : List CheckRow)
    → count (λ c. c.check.id == k) cs ≤ 1
    → any (takes location now k cs) curs ≡ true
    → any (stops k) cs ≡ false
live_of_taken location now k [] cs one h = ground arith
live_of_taken location now k (cur ∷ curs) cs one h =
    ground (arith, live_of_selected location now k cur cs, live_of_taken location now k curs cs)

-- The sweep never closes the incident of a check that a tick can run, at any location and instant: the
-- check ids being the key, a check whose claim is won keeps its open incident.
pub close_stranded_incidents-claim :
    (location : String) (now check_id : ℕ) (cursors : List Cursor) (checks : List CheckRow)
    (w : World)
    → count (λ c. c.check.id == check_id) checks ≤ 1
    → is_some (claim location now check_id cursors checks).won ≡ true
    → get_open_incident check_id (close_stranded_incidents checks w).0
      ≡ get_open_incident check_id w
unfolding close_stranded_incidents get_open_incident
close_stranded_incidents-claim location now k cursors checks w one won =
    swept_same checks w.now k w.incidents (
      live_of_taken location now k cursors checks one
        (sym (won_iff k location now cursors checks) ∙ won))
