-- ===== src/Schedule/Gate.antt =====
-- The pre-filter of a tick, `findDueChecks`, and the gate of a check, `claim`, of runner/index.ts.
use synthwatch.Prelude.{
  String, ℕ, ◌+◌, ◌*◌, ◌≤◌, any_and, any_imp, ◌≡◌, refl, sym, ◌∙◌, ap, String, some, Bool, true,
  false, ◌&&◌, ◌||◌, List, [], ◌∷◌, map, any, any-append, any_ext, any_swap, any-map, all, not,
  count, count_zero-any, ltb, ◌==◌, find?, is_some, arith, str_eq, if◌then◌else◌,
}
use synthwatch.Schedule.{
  CheckRow, Cursor, Candidate, Claimed, mirror, stamp, candidates_of, candidates, insert_candidate,
  order_candidates, find_due_checks, is_due, selects, takes, claim_where, claim,
}

any-insert :
    (id : ℕ) (x : Candidate) (ys : List Candidate)
    → any (λ c. c.id == id) (insert_candidate x ys) ≡ (x.id == id || any (λ c. c.id == id) ys)
unfolding insert_candidate
any-insert id x [] = ground arith
any-insert id x (y ∷ ys) = ground (arith, any-insert id x ys)

any-order :
    (id : ℕ) (xs : List Candidate)
    → any (λ c. c.id == id) (order_candidates xs) ≡ any (λ c. c.id == id) xs
unfolding order_candidates
any-order id [] = refl
any-order id (x ∷ xs) = ground (arith, any-order id xs, any-insert id x (order_candidates xs))

any-candidates_of :
    (id : ℕ) (location : String) (now : ℕ) (c : CheckRow) (curs : List Cursor)
    → any (λ x. x.id == id) (candidates_of location now c curs)
      ≡ any (λ cur. selects location now c cur && c.check.id == id) curs
unfolding candidates_of
any-candidates_of id location now c [] = refl
any-candidates_of id location now c (cur ∷ curs) =
    elim (selects location now c cur)
      as (λ b.
        any (λ x. x.id == id)
          (if b
            then record { id = c.check.id; last_run_at = cur.last_run_at }
              ∷ candidates_of location now c curs
            else candidates_of location now c curs)
        ≡ (b && c.check.id == id || any (λ k. selects location now c k && c.check.id == id) curs)) [
          | true ↦ ap (λ b. c.check.id == id || b) (any-candidates_of id location now c curs)
          | false ↦ any-candidates_of id location now c curs
        ]

any-candidates :
    (id : ℕ) (location : String) (now : ℕ) (curs : List Cursor) (cs : List CheckRow)
    → any (λ x. x.id == id) (candidates location now curs cs)
      ≡ any (λ c. any (λ cur. selects location now c cur && c.check.id == id) curs) cs
unfolding candidates
any-candidates id location now curs [] = refl
any-candidates id location now curs (c ∷ cs) =
    any-append (λ x. x.id == id) (candidates_of location now c curs)
      (candidates location now curs cs)
    ∙ ap (λ b. b || any (λ x. x.id == id) (candidates location now curs cs))
        (any-candidates_of id location now c curs)
    ∙ ap (λ b. any (λ cur. selects location now c cur && c.check.id == id) curs || b)
        (any-candidates id location now curs cs)

-- A cursor that a check joins has the check's id.
same_id :
    (id : ℕ) (location : String) (now : ℕ) (cur : Cursor) (cs : List CheckRow)
    → any (λ c. selects location now c cur && c.check.id == id) cs
      ≡ (cur.check_id == id && any (λ c. selects location now c cur) cs)
same_id id location now cur [] = ground arith
same_id id location now cur (c ∷ cs) = ground (arith, same_id id location now cur cs)

pub takes_ext :
    (id : ℕ) (location : String) (now : ℕ) (curs : List Cursor) (cs : List CheckRow)
    → any (λ x. x.id == id) (candidates location now curs cs) ≡ any (takes location now id cs) curs
takes_ext id location now curs cs =
    any-candidates id location now curs cs
    ∙ any_swap (λ c cur. selects location now c cur && c.check.id == id) cs curs
    ∙ any_ext (λ cur. any (λ c. selects location now c cur && c.check.id == id) cs)
        (takes location now id cs) (λ cur. same_id id location now cur cs) curs

-- A cursor that can be taken is of a check that is there.
takes-find? :
    (id : ℕ) (location : String) (now : ℕ) (cur : Cursor) (cs : List CheckRow)
    → takes location now id cs cur ≡ true
    → is_some (find? (λ c. c.check.id == id) cs) ≡ true
takes-find? id location now cur [] h = ground arith
takes-find? id location now cur (c ∷ cs) h = ground (arith, takes-find? id location now cur cs)

taken_check :
    (id : ℕ) (location : String) (now : ℕ) (curs : List Cursor) (cs : List CheckRow)
    → any (takes location now id cs) curs ≡ true
    → is_some (find? (λ c. c.check.id == id) cs) ≡ true
taken_check id location now [] cs h = ground arith
taken_check id location now (cur ∷ curs) cs h =
    ground (arith, takes-find? id location now cur cs, taken_check id location now curs cs)

pub won_iff :
    (id : ℕ) (location : String) (now : ℕ) (curs : List Cursor) (cs : List CheckRow)
    → is_some (claim location now id curs cs).won ≡ any (takes location now id cs) curs
unfolding claim claim_where
won_iff id location now curs cs = ground (arith, taken_check id location now curs cs)

-- The pre-filter and the gate agree: whatever the two tables hold, a check is won by the claim of an
-- instant exactly if `findDueChecks` lists it at that instant.
pub claim-find_due_checks :
    (location : String) (now id : ℕ) (cursors : List Cursor) (checks : List CheckRow)
    → is_some (claim location now id cursors checks).won
      ≡ any (λ x. x.id == id) (find_due_checks location now cursors checks)
unfolding find_due_checks
claim-find_due_checks location now id cursors checks =
    won_iff id location now cursors checks
    ∙ sym (takes_ext id location now cursors checks)
    ∙ sym (any-order id (candidates location now cursors checks))

-- The rows of the cursor table under one key.
abbrev pub has_key : String → ℕ → Cursor → Bool
has_key location id cur = cur.check_id == id && str_eq cur.location location

-- The interval of a check is more than twice the time between the two instants.
abbrev pub outlasts : ℕ → ℕ → ℕ → CheckRow → Bool
outlasts id now later c =
    not (c.check.id == id) || ltb (2 * later) (2 * now + c.interval_seconds * 1000)

stamped_rests :
    (location : String) (id now later : ℕ) (cur : Cursor) (cs : List CheckRow)
    → all (outlasts id now later) cs ≡ true
    → takes location later id (map (mirror id now) cs) (record cur { last_run_at = some now })
      ≡ false
unfolding is_due
stamped_rests location id now later cur [] h = ground arith
stamped_rests location id now later cur (c ∷ cs) h =
    ground (arith, stamped_rests location id now later cur cs)

taken_has_key :
    (location : String) (id now : ℕ) (cur : Cursor) (cs : List CheckRow)
    → takes location now id cs cur ≡ true
    → has_key location id cur ≡ true
taken_has_key location id now cur [] h = ground arith
taken_has_key location id now cur (c ∷ cs) h = ground (arith, taken_has_key location id now cur cs)

-- What passes the first of the tests, and leaves the table's other rows under the key.
alone :
    (p k : Cursor → Bool)
    → ((x : Cursor) → p x ≡ true → k x ≡ true)
    → (xs : List Cursor) → count k xs ≤ 1
    → any p xs ≡ true
    → any (λ x. k x && not (p x)) xs ≡ false
alone p k h [] one some_p = refl
alone p k h (x ∷ xs) one some_p = ground (
  arith,
  h x,
  alone p k h xs,
  count_zero-any k xs,
  any_and k (λ y. not (p y)) xs,
  any_imp p k h xs,
)

rests :
    (location : String) (id now later : ℕ) (cur : Cursor) (cs : List CheckRow)
    → all (outlasts id now later) cs ≡ true
    → takes location later id (map (mirror id now) cs) (stamp (takes location now id cs) now cur)
      ≡ true
    → (has_key location id cur && not (takes location now id cs cur)) ≡ true
rests location id now later cur cs h =
    elim (takes location now id cs cur)
      as (λ b.
        takes location later id (map (mirror id now) cs)
            (if b then record cur { last_run_at = some now } else cur)
          ≡ true
        → (has_key location id cur && not b) ≡ true) [
          | true ↦ λ t. ground (arith, stamped_rests location id now later cur cs)
          | false ↦
              λ t. ground (arith, taken_has_key location id later cur (map (mirror id now) cs))
        ]

claim_won :
    (p : Cursor → Bool) (now id : ℕ) (cursors : List Cursor) (checks : List CheckRow)
    → any p cursors ≡ true
    → claim_where p now id cursors checks ≡ record {
      cursors = map (stamp p now) cursors;
      checks = map (mirror id now) checks;
      won = find? (λ c. c.check.id == id) checks;
    }
unfolding claim_where
claim_won p now id cursors checks e = rw e refl

-- Two claims of a check, one after the other.
abbrev pub claim_twice : String → ℕ → ℕ → ℕ → List Cursor → List CheckRow → Claimed
claim_twice location now later id cursors checks =
    let first = claim location now id cursors checks in
    claim location later id first.cursors first.checks

-- One run for a slot: `(check_id, location)` being the key of the cursors, when one replica has won a
-- check, another that tries within less than half of the check's interval wins nothing.
pub claim_again :
    (location : String) (now later id : ℕ) (cursors : List Cursor) (checks : List CheckRow)
    → count (has_key location id) cursors ≤ 1
    → all (outlasts id now later) checks ≡ true
    → is_some (claim location now id cursors checks).won ≡ true
    → is_some (claim_twice location now later id cursors checks).won ≡ false
unfolding claim
claim_again location now later id cursors checks one h won =
    let p = takes location now id checks in
    let first = claim location now id cursors checks in
    won_iff id location later first.cursors first.checks
    ∙ ap (λ s. any (takes location later id s.checks) s.cursors)
        (claim_won p now id cursors checks (sym (won_iff id location now cursors checks) ∙ won))
    ∙ any-map (takes location later id (map (mirror id now) checks)) (stamp p now) cursors
    ∙ any_imp (λ cur. takes location later id (map (mirror id now) checks) (stamp p now cur))
        (λ cur. has_key location id cur && not (p cur))
        (λ cur. rests location id now later cur checks h) cursors
        (alone p (has_key location id) (λ cur. taken_has_key location id now cur checks) cursors one
          (sym (won_iff id location now cursors checks) ∙ won))
