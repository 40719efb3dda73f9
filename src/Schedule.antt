-- ===== src/Schedule.antt =====
-- runner/duePredicate.ts and the claims of runner/index.ts: which checks of a location are due, in which
-- order, and which of several replicas runs one. A time is a number of milliseconds.
pub mod Cadence
pub mod Claims
pub mod Gate
pub mod Order
pub mod Owed
use synthwatch.Prelude.{
  ℕ, ◌+◌, ◌*◌, min, String, Option, none, some, Bool, true, false, ◌&&◌, ◌||◌, List, [], ◌∷◌, ◌++◌,
  map, any, if◌then◌else◌, ltb, leb, ◌==◌, not, str_eq, find?, is_some,
}
use synthwatch.Types.{Check}

-- A row of `checks`: what Types.antt has of it, with what the tick reads.
pub record CheckRow : Type 0 where
  pub check : Check
  pub enabled : Bool
  pub archived_at : Option ℕ
  pub removed_at : Option ℕ
  pub interval_seconds : ℕ
  pub last_run_at : Option ℕ

-- A row of `check_locations`.
pub record Cursor : Type 0 where
  pub check_id : ℕ
  pub location : String
  pub last_run_at : Option ℕ

-- TICK_SLIP_GUARD_S
abbrev pub tick_slip_guard : ℕ
tick_slip_guard = 150000

-- `LEAST(TICK_SLIP_GUARD_S, interval_seconds / 2.0)`
abbrev pub slip_guard : ℕ → ℕ
slip_guard interval_seconds = min tick_slip_guard (interval_seconds * 500)

-- DUE_PREDICATE_SQL, with the two sides of the comparison moved to avoid a subtraction.
unfoldable pub is_due : ℕ → ℕ → Option ℕ → Bool
is_due now interval_seconds none = true
is_due now interval_seconds (some last) =
    leb (last + interval_seconds * 1000) (now + slip_guard interval_seconds)

-- `c.enabled AND c.archived_at IS NULL`
abbrev pub is_running : CheckRow → Bool
is_running c = c.enabled && not (is_some c.archived_at)

-- The join of a check and a cursor of the location.
abbrev pub joins : String → CheckRow → Cursor → Bool
joins location c cur = cur.check_id == c.check.id && str_eq cur.location location

-- The row of the join that `findDueChecks` selects.
abbrev pub selects : String → ℕ → CheckRow → Cursor → Bool
selects location now c cur =
    joins location c cur && (is_running c && is_due now c.interval_seconds cur.last_run_at)

-- A candidate with the cursor that it is ordered by.
pub record Candidate : Type 0 where
  pub id : ℕ
  pub last_run_at : Option ℕ

pub candidates_of : String → ℕ → CheckRow → List Cursor → List Candidate
candidates_of location now c [] = []
candidates_of location now c (cur ∷ curs) =
    if selects location now c cur
    then record { id = c.check.id; last_run_at = cur.last_run_at }
      ∷ candidates_of location now c curs
    else candidates_of location now c curs

pub candidates : String → ℕ → List Cursor → List CheckRow → List Candidate
unfolding candidates_of
candidates location now cursors [] = []
candidates location now cursors (c ∷ cs) =
    candidates_of location now c cursors ++ candidates location now cursors cs

-- `ORDER BY cl.last_run_at ASC NULLS FIRST, c.id ASC`
pub comes_before : Candidate → Candidate → Bool
comes_before a b = precedes a.id b.id a.last_run_at b.last_run_at
  where
    precedes : ℕ → ℕ → Option ℕ → Option ℕ → Bool
    precedes i j none none = leb i j
    precedes i j none (some t) = true
    precedes i j (some s) none = false
    precedes i j (some s) (some t) = ltb s t || s == t && leb i j

pub insert_candidate : Candidate → List Candidate → List Candidate
unfolding comes_before
insert_candidate x [] = x ∷ []
insert_candidate x (y ∷ ys) = if comes_before x y then x ∷ y ∷ ys else y ∷ insert_candidate x ys

pub order_candidates : List Candidate → List Candidate
unfolding insert_candidate
order_candidates [] = []
order_candidates (x ∷ xs) = insert_candidate x (order_candidates xs)

-- `findDueChecks`
pub find_due_checks : String → ℕ → List Cursor → List CheckRow → List Candidate
unfolding candidates order_candidates
find_due_checks location now cursors checks =
    order_candidates (candidates location now cursors checks)

-- The cursor that the claim of a check may take.
abbrev pub takes : String → ℕ → ℕ → List CheckRow → Cursor → Bool
takes location now id checks cur =
    cur.check_id == id && any (λ c. selects location now c cur) checks

abbrev pub stamp : (Cursor → Bool) → ℕ → Cursor → Cursor
stamp p now cur = if p cur then record cur { last_run_at = some now } else cur

abbrev pub mirror : ℕ → ℕ → CheckRow → CheckRow
mirror id now c = if c.check.id == id then record c { last_run_at = some now } else c

-- The tables that a claim writes, and the check that it has won.
pub record Claimed : Type 0 where
  pub cursors : List Cursor
  pub checks : List CheckRow
  pub won : Option CheckRow

-- The three parts of the claiming statement, for the cursors of a test.
unfoldable pub claim_where : (Cursor → Bool) → ℕ → ℕ → List Cursor → List CheckRow → Claimed
claim_where p now id cursors checks =
    if any p cursors
    then record {
      cursors = map (stamp p now) cursors;
      checks = map (mirror id now) checks;
      won = find? (λ c. c.check.id == id) checks;
    }
    else record { cursors = cursors; checks = checks; won = none }

-- `claim`
unfoldable pub claim : String → ℕ → ℕ → List Cursor → List CheckRow → Claimed
unfolding claim_where
claim location now id cursors checks =
    claim_where (takes location now id checks) now id cursors checks

-- The cursor that a forced claim may take.
abbrev pub force_takes : String → Bool → ℕ → List CheckRow → Cursor → Bool
force_takes location sandbox id checks cur =
    cur.check_id == id
    && any
        (λ c.
          joins location c cur
          && ((c.enabled || sandbox) && (not (is_some c.archived_at) || sandbox)))
        checks

-- `forceClaim`
pub force_claim : String → Bool → ℕ → ℕ → List Cursor → List CheckRow → Claimed
unfolding claim_where
force_claim location sandbox now id cursors checks =
    claim_where (force_takes location sandbox id checks) now id cursors checks
