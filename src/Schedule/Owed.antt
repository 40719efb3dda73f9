-- ===== src/Schedule/Owed.antt =====
-- The cursors that the claim and findDueChecks of runner/index.ts take to be due.
use synthwatch.Prelude.{
  ℕ, ◌+◌, ◌*◌, min, ◌≡◌, refl, ap, ◌∙◌, String, Option, none, some, Bool, true, false, ◌&&◌, List,
  [], ◌∷◌, map, any, any_ext, any-map, not, is_some, if◌then◌else◌, ltb, ◌==◌, str_eq, arith, find?,
}
use synthwatch.Schedule.{
  CheckRow, Cursor, Claimed, is_due, takes, stamp, mirror, claim, claim_where,
}
use synthwatch.Schedule.Claims.{is_due_cursor, claim-cursors, claim-checks}

-- The time of a check has come: it never ran here, or its interval is over, but for half of it and for at
-- most two and a half minutes.
abbrev pub has_come : ℕ → ℕ → Option ℕ → Bool
has_come now interval_seconds none = true
has_come now interval_seconds (some last) =
    not (ltb (now + min 150000 (interval_seconds * 500)) (last + interval_seconds * 1000))

-- A cursor of the location whose check is enabled, not archived, and due.
abbrev pub is_owed : String → ℕ → List CheckRow → Cursor → Bool
is_owed location now checks cur =
    str_eq cur.location location
    && any
        (λ c.
          c.check.id == cur.check_id
          && (not (is_some c.archived_at)
              && (c.enabled && has_come now c.interval_seconds cur.last_run_at)))
        checks

has_come-is_due :
    (now interval : ℕ) (last : Option ℕ) → has_come now interval last ≡ is_due now interval last
unfolding is_due
has_come-is_due now interval none = refl
has_come-is_due now interval (some last) = ground arith

pub is_owed-is_due_cursor :
    (location : String) (now : ℕ) (checks : List CheckRow) (cur : Cursor)
    → is_owed location now checks cur ≡ is_due_cursor location now checks cur
is_owed-is_due_cursor location now [] cur = ground arith
is_owed-is_due_cursor location now (c ∷ cs) cur = ground (
  arith,
  has_come-is_due now c.interval_seconds cur.last_run_at,
  is_owed-is_due_cursor location now cs cur,
)

find?-passes :
    (p : CheckRow → Bool) (cs : List CheckRow) (c : CheckRow) → find? p cs ≡ some c → p c ≡ true
find?-passes p [] c h = cc
find?-passes p (x ∷ cs) c h = ground (arith, find?-passes p cs c)

-- The check that a claim wins is the one that it is for.
pub claim-won_id :
    (location : String) (now id : ℕ) (cursors : List Cursor) (checks : List CheckRow) (c : CheckRow)
    → (claim location now id cursors checks).won ≡ some c
    → (c.check.id == id) ≡ true
unfolding claim claim_where
claim-won_id location now id cursors checks c h =
    elim (any (takes location now id checks) cursors)
        as (λ b.
          (if◌then◌else◌ {A = Claimed} b
              (record {
                cursors = map (stamp (takes location now id checks) now) cursors;
                checks = map (mirror id now) checks;
                won = find? (λ c. c.check.id == id) checks;
              })
              (record { cursors = cursors; checks = checks; won = none })).won
            ≡ some c
          → (c.check.id == id) ≡ true) [
            | true ↦ λ e. find?-passes (λ c. c.check.id == id) checks c e
            | false ↦ λ e. cc
          ]
      h

-- A claim of another check leaves a due check due.
pub others_due :
    (location : String) (now x id : ℕ) (cursors : List Cursor) (checks : List CheckRow)
    → (x == id) ≡ false
    → any
        (takes location now id (claim location now x cursors checks).checks)
        (claim location now x cursors checks).cursors
      ≡ any (takes location now id checks) cursors
others_due location now x id cursors checks d =
    let t = claim location now x cursors checks in
    ap (any (takes location now id t.checks)) (claim-cursors location now x cursors checks)
    ∙ any-map (takes location now id t.checks) (stamp (takes location now x checks) now) cursors
    ∙ any_ext (λ cur. takes location now id t.checks (stamp (takes location now x checks) now cur))
        (takes location now id checks) same cursors
  where
    same :
        (cur : Cursor)
        → takes location now id
            (claim location now x cursors checks).checks
            (stamp (takes location now x checks) now cur)
          ≡ takes location now id checks cur
    same cur =
        elim (takes location now x checks cur)
            as (λ b.
              (takes location now x checks cur ≡ b)
              → takes location now id (claim location now x cursors checks).checks
                  (if b then record cur { last_run_at = some now } else cur)
                ≡ takes location now id checks cur) [
                  | true ↦ λ e. ground arith
                  | false ↦ λ e.
                      ap (λ b. cur.check_id == id && b)
                        (claim-checks location now x cursors checks cur)
                ]
          refl
