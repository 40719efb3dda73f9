-- ===== src/Schedule/Claims.antt =====
-- What `claim` of runner/index.ts does to the two tables.
use synthwatch.Prelude.{
  none, String, ℕ, ◌≡◌, refl, sym, ◌∙◌, ap, String, Bool, true, false, List, [], ◌∷◌, map, any,
  ◌==◌, find?, is_some, arith, if◌then◌else◌,
}
use synthwatch.Schedule.{
  CheckRow, Cursor, Claimed, mirror, stamp, selects, takes, claim_where, claim,
}
use synthwatch.Schedule.Gate.{won_iff}

-- The checks that the join finds due with a cursor.
abbrev pub is_due_cursor : String → ℕ → List CheckRow → Cursor → Bool
is_due_cursor location now checks cur = any (λ c. selects location now c cur) checks

mirror-selects :
    (location : String) (id now : ℕ) (cur : Cursor) (cs : List CheckRow)
    → is_due_cursor location now (map (mirror id now) cs) cur ≡ is_due_cursor location now cs cur
mirror-selects location id now cur [] = refl
mirror-selects location id now cur (c ∷ cs) = ground (arith, mirror-selects location id now cur cs)

stamp_none :
    (p : Cursor → Bool) (now : ℕ) (curs : List Cursor)
    → any p curs ≡ false
    → map (stamp p now) curs ≡ curs
stamp_none p now [] h = refl
stamp_none p now (c ∷ cs) h = ground (arith, stamp_none p now cs)

-- What a claim does to the tables, whether or not it is won.
module _ (location : String) (now id : ℕ) (cursors : List Cursor) (checks : List CheckRow) where
  pub claim-cursors :
      (claim location now id cursors checks).cursors
      ≡ map (stamp (takes location now id checks) now) cursors
  unfolding claim claim_where
  claim-cursors =
      elim (any (takes location now id checks) cursors)
          as (λ b.
            (any (takes location now id checks) cursors ≡ b)
            → (if◌then◌else◌ {A = Claimed} b
                (record {
                  cursors = map (stamp (takes location now id checks) now) cursors;
                  checks = map (mirror id now) checks;
                  won = find? (λ c. c.check.id == id) checks;
                })
                (record { cursors = cursors; checks = checks; won = none })).cursors
              ≡ map (stamp (takes location now id checks) now) cursors) [
                | true ↦ λ e. refl
                | false ↦ λ e. sym (stamp_none (takes location now id checks) now cursors e)
              ]
        refl

  pub claim-checks :
      (cur : Cursor)
      → is_due_cursor location now (claim location now id cursors checks).checks cur
        ≡ is_due_cursor location now checks cur
  unfolding claim claim_where
  claim-checks cur = ground (arith, mirror-selects location id now cur checks)

  pub claim_lost :
      (claim location now id cursors checks).won ≡ none
      → ((claim location now id cursors checks).cursors ≡ cursors)
        × ((claim location now id cursors checks).checks ≡ checks)
  unfolding claim claim_where
  claim_lost lost = rw (sym (won_iff id location now cursors checks) ∙ ap is_some lost) (refl, refl)
