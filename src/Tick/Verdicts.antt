-- ===== src/Tick/Verdicts.antt =====
-- The rows that a run of the loop in `main` of runner/index.ts leaves in `runs`.
use synthwatch.Prelude.{
  ℕ, ◌≤◌, ◌≡◌, refl, sym, ap, ◌∙◌, String, Option, none, some, Bool, true, false, ◌&&◌, ◌||◌, List,
  [], ◌∷◌, map, any, Bool-cases, inl, inr, not, is_some, if◌then◌else◌, ltb, ◌==◌, str_eq, eq_refl,
  arith, suc, leb, ◌≢◌,
}
use synthwatch.Types.{Check, Run, Status, pass, warn, fail, error, infra_error, running}
use synthwatch.PerfBudget.{perf_budget_verdict_running}
use synthwatch.SideEffects.{supersede_row}
use synthwatch.SideEffects.Rows.{apply_run_side_effects-KeepsRows}
use synthwatch.Schedule.{CheckRow, Cursor, Candidate, claim}
use synthwatch.Tick.{
  Surroundings, Fleet, run_one, after_due_claim, due_loop, is_in_flight, set_status, outcome_of,
  final_status,
}

-- A scheduled run of the check at the location that has a verdict, started at the instant, under an id that was
-- given out between two states of the sequence.
abbrev pub is_turn : String → ℕ → ℕ → ℕ → ℕ → Run → Bool
is_turn location now first next check_id r =
    r.check_id == check_id
    && str_eq r.location location
    && (r.started_at == now
        && (leb first r.id && ltb r.id next && (not r.sandbox && not (is_in_flight r.status))))

-- Each run that an executor finishes has a verdict.
abbrev pub Settles : Surroundings → Type 0
Settles env = (check : Check) (id : ℕ) → (outcome_of (env.execute check id)).status ≢ running

turn-stable :
    (location : String) (now first next check_id original by : ℕ) (r : Run)
    → is_turn location now first next check_id (supersede_row original by r)
      ≡ is_turn location now first next check_id r
turn-stable location now first next check_id original by r = ground arith

or_right : (a b : Bool) → b ≡ true → (a || b) ≡ true
or_right a b k = ground (arith, k)

-- The status of a new run reaches no earlier row.
turn-status :
    (location : String) (now first next check_id : ℕ) (status : Status) (r : Run)
    → is_turn location now first next check_id r ≡ true
    → is_turn location now first (suc next) check_id (set_status next status r) ≡ true
turn-status location now first next check_id status r h =
    elim (r.id == next)
        as (λ b.
          ((r.id == next) ≡ b)
          → is_turn location now first (suc next) check_id
              (if b then record r { status = status } else r)
            ≡ true) [ true ↦ λ e. ground (arith, h, e) | false ↦ λ e. ground (arith, h) ]
      refl

turns-status :
    (location : String) (now first next check_id : ℕ) (status : Status) (runs : List Run)
    → any (is_turn location now first next check_id) runs ≡ true
    → any (is_turn location now first (suc next) check_id) (map (set_status next status) runs)
      ≡ true
turns-status location now first next check_id status [] h = h
turns-status location now first next check_id status (r ∷ runs) h =
    elim (Bool-cases (is_turn location now first next check_id r)) [
      | inl e ↦
          ap
            (λ b.
              b
              || any (is_turn location now first (suc next) check_id)
                  (map (set_status next status) runs))
            (turn-status location now first next check_id status r e)
      | inr e ↦ or_right _ _ (
          turns-status location now first next check_id status runs
            (sym (ap (λ b. b || any (is_turn location now first next check_id) runs) e) ∙ h))
    ]

not_in_flight : (s : Status) → s ≢ running → is_in_flight s ≡ false
not_in_flight pass h = refl
not_in_flight warn h = refl
not_in_flight fail h = refl
not_in_flight error h = refl
not_in_flight infra_error h = refl
not_in_flight running h = absurd (h refl)

final_status-Settles :
    (env : Surroundings) (check : Check) (id : ℕ)
    → Settles env
    → is_in_flight (final_status env.location check (env.execute check id)) ≡ false
unfolding final_status
final_status-Settles env check id h =
    not_in_flight _ (λ e. h check id (perf_budget_verdict_running check _ _ _ env.location e))

module _ (env : Surroundings) (settles : Settles env) where
  -- A run of the loop is a turn of its check, and keeps the earlier turns.
  run_one-turns :
      (check : Check) (f : Fleet) (first : ℕ)
      → first ≤ f.next_run_id
      → any
          (is_turn env.location f.effects.world.now first (suc f.next_run_id) check.id)
          (run_one env check false none f).effects.world.runs
        ≡ true
  unfolding run_one
  run_one-turns check f first h =
      apply_run_side_effects-KeepsRows
        (is_turn env.location f.effects.world.now first (suc f.next_run_id) check.id)
        (turn-stable env.location f.effects.world.now first (suc f.next_run_id) check.id)
        env.signals env.env env.send _ _ _ check _ _ _
        (ground
          (arith, eq_refl env.location, final_status-Settles env check f.next_run_id settles, h))

  run_one-keeps :
      (check : Check) (f : Fleet) (now first id : ℕ)
      → any (is_turn env.location now first f.next_run_id id) f.effects.world.runs ≡ true
      → any
          (is_turn env.location now first (suc f.next_run_id) id)
          (run_one env check false none f).effects.world.runs
        ≡ true
  unfolding run_one
  run_one-keeps check f now first id h =
      apply_run_side_effects-KeepsRows (is_turn env.location now first (suc f.next_run_id) id)
        (turn-stable env.location now first (suc f.next_run_id) id) env.signals env.env env.send _ _
        _ check _ _ _
        (or_right _ _
          (turns-status env.location now first f.next_run_id id _ f.effects.world.runs h))

  -- The turns of a check in the table of a state.
  abbrev pub turns : ℕ → ℕ → ℕ → Fleet → Bool
  turns now first id f = any (is_turn env.location now first f.next_run_id id) f.effects.world.runs

  pub after_claim-turns :
      (f : Fleet) (cursors : List Cursor) (checks : List CheckRow) (won : Option CheckRow)
      (first id : ℕ)
      → first ≤ f.next_run_id
      → is_some won ≡ true
      → ((c : CheckRow) → won ≡ some c → (c.check.id == id) ≡ true)
      → turns f.effects.world.now first id
          (after_due_claim env f (record { cursors = cursors; checks = checks; won = won }))
        ≡ true
  unfolding after_due_claim run_one
  after_claim-turns f cursors checks none first id n h k = cc
  after_claim-turns f cursors checks (some c) first id n h k =
      let g = record f { cursors = cursors; checks = checks } in
      ap
        (λ i.
          any (is_turn env.location f.effects.world.now first (suc f.next_run_id) i)
            (run_one env c.check false none g).effects.world.runs)
        (sym (eq_of c.check.id id (k c refl)))
      ∙ run_one-turns c.check g first n
    where
      eq_of : (a b : ℕ) → (a == b) ≡ true → a ≡ b
      eq_of a b e = ground (arith, e)

  pub after_claim-keeps :
      (f : Fleet) (cursors : List Cursor) (checks : List CheckRow) (won : Option CheckRow)
      (now first id : ℕ)
      → let g = after_due_claim env f (record { cursors = cursors; checks = checks; won = won }) in
        (f.next_run_id ≤ g.next_run_id)
        × (turns now first id f ≡ true → turns now first id g ≡ true)
  unfolding after_due_claim run_one
  after_claim-keeps f cursors checks none now first id = (omega arith, λ h. h)
  after_claim-keeps f cursors checks (some c) now first id = (
    omega arith,
    λ h. run_one-keeps c.check (record f { cursors = cursors; checks = checks }) now first id h,
  )

  pub due_loop-keeps :
      (xs : List Candidate) (f : Fleet) (now first id : ℕ)
      → turns now first id f ≡ true
      → turns now first id (due_loop env xs f) ≡ true
  unfolding due_loop
  due_loop-keeps [] f now first id h = h
  due_loop-keeps (x ∷ xs) f now first id h =
      let t = claim env.location f.effects.world.now x.id f.cursors f.checks in
      due_loop-keeps xs (after_due_claim env f t) now first id
        ((after_claim-keeps f t.cursors t.checks t.won now first id).1 h)
