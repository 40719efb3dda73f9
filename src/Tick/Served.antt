-- ===== src/Tick/Served.antt =====
-- The runs that the loop over the due checks in `main` of runner/index.ts starts.
use synthwatch.Prelude.{
  ℕ, ◌≤◌, ◌≡◌, refl, sym, ap, ◌∙◌, String, Bool, true, false, ◌||◌, List, [], ◌∷◌, map, any, all,
  fun_ext, Bool-cases, inl, inr, not, ◌==◌, arith,
}
use synthwatch.Types.{Run}
use synthwatch.Schedule.{CheckRow, Cursor, Candidate, takes, stamp, claim, find_due_checks}
use synthwatch.Schedule.Gate.{won_iff, claim-find_due_checks}
use synthwatch.Schedule.Claims.{is_due_cursor}
use synthwatch.Tick.{Surroundings, Fleet, after_due_claim, due_loop}
use synthwatch.Tick.Loop.{turn, due_loop-stamps}
use synthwatch.Schedule.Owed.{is_owed, is_owed-is_due_cursor, claim-won_id, others_due}
use synthwatch.Tick.Verdicts.{
  is_turn, Settles, turns, after_claim-turns, after_claim-keeps, due_loop-keeps,
}

-- Each candidate that is due when the loop starts gets its turn.
due_loop-turns :
    (env : Surroundings) (settles : Settles env) (xs : List Candidate) (f : Fleet) (first id : ℕ)
    → first ≤ f.next_run_id
    → any (λ x. x.id == id) xs ≡ true
    → any (takes env.location f.effects.world.now id f.checks) f.cursors ≡ true
    → turns env settles f.effects.world.now first id (due_loop env xs f) ≡ true
unfolding due_loop
due_loop-turns env settles [] f first id n m h = cc
due_loop-turns env settles (x ∷ xs) f first id n m h =
    let now = f.effects.world.now in
    let l = env.location in
    let t = claim l now x.id f.cursors f.checks in
    let g = after_due_claim env f t in
    let (cs, ks, ns) = turn env f x.id in
    elim (x.id == id)
        as (λ b. ((x.id == id) ≡ b) → turns env settles now first id (due_loop env xs g) ≡ true) [
          | true ↦ λ e. due_loop-keeps env settles xs g now first id (
              after_claim-turns env settles f t.cursors t.checks t.won first id n
                (won_iff x.id l now f.cursors f.checks
                  ∙ ap (λ i. any (takes l now i f.checks) f.cursors) (ground (arith, e))
                  ∙ h)
                (λ c w. ground (arith, e, claim-won_id l now x.id f.cursors f.checks c w)))
          | false ↦ λ e.
              ap (λ i. turns env settles i first id (due_loop env xs g)) (sym ns)
              ∙ due_loop-turns env settles xs g first id
                  (ground (
                    arith,
                    n,
                    (after_claim-keeps env settles f t.cursors t.checks t.won now first id).0,
                  ))
                  (ground (arith, m, e))
                  (ap (λ i. any (takes l i id g.checks) g.cursors) ns
                    ∙ ap (λ k. any (takes l now id k) g.cursors) ks
                    ∙ ap (any (takes l now id t.checks)) cs
                    ∙ others_due l now x.id id f.cursors f.checks e
                    ∙ h)
        ]
      refl

-- A cursor that was due has a turn of its check in the table.
abbrev pub has_turn : String → ℕ → ℕ → ℕ → List CheckRow → List Run → Cursor → Bool
has_turn location now first next checks runs cur =
    not (is_owed location now checks cur) || any (is_turn location now first next cur.check_id) runs

module _ (env : Surroundings) (settles : Settles env) (f : Fleet) where
  found : List Candidate
  found = find_due_checks env.location f.effects.world.now f.cursors f.checks

  taken : Cursor → Bool
  taken cur = any (takes env.location f.effects.world.now cur.check_id f.checks) f.cursors

  cursor_turns :
      (cur : Cursor)
      → (is_due_cursor env.location f.effects.world.now f.checks cur ≡ true → taken cur ≡ true)
      → has_turn env.location f.effects.world.now f.next_run_id
          (due_loop env found f).next_run_id
          f.checks
          (due_loop env found f).effects.world.runs
          cur
        ≡ true
  unfolding found taken
  cursor_turns cur h =
      let now = f.effects.world.now in
      let l = env.location in
      elim (Bool-cases (is_due_cursor l now f.checks cur)) [
        | inl e ↦ ground (
          arith,
          due_loop-turns env settles found f f.next_run_id cur.check_id (omega arith)
              (sym (claim-find_due_checks l now cur.check_id f.cursors f.checks)
                ∙ won_iff cur.check_id l now f.cursors f.checks
                ∙ h e)
              (h e),
        )
        | inr e ↦ ground (arith, is_owed-is_due_cursor l now f.checks cur, e)
      ]

  all_turns :
      (cs : List Cursor)
      → ((p : Cursor → Bool) → any p cs ≡ true → any p f.cursors ≡ true)
      → all
          (has_turn env.location f.effects.world.now f.next_run_id
            (due_loop env found f).next_run_id
            f.checks
            (due_loop env found f).effects.world.runs)
          cs
        ≡ true
  unfolding taken
  all_turns [] h = refl
  all_turns (cur ∷ cs) h = ground (
    arith,
    cursor_turns cur
        (λ e. h (takes env.location f.effects.world.now cur.check_id f.checks) (ground (arith, e))),
    all_turns cs (λ p k. h p (ground (arith, k))),
  )

-- No due check is starved within a tick that ends, when each run that an executor finishes has a verdict. After
-- the loop over what `findDueChecks` found, each cursor of this location that was due has a scheduled run of
-- its check in the table that has a verdict, at this location, started at the tick's instant under an id that
-- the loop gave out; the cursors that were due are at that instant; and no other cursor has moved. Due is a
-- check that is enabled and not archived, and that never ran here or whose interval is over, but for half of
-- it and for at most two and a half minutes.
pub due_loop_serves :
    (env : Surroundings)
    → Settles env
    → (f : Fleet)
    → let now = f.effects.world.now in
      let g = due_loop env (find_due_checks env.location now f.cursors f.checks) f in
      (all
          (has_turn env.location now f.next_run_id g.next_run_id f.checks g.effects.world.runs)
          f.cursors
        ≡ true)
      × (g.cursors ≡ map (stamp (is_owed env.location now f.checks) now) f.cursors)
unfolding found
due_loop_serves env settles f = (
  all_turns env settles f f.cursors (λ p k. k),
  due_loop-stamps env f
      ∙ ap (λ p. map (stamp p f.effects.world.now) f.cursors)
          (fun_ext
            (λ cur. sym (is_owed-is_due_cursor env.location f.effects.world.now f.checks cur))),
)
