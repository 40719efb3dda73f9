-- ===== src/Tick/Loop.antt =====
-- The loop over the due checks in `main` of runner/index.ts: what it serves.
use synthwatch.Prelude.{
  ℕ, ◌≡◌, refl, sym, ap, ◌∙◌, String, Option, none, some, Bool, true, false, ◌&&◌, ◌||◌, List, [],
  ◌∷◌, map, any, all, not, if◌then◌else◌, ◌==◌, arith,
}
use synthwatch.Schedule.{CheckRow, Cursor, Candidate, find_due_checks, takes, stamp, claim}
use synthwatch.Schedule.Gate.{claim-find_due_checks, won_iff}
use synthwatch.Schedule.Claims.{is_due_cursor, claim-cursors, claim-checks, claim_lost}
use synthwatch.Tick.{Surroundings, Fleet, run_one, after_due_claim, due_loop}
use synthwatch.Tick.Turn.{run_one-Keeps}

-- The branch of a claim, with what it does to the tables.
module _ (env : Surroundings) where
  after_claim-cursors :
      (f : Fleet) (cursors : List Cursor) (checks : List CheckRow) (won : Option CheckRow)
      → (won ≡ none → (cursors ≡ f.cursors) × (checks ≡ f.checks))
      → let t = after_due_claim env f (record { cursors = cursors; checks = checks; won = won }) in
        (t.cursors ≡ cursors) × (t.checks ≡ checks) × (t.effects.world.now ≡ f.effects.world.now)
  unfolding after_due_claim run_one
  after_claim-cursors f cursors checks none h = (sym (h refl).0, sym (h refl).1, refl)
  after_claim-cursors f cursors checks (some c) h = (
    refl,
    refl,
    (run_one-Keeps env c.check false none (record f { cursors = cursors; checks = checks })).now,
  )

  pub turn :
      (f : Fleet) (id : ℕ)
      → let now = f.effects.world.now in
        let t = claim env.location now id f.cursors f.checks in
        let g = after_due_claim env f t in
        (g.cursors ≡ t.cursors) × (g.checks ≡ t.checks) × (g.effects.world.now ≡ now)
  turn f id =
      let t = claim env.location f.effects.world.now id f.cursors f.checks in
      after_claim-cursors f t.cursors t.checks t.won
        (claim_lost env.location f.effects.world.now id f.cursors f.checks)

-- A cursor after the loop has handed out the candidates `xs`.
abbrev pub serve_row : String → ℕ → List Candidate → List CheckRow → Cursor → Cursor
serve_row location now xs checks cur =
    if any (λ x. x.id == cur.check_id) xs && is_due_cursor location now checks cur
    then record cur { last_run_at = some now }
    else cur

if_same : (b : Bool) (x : Cursor) → (if b then x else x) ≡ x
if_same true x = refl
if_same false x = refl

map_fuse :
    (p s q : Cursor → Cursor)
    → ((c : Cursor) → p (s c) ≡ q c)
    → (xs : List Cursor) → map p (map s xs) ≡ map q xs
map_fuse p s q h [] = refl
map_fuse p s q h (x ∷ xs) =
    ap (λ y. y ∷ map p (map s xs)) (h x) ∙ ap (λ ys. q x ∷ ys) (map_fuse p s q h xs)

serve_none :
    (location : String) (now : ℕ) (checks : List CheckRow) (curs : List Cursor)
    → curs ≡ map (serve_row location now [] checks) curs
serve_none location now checks [] = refl
serve_none location now checks (c ∷ cs) = ap (λ ys. c ∷ ys) (serve_none location now checks cs)

serve_more :
    (location : String) (now : ℕ) (x : Candidate) (xs : List Candidate) (cursors : List Cursor)
    (checks : List CheckRow) (cur : Cursor)
    → serve_row location now xs
        (claim location now x.id cursors checks).checks
        (stamp (takes location now x.id checks) now cur)
      ≡ serve_row location now (x ∷ xs) checks cur
serve_more location now x xs cursors checks cur =
    let checks' = (claim location now x.id cursors checks).checks in
    elim (takes location now x.id checks cur)
        as (λ b.
          (takes location now x.id checks cur ≡ b)
          → serve_row location now xs checks'
              (if b then record cur { last_run_at = some now } else cur)
            ≡ serve_row location now (x ∷ xs) checks cur) [
              | true ↦ λ e.
                  if_same
                    (any (λ y. y.id == cur.check_id) xs
                      && is_due_cursor location now checks' (record cur { last_run_at = some now }))
                    (record cur { last_run_at = some now })
                  ∙ sym (
                      ap (λ b. if b then record cur { last_run_at = some now } else cur) {y = true}
                        (ground arith))
              | false ↦ λ e.
                  ap (λ b. if b then record cur { last_run_at = some now } else cur)
                    {y = any (λ y. y.id == cur.check_id) (x ∷ xs)
                      && is_due_cursor location now checks cur}
                    (ground (arith, claim-checks location now x.id cursors checks cur))
            ]
      refl

due_loop-cursors :
    (env : Surroundings) (xs : List Candidate) (f : Fleet)
    → (due_loop env xs f).cursors
      ≡ map (serve_row env.location f.effects.world.now xs f.checks) f.cursors
unfolding due_loop
due_loop-cursors env [] f = serve_none env.location f.effects.world.now f.checks f.cursors
due_loop-cursors env (x ∷ xs) f =
    let now = f.effects.world.now in
    let l = env.location in
    let t = claim l now x.id f.cursors f.checks in
    let g = after_due_claim env f t in
    let (cs, ks, ns) = turn env f x.id in
    due_loop-cursors env xs g
    ∙ ap (λ n. map (serve_row l n xs g.checks) g.cursors) ns
    ∙ ap (λ k. map (serve_row l now xs k) g.cursors) ks
    ∙ ap (map (serve_row l now xs t.checks)) (cs ∙ claim-cursors l now x.id f.cursors f.checks)
    ∙ map_fuse (serve_row l now xs t.checks) (stamp (takes l now x.id f.checks) now)
        (serve_row l now (x ∷ xs) f.checks) (serve_more l now x xs f.cursors f.checks) f.cursors

-- Whichever cursor is due has its check among the candidates.
module _ (location : String) (now : ℕ) (cursors : List Cursor) (checks : List CheckRow) where
  abbrev is_listed : Cursor → Bool
  is_listed cur =
      not (is_due_cursor location now checks cur)
      || any (λ x. x.id == cur.check_id) (find_due_checks location now cursors checks)

  taken_here :
      (cur : Cursor) (cs : List Cursor)
      → is_due_cursor location now checks cur ≡ true
      → any (takes location now cur.check_id checks) (cur ∷ cs) ≡ true
  taken_here cur cs h = ground arith

  listed_of :
      (cs : List Cursor)
      → ((p : Cursor → Bool) → any p cs ≡ true → any p cursors ≡ true)
      → all is_listed cs ≡ true
  listed_of [] h = refl
  listed_of (cur ∷ cs) h = ground (
    arith,
    taken_here cur cs,
    h (takes location now cur.check_id checks),
    won_iff cur.check_id location now cursors checks,
    claim-find_due_checks location now cur.check_id cursors checks,
    listed_of cs (λ p k. h p (later p cur cs k)),
  )
    where
      later :
          (p : Cursor → Bool) (cur : Cursor) (cs : List Cursor)
          → any p cs ≡ true
          → any p (cur ∷ cs) ≡ true
      later p cur cs k = ground arith

  served :
      (cs : List Cursor)
      → all is_listed cs ≡ true
      → map (serve_row location now (find_due_checks location now cursors checks) checks) cs
        ≡ map (stamp (is_due_cursor location now checks) now) cs
  served [] h = refl
  served (cur ∷ cs) h =
      let rest =
        map (serve_row location now (find_due_checks location now cursors checks) checks) cs in
      ap (λ b. (if b then record cur { last_run_at = some now } else cur) ∷ rest)
        {y = is_due_cursor location now checks cur} (ground arith)
      ∙ ap (λ ys. stamp (is_due_cursor location now checks) now cur ∷ ys) (served cs (ground arith))

-- After the loop over what `findDueChecks` found, the cursors of this location that were due are at the tick's
-- instant, and no other cursor has moved.
pub due_loop-stamps :
    (env : Surroundings) (f : Fleet)
    → let now = f.effects.world.now in
      (due_loop env (find_due_checks env.location now f.cursors f.checks) f).cursors
      ≡ map (stamp (is_due_cursor env.location now f.checks) now) f.cursors
due_loop-stamps env f =
    let now = f.effects.world.now in
    due_loop-cursors env (find_due_checks env.location now f.cursors f.checks) f
    ∙ served env.location now f.cursors f.checks f.cursors
        (listed_of env.location now f.cursors f.checks f.cursors (λ p k. k))
