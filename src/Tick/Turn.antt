-- ===== src/Tick/Turn.antt =====
-- One turn of the loop of `drainRunRequests` of runner/index.ts.
use synthwatch.Prelude.{
  ℕ, ◌≤◌, ◌≡◌, refl, subst, Option, none, some, Bool, true, false, List, [], ◌∷◌, map, any, ltb,
  ◌==◌, arith, if◌then◌else◌,
}
use synthwatch.Types.{Check}
use synthwatch.Schedule.{CheckRow, Cursor, force_claim}
use synthwatch.SideEffects.{RunRequest, Effects, is_pending_id}
use synthwatch.SideEffects.Frame.{
  is_consumed, Keeps, Keeps-trans, Keeps-refl, apply_run_side_effects-Keeps,
}
use synthwatch.Tick.{
  Surroundings, Fleet, run_one, done_row, consume, runs_here, after_claim, after_consume, drain_one,
}

pub run_one-Keeps :
    (env : Surroundings) (check : Check) (sandbox : Bool) (o : Option ℕ) (f : Fleet)
    → Keeps f.effects (run_one env check sandbox o f).effects
unfolding run_one
run_one-Keeps env check sandbox o f =
    Keeps-trans
      (record { now = refl; next = omega arith; consumed = λ id c. c; pending = λ id c. c })
      (apply_run_side_effects-Keeps env.signals env.env env.send _ _ _ check _ _ _)

after_claim-Keeps :
    (env : Surroundings) (q : RunRequest) (f : Fleet) (cursors : List Cursor)
    (checks : List CheckRow) (won : Option CheckRow)
    → Keeps f.effects
        (after_claim env q f (record { cursors = cursors; checks = checks; won = won })).effects
unfolding after_claim
after_claim-Keeps env q f cursors checks none = Keeps-refl f.effects
after_claim-Keeps env q f cursors checks (some c) =
    run_one-Keeps env c.check q.sandbox _ (record f { cursors = cursors; checks = checks })

after_consume-Keeps :
    (env : Surroundings) (q : RunRequest) (f : Fleet)
    → Keeps f.effects (after_consume env q f).effects
unfolding after_consume
after_consume-Keeps env q f =
    let t = force_claim env.location q.sandbox f.effects.world.now q.check_id f.cursors f.checks in
    elim (any (runs_here env.location q.check_id f.effects.world.now) f.effects.world.runs)
      as (λ b. Keeps f.effects (if b then f else after_claim env q f t).effects) [
        | true ↦ Keeps-refl f.effects
        | false ↦ after_claim-Keeps env q f t.cursors t.checks t.won
      ]

done_not_pending :
    (id : ℕ) (qs : List RunRequest) → any (is_pending_id id) (map (done_row id) qs) ≡ false
done_not_pending id [] = refl
done_not_pending id (q ∷ qs) = ground (arith, done_not_pending id qs)

done_others :
    (id k : ℕ) (qs : List RunRequest)
    → any (is_pending_id k) qs ≡ false
    → any (is_pending_id k) (map (done_row id) qs) ≡ false
done_others id k [] h = refl
done_others id k (q ∷ qs) h = ground (arith, done_others id k qs)

done_keeps :
    (id k : ℕ) (qs : List RunRequest)
    → (id == k) ≡ false
    → any (is_pending_id k) qs ≡ true
    → any (is_pending_id k) (map (done_row id) qs) ≡ true
done_keeps id k [] d h = h
done_keeps id k (q ∷ qs) d h = ground (arith, done_keeps id k qs)

-- A turn of the loop consumes its request.
drain_one-consumes :
    (env : Surroundings) (q : RunRequest) (f : Fleet)
    → ltb q.id f.effects.next_request_id ≡ true
    → is_consumed q.id (drain_one env q f).effects ≡ true
unfolding drain_one
drain_one-consumes env q f h =
    elim (any (is_pending_id q.id) f.effects.run_requests)
        as (λ b.
          (any (is_pending_id q.id) f.effects.run_requests ≡ b)
          → is_consumed q.id (if b then after_consume env q (consume q.id f) else f).effects
            ≡ true) [
              | true ↦ λ e.
                  (after_consume-Keeps env q (consume q.id f)).consumed q.id
                    (ground (arith, done_not_pending q.id f.effects.run_requests))
              | false ↦ λ e. ground arith
            ]
      refl

pub drain_one-consumed :
    (env : Surroundings) (q : RunRequest) (f : Fleet) (k : ℕ)
    → is_consumed k f.effects ≡ true
    → is_consumed k (drain_one env q f).effects ≡ true
unfolding drain_one
drain_one-consumed env q f k h =
    elim (any (is_pending_id q.id) f.effects.run_requests)
      as (λ b.
        is_consumed k (if b then after_consume env q (consume q.id f) else f).effects ≡ true) [
          | true ↦
              (after_consume-Keeps env q (consume q.id f)).consumed k
                (ground (arith, done_others q.id k f.effects.run_requests))
          | false ↦ h
        ]

pub drain_one-pending :
    (env : Surroundings) (q : RunRequest) (f : Fleet) (k : ℕ)
    → (q.id == k) ≡ false
    → any (is_pending_id k) f.effects.run_requests ≡ true
    → any (is_pending_id k) (drain_one env q f).effects.run_requests ≡ true
unfolding drain_one
drain_one-pending env q f k d h =
    elim (any (is_pending_id q.id) f.effects.run_requests)
      as (λ b.
        any (is_pending_id k)
          (if b then after_consume env q (consume q.id f) else f).effects.run_requests
        ≡ true) [
          | true ↦
              (after_consume-Keeps env q (consume q.id f)).pending k
                (done_keeps q.id k f.effects.run_requests d h)
          | false ↦ h
        ]

pub drain_one-next :
    (env : Surroundings) (q : RunRequest) (f : Fleet)
    → f.effects.next_request_id ≤ (drain_one env q f).effects.next_request_id
unfolding drain_one
drain_one-next env q f =
    elim (any (is_pending_id q.id) f.effects.run_requests)
      as (λ b.
        f.effects.next_request_id
        ≤ (if b then after_consume env q (consume q.id f) else f).effects.next_request_id) [
          | true ↦ (after_consume-Keeps env q (consume q.id f)).next
          | false ↦ omega arith
        ]

pub drain_one-consumes_at :
    (env : Surroundings) (q : RunRequest) (f : Fleet) (k : ℕ)
    → q.id ≡ k
    → ltb k f.effects.next_request_id ≡ true
    → is_consumed k (drain_one env q f).effects ≡ true
drain_one-consumes_at env q f k e h =
    subst (λ j. is_consumed j (drain_one env q f).effects ≡ true) e
      (drain_one-consumes env q f (rw e h))

pub not_pending :
    (k : ℕ) (s : Effects) → is_consumed k s ≡ true → any (is_pending_id k) s.run_requests ≡ false
not_pending k s h = ground arith

-- A turn for a request that is consumed changes nothing.
pub drain_one-idle :
    (env : Surroundings) (q : RunRequest) (f : Fleet)
    → is_consumed q.id f.effects ≡ true
    → drain_one env q f ≡ f
unfolding drain_one
drain_one-idle env q f h = rw (not_pending q.id f.effects h) refl
