-- ===== src/Tick/Drain.antt =====
-- `drainRunRequests` of runner/index.ts: what it consumes, and what it leaves to others.
use synthwatch.Prelude.{
  ℕ, ◌≡◌, refl, ap, ◌∙◌, Bool, true, false, List, [], ◌∷◌, any, all, ltb, ◌==◌, not, arith,
}
use synthwatch.SideEffects.{RunRequest, is_pending_id}
use synthwatch.SideEffects.Frame.{is_consumed}
use synthwatch.Tick.{Surroundings, Fleet, drain_one, drain_from, drain_run_requests, pending_here}
use synthwatch.Tick.Turn.{
  drain_one-next, drain_one-consumed, drain_one-consumes_at, drain_one-pending, not_pending,
  drain_one-idle,
}

drain_from-consumed :
    (env : Surroundings) (qs : List RunRequest) (f : Fleet) (k : ℕ)
    → is_consumed k f.effects ≡ true
    → is_consumed k (drain_from env qs f).effects ≡ true
unfolding drain_from
drain_from-consumed env [] f k h = h
drain_from-consumed env (q ∷ qs) f k h =
    drain_from-consumed env qs (drain_one env q f) k (drain_one-consumed env q f k h)

-- A request that the replica has read is consumed.
drain_from-consumes :
    (env : Surroundings) (qs : List RunRequest) (f : Fleet) (k : ℕ)
    → ltb k f.effects.next_request_id ≡ true
    → any (λ q. q.id == k) qs ≡ true
    → is_consumed k (drain_from env qs f).effects ≡ true
unfolding drain_from
drain_from-consumes env [] f k h m = absurd (ground arith)
drain_from-consumes env (q ∷ qs) f k h m =
    elim (q.id == k)
        as (λ b.
          ((q.id == k) ≡ b)
          → is_consumed k (drain_from env qs (drain_one env q f)).effects ≡ true) [
            | true ↦ λ e.
                drain_from-consumed env qs (drain_one env q f) k
                  (drain_one-consumes_at env q f k (ground arith) h)
            | false ↦ λ e.
                drain_from-consumes env qs (drain_one env q f) k
                  (ground (arith, drain_one-next env q f)) (ground arith)
          ]
      refl

drain_from-idle :
    (env : Surroundings) (ps : List RunRequest) (f : Fleet)
    → all (λ p. is_consumed p.id f.effects) ps ≡ true
    → drain_from env ps f ≡ f
unfolding drain_from
drain_from-idle env [] f h = refl
drain_from-idle env (p ∷ ps) f h =
    ap (drain_from env ps) (drain_one-idle env p f (ground arith))
    ∙ drain_from-idle env ps f (ground arith)

drain_from-pending :
    (env : Surroundings) (qs : List RunRequest) (f : Fleet) (k : ℕ)
    → any (λ q. q.id == k) qs ≡ false
    → any (is_pending_id k) f.effects.run_requests ≡ true
    → any (is_pending_id k) (drain_from env qs f).effects.run_requests ≡ true
unfolding drain_from
drain_from-pending env [] f k m h = h
drain_from-pending env (q ∷ qs) f k m h =
    drain_from-pending env qs (drain_one env q f) k (ground arith)
      (drain_one-pending env q f k (ground arith) h)

-- Of the requests that are pending, the drain consumes those of `pending_here`.
pub drain_run_requests-pending_here :
    (env : Surroundings) (f : Fleet) (id : ℕ)
    → ltb id f.effects.next_request_id ≡ true
    → any (is_pending_id id) f.effects.run_requests ≡ true
    → any (is_pending_id id) (drain_run_requests env f).effects.run_requests
      ≡ not (any (λ q. q.id == id) (pending_here env.location f))
unfolding drain_run_requests
drain_run_requests-pending_here env f k h p =
    elim (any (λ q. q.id == k) (pending_here env.location f))
        as (λ b.
          (any (λ q. q.id == k) (pending_here env.location f) ≡ b)
          → any (is_pending_id k)
              (drain_from env (pending_here env.location f) f).effects.run_requests
            ≡ not b) [
              | true ↦ λ e.
                  not_pending k (drain_from env (pending_here env.location f) f).effects
                    (drain_from-consumes env (pending_here env.location f) f k h e)
              | false ↦ λ e. drain_from-pending env (pending_here env.location f) f k e p
            ]
      refl

-- The requests of a list were all read by another.
abbrev pub all_read : List RunRequest → List RunRequest → Bool
all_read qs ps = all (λ p. any (λ q. q.id == p.id) qs) ps

all_consumed :
    (env : Surroundings) (qs : List RunRequest) (f : Fleet) (ps : List RunRequest)
    → all_read qs ps ≡ true
    → all (λ p. ltb p.id f.effects.next_request_id) ps ≡ true
    → all (λ p. is_consumed p.id (drain_from env qs f).effects) ps ≡ true
all_consumed env qs f [] r h = refl
all_consumed env qs f (p ∷ ps) r h =
    ground (arith, drain_from-consumes env qs f p.id, all_consumed env qs f ps)

-- A request runs at most once: where each id was given out, a replica that acts on requests which another
-- has read and drained, in whatever order and however often, at its own location and with its own
-- executors, starts no run and changes no table.
pub drain_from_again :
    (env env' : Surroundings) (qs ps : List RunRequest) (f : Fleet)
    → all_read qs ps ≡ true
    → all (λ p. ltb p.id f.effects.next_request_id) ps ≡ true
    → drain_from env' ps (drain_from env qs f) ≡ drain_from env qs f
drain_from_again env env' qs ps f r h =
    drain_from-idle env' ps (drain_from env qs f) (all_consumed env qs f ps r h)
