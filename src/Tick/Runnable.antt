-- ===== src/Tick/Runnable.antt =====
-- Which requests `drainRunRequests` of runner/index.ts consumes.
use mathlib.Core.List.{Memᴰ}
use synthwatch.Prelude.{
  ℕ, ◌≡◌, refl, sym, ap, ◌∙◌, String, Option, none, some, Bool, true, false, ◌&&◌, ◌||◌, List, [],
  ◌∷◌, filter, any, not, is_some, ltb, ◌==◌, eq_iff, arith, ◌↔◌, ◌⊎◌, inl, inr, Bool-cases,
}
use synthwatch.Schedule.{CheckRow, Cursor, joins}
use synthwatch.SideEffects.{RunRequest, is_pending_id}
use synthwatch.Tick.{
  Surroundings, Fleet, is_runnable, insert_request, order_requests, pending_here,
  drain_run_requests,
}
use synthwatch.Tick.Drain.{drain_run_requests-pending_here}

module _ {ℓ} {A : Type ℓ} where
  any-Memᴰ : (p : A → Bool) (xs : List A) → any p xs ≡ true → (x : A) × Memᴰ x xs × (p x ≡ true)
  any-Memᴰ p [] h = cc
  any-Memᴰ p (x ∷ xs) h = elim (Bool-cases (p x)) [
    | inl e ↦ (x, Memᴰ.head refl, e)
    | inr e ↦ let (y, m, k) = any-Memᴰ p xs (ground (arith, e, h)) in (y, Memᴰ.tail m, k)
  ]

  Memᴰ-any : (p : A → Bool) (x : A) (xs : List A) → Memᴰ x xs → p x ≡ true → any p xs ≡ true
  Memᴰ-any p x [] m h = elim m [ ]
  Memᴰ-any p x (y ∷ xs) (Memᴰ.head e) h = rw (sym (ap p e) ∙ h) refl
  Memᴰ-any p x (y ∷ xs) (Memᴰ.tail m) h = ground (arith, Memᴰ-any p x xs m h)

-- A row of the check that lets the request run: it is enabled and not archived, or the request is for the
-- sandbox.
pub record Allows (q : RunRequest) (c : CheckRow) : Type 0 where
  pub same_check : c.check.id ≡ q.check_id
  pub enabled : (c.enabled ≡ true) ⊎ (q.sandbox ≡ true)
  pub not_archived : (c.archived_at ≡ none) ⊎ (q.sandbox ≡ true)

-- The check of the request is assigned to the location.
pub record IsAssigned (location : String) (q : RunRequest) (cur : Cursor) : Type 0 where
  pub same_check : cur.check_id ≡ q.check_id
  pub here : cur.location ≡ location

-- A pending request of the id that a runner at the location can run.
pub record CanRun (location : String) (f : Fleet) (id : ℕ) : Type 0 where
  pub request : RunRequest
  pub listed : Memᴰ request f.effects.run_requests
  pub named : request.id ≡ id
  pub pending : request.is_pending ≡ true
  pub row : CheckRow
  pub row_listed : Memᴰ row f.checks
  pub allows : Allows request row
  pub cursor : Cursor
  pub cursor_listed : Memᴰ cursor f.cursors
  pub assigned : IsAssigned location request cursor

any-insert :
    (p : RunRequest → Bool) (x : RunRequest) (xs : List RunRequest)
    → any p (insert_request x xs) ≡ any p (x ∷ xs)
unfolding insert_request
any-insert p x [] = refl
any-insert p x (y ∷ ys) = ground (arith, any-insert p x ys)

any-order : (p : RunRequest → Bool) (xs : List RunRequest) → any p (order_requests xs) ≡ any p xs
unfolding order_requests
any-order p [] = refl
any-order p (x ∷ xs) = any-insert p x (order_requests xs) ∙ ap (λ b. p x || b) (any-order p xs)

any-filter :
    (p q : RunRequest → Bool) (xs : List RunRequest)
    → any p (filter q xs) ≡ any (λ x. q x && p x) xs
any-filter p q [] = refl
any-filter p q (x ∷ xs) = ground (arith, any-filter p q xs)

pending_here-any :
    (location : String) (f : Fleet) (id : ℕ)
    → any (λ q. q.id == id) (pending_here location f)
      ≡ any (λ q. is_runnable location f.cursors f.checks q && q.id == id) f.effects.run_requests
unfolding pending_here
pending_here-any location f id =
    any-order (λ q. q.id == id)
      (filter (is_runnable location f.cursors f.checks) f.effects.run_requests)
    ∙ any-filter (λ q. q.id == id) (is_runnable location f.cursors f.checks) f.effects.run_requests

-- The test of a row of `checks`, with its join.
abbrev fits : String → List Cursor → RunRequest → CheckRow → Bool
fits location cursors q c =
    c.check.id == q.check_id
    && ((c.enabled || q.sandbox) && (not (is_some c.archived_at) || q.sandbox))
    && any (λ cur. joins location c cur) cursors

-- What the test says, up to the join.
Allows-of :
    (q : RunRequest) (c : CheckRow) (rest : Bool)
    → (c.check.id == q.check_id
        && ((c.enabled || q.sandbox) && (not (is_some c.archived_at) || q.sandbox))
        && rest)
      ≡ true
    → Allows q c × (rest ≡ true)
Allows-of q c rest h = (
  record {
    same_check = ground (arith, h);
    enabled = either c.enabled q.sandbox (ground (arith, h));
    not_archived = archived c.archived_at q.sandbox (ground (arith, h));
  },
  ground (arith, h),
)
  where
    either : (a b : Bool) → (a || b) ≡ true → (a ≡ true) ⊎ (b ≡ true)
    either true b k = inl refl
    either false b k = inr k

    archived : (o : Option ℕ) (b : Bool) → (not (is_some o) || b) ≡ true → (o ≡ none) ⊎ (b ≡ true)
    archived none b k = inl refl
    archived (some n) b k = inr k

Allows-test :
    (q : RunRequest) (c : CheckRow)
    → Allows q c
    → (c.check.id == q.check_id
        && ((c.enabled || q.sandbox) && (not (is_some c.archived_at) || q.sandbox)))
      ≡ true
Allows-test q c h = ground (arith, h.same_check, either h.enabled, archived h.not_archived)
  where
    either : (c.enabled ≡ true) ⊎ (q.sandbox ≡ true) → (c.enabled || q.sandbox) ≡ true
    either (inl e) = rw e refl
    either (inr e) = ground (arith, e)

    archived :
        (c.archived_at ≡ none) ⊎ (q.sandbox ≡ true)
        → (not (is_some c.archived_at) || q.sandbox) ≡ true
    archived (inl e) = rw e refl
    archived (inr e) = ground (arith, e)

joins-IsAssigned :
    (location : String) (q : RunRequest) (c : CheckRow) (cur : Cursor)
    → c.check.id ≡ q.check_id
    → joins location c cur ≡ true
    → IsAssigned location q cur
joins-IsAssigned location q c cur e h = record {
  same_check = ground (arith, e, h);
  here = (eq_iff cur.location location).0 (ground (arith, h));
}

IsAssigned-joins :
    (location : String) (q : RunRequest) (c : CheckRow) (cur : Cursor)
    → c.check.id ≡ q.check_id
    → IsAssigned location q cur
    → joins location c cur ≡ true
IsAssigned-joins location q c cur e h =
    ground (arith, e, h.same_check, (eq_iff cur.location location).1 h.here)

runs_here-CanRun :
    (location : String) (f : Fleet) (id : ℕ)
    → any (λ q. is_runnable location f.cursors f.checks q && q.id == id) f.effects.run_requests
      ≡ true
    → CanRun location f id
runs_here-CanRun location f id h =
    let (q, m, k) = any-Memᴰ _ f.effects.run_requests h in
    let (c, n, j) = any-Memᴰ _ f.checks (rows_of q k) in
    let (allows, assigned) = Allows-of q c (any (λ cur. joins location c cur) f.cursors) j in
    let (cur, o, i) = any-Memᴰ (λ cur. joins location c cur) f.cursors assigned in
    record {
      request = q;
      listed = m;
      named = ground (arith, k);
      pending = ground (arith, k);
      row = c;
      row_listed = n;
      allows = allows;
      cursor = cur;
      cursor_listed = o;
      assigned = joins-IsAssigned location q c cur allows.same_check i;
    }
  where
    rows_of :
        (q : RunRequest)
        → (is_runnable location f.cursors f.checks q && q.id == id) ≡ true
        → any (fits location f.cursors q) f.checks ≡ true
    rows_of q k = ground (arith, k)

CanRun-runs_here :
    (location : String) (f : Fleet) (id : ℕ)
    → CanRun location f id
    → any (λ q. is_runnable location f.cursors f.checks q && q.id == id) f.effects.run_requests
      ≡ true
CanRun-runs_here location f id r =
    let row = Memᴰ-any (fits location f.cursors r.request) r.row f.checks r.row_listed (
      ground (
        arith,
        Allows-test r.request r.row r.allows,
        Memᴰ-any (λ cur. joins location r.row cur) r.cursor f.cursors r.cursor_listed
            (IsAssigned-joins location r.request r.row r.cursor r.allows.same_check r.assigned),
      )) in
    Memᴰ-any (λ q. is_runnable location f.cursors f.checks q && q.id == id) r.request
      f.effects.run_requests r.listed (ground (arith, r.pending, r.named, row))

-- Where each id was given out, of the pending requests the drain consumes exactly those that this location can
-- run: a request is consumed if its check has a row that is enabled and not archived, unless it is for the
-- sandbox, and is assigned to the location, and any other pending request stays pending for another runner.
pub drain_run_requests_consumes :
    (env : Surroundings) (f : Fleet) (id : ℕ)
    → ltb id f.effects.next_request_id ≡ true
    → any (is_pending_id id) f.effects.run_requests ≡ true
    → (any (is_pending_id id) (drain_run_requests env f).effects.run_requests ≡ false)
      ↔ CanRun env.location f id
drain_run_requests_consumes env f id h p =
    let e =
      drain_run_requests-pending_here env f id h p ∙ ap not (pending_here-any env.location f id) in
    (
      λ gone. runs_here-CanRun env.location f id (ground (arith, e, gone)),
      λ r. ground (arith, e, CanRun-runs_here env.location f id r),
    )
