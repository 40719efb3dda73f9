-- ===== src/Reconcile/Sync/Removal.antt =====
-- The purge clock of runner/reconcile.ts: when `removedAtUpdates` starts and clears it, and that the
-- writes of runner/reconcileMain.ts settle it.
use synthwatch.Prelude.{
  String, ℕ, Option, none, some, Bool, true, false, not, ◌&&◌, ◌||◌, List, [], ◌∷◌, ◌++◌, str_eq,
  all, any, is_some, ◌≡◌, refl, arith, if◌then◌else◌, eq_refl, eq_iff, map, and_parts, subst, sym,
  ◌∙◌,
}
use synthwatch.Reconcile.{Monitor, ManagedCheck}
use synthwatch.Reconcile.Sync.{
  RemovedAtUpdate, in_manifest, is_empty, removed_at_step, removed_at_updates,
}

abbrev set_removed_at : Option ℕ → ManagedCheck → ManagedCheck
set_removed_at t c = record c { removed_at = t }

-- One UPDATE of the loop in `reconcileMain`, on one row.
pub write_removed_at : ℕ → RemovedAtUpdate → ManagedCheck → ManagedCheck
write_removed_at now u c =
    if str_eq c.source_key u.source_key
    then if u.removed
      then if is_some c.removed_at then c else set_removed_at (some now) c
      else set_removed_at none c
    else c

-- The loop of `reconcileMain` over the updates, on one row.
pub write_all : ℕ → List RemovedAtUpdate → ManagedCheck → ManagedCheck
write_all now [] c = c
write_all now (u ∷ us) c = write_all now us (write_removed_at now u c)

-- The clock runs just when the manifest misses the check.
settled : List Monitor → ManagedCheck → Bool
settled monitors c =
    is_some c.removed_at && not (in_manifest monitors c.source_key)
    || not (is_some c.removed_at) && in_manifest monitors c.source_key

agrees : List Monitor → RemovedAtUpdate → Bool
agrees monitors u =
    u.removed && not (in_manifest monitors u.source_key)
    || not u.removed && in_manifest monitors u.source_key

mentions : String → List RemovedAtUpdate → Bool
mentions key us = any (λ u. str_eq key u.source_key) us

removed_at_updates-agrees :
    (monitors : List Monitor) (cs : List ManagedCheck)
    → all (agrees monitors) (removed_at_updates monitors cs) ≡ true
unfolding removed_at_updates removed_at_step agrees
removed_at_updates-agrees monitors [] = refl
removed_at_updates-agrees monitors (c ∷ cs) = ground (arith, removed_at_updates-agrees monitors cs)

write_settled :
    (now : ℕ) (monitors : List Monitor) (u : RemovedAtUpdate) (c : ManagedCheck)
    → agrees monitors u ≡ true
    → settled monitors c || str_eq c.source_key u.source_key ≡ true
    → settled monitors (write_removed_at now u c) ≡ true
unfolding agrees settled write_removed_at
write_settled now monitors u c ha h = ground (arith, eq_iff c.source_key u.source_key)

write_key :
    (now : ℕ) (u : RemovedAtUpdate) (c : ManagedCheck)
    → (write_removed_at now u c).source_key ≡ c.source_key
unfolding write_removed_at
write_key now u c = ground arith

or_nil : (a : Bool) → a || false ≡ true → a ≡ true
or_nil a h = ground arith

or_map : (a b c : Bool) → (b ≡ true → c ≡ true) → a || b ≡ true → a || c ≡ true
or_map true b c f h = refl
or_map false b c f h = f h

or_left : (a b : Bool) → a ≡ true → a || b ≡ true
or_left a b h = ground arith

or_right : (a b : Bool) → b ≡ true → a || b ≡ true
or_right a b h = ground arith

or_third : (a b x y : Bool) → (a || b ≡ true → x ≡ true) → a || (b || y) ≡ true → x || y ≡ true
or_third true b x y f h = ground (arith, f refl)
or_third false true x y f h = ground (arith, f refl)
or_third false false x true f h = ground arith
or_third false false x false f h = cc

settled_or_mentioned :
    (now : ℕ) (monitors : List Monitor) (u : RemovedAtUpdate) (us : List RemovedAtUpdate)
    (c : ManagedCheck)
    → agrees monitors u ≡ true
    → settled monitors c || mentions c.source_key (u ∷ us) ≡ true
    → settled monitors (write_removed_at now u c)
        || mentions (write_removed_at now u c).source_key us
      ≡ true
unfolding mentions
settled_or_mentioned now monitors u us c ha h =
    subst (λ k. settled monitors (write_removed_at now u c) || mentions k us ≡ true)
      (sym (write_key now u c))
      (or_third (settled monitors c) (str_eq c.source_key u.source_key)
        (settled monitors (write_removed_at now u c)) (mentions c.source_key us)
        (write_settled now monitors u c ha) h)

write_all-settled :
    (now : ℕ) (monitors : List Monitor) (us : List RemovedAtUpdate) (c : ManagedCheck)
    → all (agrees monitors) us ≡ true
    → settled monitors c || mentions c.source_key us ≡ true
    → settled monitors (write_all now us c) ≡ true
unfolding write_all mentions
write_all-settled now monitors [] c ha h = or_nil (settled monitors c) h
write_all-settled now monitors (u ∷ us) c ha h =
    write_all-settled now monitors us (write_removed_at now u c)
      (and_parts (agrees monitors u) (all (agrees monitors) us) ha).1
      (settled_or_mentioned now monitors u us c
        (and_parts (agrees monitors u) (all (agrees monitors) us) ha).0 h)

mentions-append :
    (key : String) (us vs : List RemovedAtUpdate)
    → mentions key (us ++ vs) ≡ (mentions key us || mentions key vs)
unfolding mentions
mentions-append key [] vs = refl
mentions-append key (u ∷ us) vs = ground (arith, mentions-append key us vs)

-- A check of a manifest that is not empty is settled or has an update.
step_mentions :
    (m : Monitor) (ms : List Monitor) (c : ManagedCheck)
    → settled (m ∷ ms) c || mentions c.source_key (removed_at_step (m ∷ ms) c) ≡ true
unfolding settled mentions removed_at_step is_empty
step_mentions m ms c = ground (arith, eq_refl c.source_key)

settled_step :
    (monitors : List Monitor) (c : ManagedCheck)
    → settled monitors c ≡ true
    → removed_at_step monitors c ≡ []
unfolding settled removed_at_step
settled_step monitors c h = ground arith

empty_step : (c : ManagedCheck) → removed_at_step [] c ≡ []
unfolding removed_at_step in_manifest is_empty
empty_step c = ground arith

empty_updates : (cs : List ManagedCheck) → removed_at_updates [] cs ≡ []
unfolding removed_at_updates
empty_updates [] = refl
empty_updates (c ∷ cs) = rw (empty_step c) (empty_updates cs)

-- Updates `us` that have those of each check of `cs` settle `cs`.
settles :
    (now : ℕ) (m : Monitor) (ms : List Monitor) (us : List RemovedAtUpdate) (cs : List ManagedCheck)
    → all (agrees (m ∷ ms)) us ≡ true
    → ((key : String)
        → mentions key (removed_at_updates (m ∷ ms) cs) ≡ true
        → mentions key us ≡ true)
    → removed_at_updates (m ∷ ms) (map (write_all now us) cs) ≡ []
unfolding removed_at_updates
settles now m ms us [] ha hm = refl
settles now m ms us (c ∷ cs) ha hm =
    let step = removed_at_step (m ∷ ms) c in
    let rest = removed_at_updates (m ∷ ms) cs in
    rw
      (settled_step (m ∷ ms) (write_all now us c) (
        write_all-settled now (m ∷ ms) us c ha (
          or_map (settled (m ∷ ms) c) (mentions c.source_key step) (mentions c.source_key us)
            (λ h. hm c.source_key (
              mentions-append c.source_key step rest
              ∙ or_left (mentions c.source_key step) (mentions c.source_key rest) h))
            (step_mentions m ms c))))
      (settles now m ms us cs ha (λ key h.
        hm key
          (mentions-append key step rest ∙ or_right (mentions key step) (mentions key rest) h)))

-- An empty manifest gives no update, so it starts no purge clock.
pub removed_at_updates_empty : (managed : List ManagedCheck) → removed_at_updates [] managed ≡ []
removed_at_updates_empty = empty_updates

-- When the updates are written to every row, the next pass with the same manifest has none.
pub removed_at_updates_settle :
    (now : ℕ) (monitors : List Monitor) (managed : List ManagedCheck)
    → removed_at_updates monitors
        (map (write_all now (removed_at_updates monitors managed)) managed)
      ≡ []
removed_at_updates_settle now [] managed =
    empty_updates (map (write_all now (removed_at_updates [] managed)) managed)
removed_at_updates_settle now (m ∷ ms) managed =
    settles now m ms (removed_at_updates (m ∷ ms) managed) managed
      (removed_at_updates-agrees (m ∷ ms) managed) (λ key h. h)
