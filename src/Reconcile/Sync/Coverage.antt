-- ===== src/Reconcile/Sync/Coverage.antt =====
-- That `b10FieldUpdates` of runner/reconcile.ts leaves out no monitor whose live row differs.
use synthwatch.Prelude.{
  Option, none, some, Bool, true, ◌&&◌, ◌||◌, List, [], ◌∷◌, str_eq, all, any, ◌≡◌, refl, arith,
  eq_refl, and_parts,
}
use synthwatch.Reconcile.{Monitor, ManagedCheck, or_false}
use synthwatch.Reconcile.Equality.{bool_eq, bool_eq_refl, patterns_eq, patterns_eq_refl}
use synthwatch.Reconcile.Drift.{by_key}
use synthwatch.Reconcile.Sync.{
  B10Update, B10Step, skipped, updated, refused, b10_step, push_step, b10_field_updates,
  B10FieldUpdateResult,
}

-- The live row has the policy of the manifest.
abbrev pub in_sync : Monitor → ManagedCheck → Bool
in_sync m c =
    bool_eq c.sensitive (or_false m.sensitive) && patterns_eq m.redact_patterns c.redact_patterns

-- An update that writes the policy of the manifest to the row of the monitor.
abbrev pub updates_to : Monitor → B10Update → Bool
updates_to m u =
    str_eq m.id u.source_key
    && (bool_eq (or_false m.sensitive) u.sensitive
        && patterns_eq m.redact_patterns u.redact_patterns)

-- Unless the row is in sync, the monitor is refused or has its update.
abbrev pub covers_row : B10FieldUpdateResult → Monitor → Option ManagedCheck → Bool
covers_row r m none = true
covers_row r m (some c) =
    in_sync m c || (any (str_eq m.id) r.blocked_strips || any (updates_to m) r.updates)

covers_row-push_step :
    (s : B10Step) (r : B10FieldUpdateResult) (m : Monitor) (c : Option ManagedCheck)
    → covers_row r m c ≡ true
    → covers_row (push_step s r) m c ≡ true
unfolding push_step
covers_row-push_step s r m none h = refl
covers_row-push_step skipped r m (some c) h = h
covers_row-push_step (updated u) r m (some c) h = ground arith
covers_row-push_step (refused key) r m (some c) h = ground arith

covers_row-b10_step :
    (r : B10FieldUpdateResult) (m : Monitor) (c : Option ManagedCheck)
    → covers_row (push_step (b10_step m c) r) m c ≡ true
unfolding push_step b10_step
covers_row-b10_step r m none = refl
covers_row-b10_step r m (some c) =
    ground
      (arith, eq_refl m.id, bool_eq_refl (or_false m.sensitive), patterns_eq_refl m.redact_patterns)

and_intro : {a b : Bool} → a ≡ true → b ≡ true → (a && b) ≡ true
and_intro h k = rw (h, k) refl

pub covers_all : List ManagedCheck → B10FieldUpdateResult → List Monitor → Bool
covers_all managed r ms = all (λ m. covers_row r m (by_key managed m.id)) ms

covers_all-push_step :
    (managed : List ManagedCheck) (s : B10Step) (r : B10FieldUpdateResult) (ms : List Monitor)
    → covers_all managed r ms ≡ true
    → covers_all managed (push_step s r) ms ≡ true
unfolding covers_all
covers_all-push_step managed s r [] h = refl
covers_all-push_step managed s r (m ∷ ms) h =
    let (here, rest) =
      and_parts (covers_row r m (by_key managed m.id)) (covers_all managed r ms) h in
    and_intro (covers_row-push_step s r m (by_key managed m.id) here)
      (covers_all-push_step managed s r ms rest)

-- For every monitor of the manifest, either there is no live row, or the row already has the sensitivity
-- and the patterns of the manifest, or the monitor is refused, or an update writes both of them to the
-- row.
pub b10_field_updates_cover :
    (monitors : List Monitor) (managed : List ManagedCheck)
    → covers_all managed (b10_field_updates monitors managed) monitors ≡ true
unfolding b10_field_updates covers_all
b10_field_updates_cover [] managed = refl
b10_field_updates_cover (m ∷ ms) managed =
    let step = b10_step m (by_key managed m.id) in
    let r = b10_field_updates ms managed in
    and_intro (covers_row-b10_step r m (by_key managed m.id))
      (covers_all-push_step managed step r ms (b10_field_updates_cover ms managed))
