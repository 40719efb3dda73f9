-- ===== src/Reconcile/Sync/Redaction.antt =====
-- When the writes of `b10FieldUpdates` of runner/reconcile.ts remove redaction.
use synthwatch.Prelude.{
  String, Option, none, some, Bool, true, false, not, ◌&&◌, ◌||◌, List, [], ◌∷◌, all, ◌≡◌, refl,
  arith,
}
use synthwatch.Reconcile.{Monitor, ManagedCheck}
use synthwatch.Reconcile.Drift.{by_key}
use synthwatch.Reconcile.Sync.{
  is_redaction_strip, is_allowed_strip, B10Update, B10Step, skipped, updated, refused, b10_step,
  push_step, b10_field_updates, B10FieldUpdateResult,
}

-- The live row of the key is sensitive.
abbrev pub is_live_sensitive : Option ManagedCheck → Bool
is_live_sensitive none = false
is_live_sensitive (some c) = c.sensitive

-- An update that leaves a sensitive row sensitive, or is of an allow-listed key and says so.
pub keeps_redaction : List ManagedCheck → B10Update → Bool
keeps_redaction managed u =
    not (is_live_sensitive (by_key managed u.source_key))
    || u.sensitive
    || is_allowed_strip u.source_key && u.intentional_strip

-- A refused key is of a sensitive row that is not allow-listed.
pub is_rightly_refused : List ManagedCheck → String → Bool
is_rightly_refused managed key =
    is_live_sensitive (by_key managed key) && not (is_allowed_strip key)

pub guards_redaction : List ManagedCheck → B10FieldUpdateResult → Bool
guards_redaction managed r =
    all (keeps_redaction managed) r.updates && all (is_rightly_refused managed) r.blocked_strips

-- What a step of the loop may be for a managed check.
abbrev step_ok : List ManagedCheck → B10Step → Bool
step_ok managed skipped = true
step_ok managed (updated u) = keeps_redaction managed u
step_ok managed (refused key) = is_rightly_refused managed key

b10_step_ok :
    (m : Monitor) (managed : List ManagedCheck) (c : Option ManagedCheck)
    → by_key managed m.id ≡ c
    → step_ok managed (b10_step m c) ≡ true
unfolding b10_step keeps_redaction is_rightly_refused is_redaction_strip
b10_step_ok m managed none h = refl
b10_step_ok m managed (some c) h = ground (arith, h)

push_step_guards :
    (managed : List ManagedCheck) (s : B10Step) (r : B10FieldUpdateResult)
    → step_ok managed s ≡ true
    → guards_redaction managed r ≡ true
    → guards_redaction managed (push_step s r) ≡ true
unfolding push_step guards_redaction
push_step_guards managed skipped r hs hr = hr
push_step_guards managed (updated u) r hs hr = ground arith
push_step_guards managed (refused key) r hs hr = ground arith

-- Every update that makes a sensitive live row non-sensitive is of an allow-listed key and is marked
-- as an intentional strip, and every refused key is of a sensitive live row and not allow-listed.
pub b10_field_updates_guards :
    (monitors : List Monitor) (managed : List ManagedCheck)
    → guards_redaction managed (b10_field_updates monitors managed) ≡ true
unfolding b10_field_updates guards_redaction
b10_field_updates_guards [] managed = refl
b10_field_updates_guards (m ∷ ms) managed =
    push_step_guards managed (b10_step m (by_key managed m.id)) (b10_field_updates ms managed)
      (b10_step_ok m managed (by_key managed m.id) refl) (b10_field_updates_guards ms managed)
