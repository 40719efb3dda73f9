-- ===== src/Reconcile/Sync.antt =====
-- The writes that runner/reconcile.ts makes outside the apply plan: `isRedactionStrip`,
-- `b10FieldUpdates`, `redtestAnchorUpdates`, `removedAtUpdates`.
pub mod Redaction
pub mod Coverage
pub mod Removal
use synthwatch.Prelude.{
  String, Option, none, some, Bool, true, false, not, ◌&&◌, List, [], ◌∷◌, ◌++◌, if◌then◌else◌,
  str_eq, any, is_some,
}
use synthwatch.Reconcile.{Monitor, ManagedCheck, or_false, redaction_strip_allowance}
use synthwatch.Reconcile.Equality.{text_eq, patterns_eq, bool_eq}
use synthwatch.Reconcile.Drift.{by_key}

-- `isRedactionStrip`
unfoldable pub is_redaction_strip : Bool → Bool → Bool
is_redaction_strip want_sensitive live_sensitive = live_sensitive && not want_sensitive

-- `REDACTION_STRIP_ALLOWANCE.has`
pub is_allowed_strip : String → Bool
is_allowed_strip key = any (str_eq key) redaction_strip_allowance

-- `B10Update`
pub record B10Update : Type 0 where
  pub source_key : String
  pub sensitive : Bool
  pub redact_patterns : Option (List String)
  pub intentional_strip : Bool

-- What the loop of `b10FieldUpdates` does with one monitor.
pub data B10Step : Type 0 where
  skipped : B10Step
  updated : B10Update → B10Step
  refused : String → B10Step

abbrev pub b10_update_of : Monitor → Bool → B10Update
b10_update_of m strip = record {
  source_key = m.id;
  sensitive = or_false m.sensitive;
  redact_patterns = m.redact_patterns;
  intentional_strip = strip;
}

unfoldable pub b10_step : Monitor → Option ManagedCheck → B10Step
b10_step m none = skipped
b10_step m (some c) =
    if bool_eq c.sensitive (or_false m.sensitive) && patterns_eq m.redact_patterns c.redact_patterns
    then skipped
    else if is_redaction_strip (or_false m.sensitive) c.sensitive && not (is_allowed_strip m.id)
    then refused m.id
    else updated (b10_update_of m (is_redaction_strip (or_false m.sensitive) c.sensitive))

-- `B10FieldUpdateResult`
pub record B10FieldUpdateResult : Type 0 where
  pub updates : List B10Update
  pub blocked_strips : List String

pub push_step : B10Step → B10FieldUpdateResult → B10FieldUpdateResult
push_step skipped r = r
push_step (updated u) r = record { updates = u ∷ r.updates; blocked_strips = r.blocked_strips }
push_step (refused key) r = record { updates = r.updates; blocked_strips = key ∷ r.blocked_strips }

-- `b10FieldUpdates`
pub b10_field_updates : List Monitor → List ManagedCheck → B10FieldUpdateResult
b10_field_updates [] managed = record { updates = []; blocked_strips = [] }
b10_field_updates (m ∷ ms) managed =
    push_step (b10_step m (by_key managed m.id)) (b10_field_updates ms managed)

-- `RedtestAnchorUpdate`
pub record RedtestAnchorUpdate : Type 0 where
  pub source_key : String
  pub redtest_anchor : Option String

pub redtest_step : Monitor → Option ManagedCheck → List RedtestAnchorUpdate
redtest_step m none = []
redtest_step m (some c) =
    if text_eq c.redtest_anchor m.redtest_anchor
    then []
    else record { source_key = m.id; redtest_anchor = m.redtest_anchor } ∷ []

-- `redtestAnchorUpdates`
pub redtest_anchor_updates : List Monitor → List ManagedCheck → List RedtestAnchorUpdate
redtest_anchor_updates [] managed = []
redtest_anchor_updates (m ∷ ms) managed =
    redtest_step m (by_key managed m.id) ++ redtest_anchor_updates ms managed

-- `RemovedAtUpdate`
pub record RemovedAtUpdate : Type 0 where
  pub source_key : String
  pub removed : Bool

-- `manifestIds.has(c.source_key)`
pub in_manifest : List Monitor → String → Bool
in_manifest monitors key = any (λ m. str_eq m.id key) monitors

pub is_empty : List Monitor → Bool
is_empty [] = true
is_empty (_ ∷ _) = false

-- What the loop of `removedAtUpdates` does with one managed check.
pub removed_at_step : List Monitor → ManagedCheck → List RemovedAtUpdate
removed_at_step monitors c =
    if not (in_manifest monitors c.source_key) && not (is_some c.removed_at)
    then if is_empty monitors then [] else record { source_key = c.source_key; removed = true } ∷ []
    else if in_manifest monitors c.source_key && is_some c.removed_at
    then record { source_key = c.source_key; removed = false } ∷ []
    else []

-- `removedAtUpdates`
pub removed_at_updates : List Monitor → List ManagedCheck → List RemovedAtUpdate
removed_at_updates monitors [] = []
removed_at_updates monitors (c ∷ cs) = removed_at_step monitors c ++ removed_at_updates monitors cs
