-- ===== src/Reconcile/Plan/Agreement.antt =====
-- The two guards of runner/reconcile.ts against a redaction strip: that of the plan and that of the
-- write path.
use synthwatch.Prelude.{some, Bool, true, false, ◌≡◌, arith}
use synthwatch.Reconcile.{Monitor, ManagedCheck}
use synthwatch.Reconcile.Equality.{bool_eq}
use synthwatch.Reconcile.Drift.{DriftRow, redaction_mismatch, redaction_fields}
use synthwatch.Reconcile.Sync.{B10Step, refused, b10_step, is_redaction_strip}
use synthwatch.Reconcile.Plan.{is_blocked_strip, same_column}

abbrev pub is_refused : B10Step → Bool
is_refused (refused _) = true
is_refused _ = false

-- The redaction row that the drift has for a monitor and its check.
abbrev pub redaction_row : Monitor → ManagedCheck → DriftRow
redaction_row m c = record {
  source_key = m.id;
  drift_type = redaction_mismatch;
  fields = redaction_fields m c;
}

-- The plan blocks the redaction drift of a monitor and its check just when the write path refuses the
-- update.
pub is_blocked_strip_agrees :
    (m : Monitor) (c : ManagedCheck)
    → is_blocked_strip (redaction_row m c) ≡ is_refused (b10_step m (some c))
unfolding is_blocked_strip b10_step is_redaction_strip redaction_fields bool_eq same_column
is_blocked_strip_agrees m c = ground arith
