-- ===== src/Reconcile/Plan.antt =====
-- `computeApplyPlan` of runner/reconcile.ts and the statements that it renders. A statement is its
-- columns with their values; a throw is nothing.
pub mod Safety
pub mod Totality
pub mod Agreement
pub mod Converge
use synthwatch.Prelude.{
  String, ℕ, Option, none, some, Bool, true, false, not, ◌&&◌, List, [], ◌∷◌, ◌++◌, if◌then◌else◌,
  str_eq, any, map, filter, ◌==◌,
}
use synthwatch.SpecPath.{flow_name_for, is_valid_spec_path}
use synthwatch.EnvDomain.{UrlParser, EnvDomainRule}
use synthwatch.Reconcile.{
  Monitor, Column, column_number, name, kind, target_url, flow_name, sensitive, redact_patterns,
  environment, rewrite_from_origin, interval_seconds, enabled, spec_path, source_key, Value, null,
  text, chars, flag, number, json, text_or_null, or_false, or_number, git_authoritative_columns,
  is_redaction_column,
}
use synthwatch.Reconcile.Drift.{
  DriftType, new, changed, missing, orphan, redaction_mismatch, FieldDiff, DriftRow, by_id,
  git_environment,
}
use synthwatch.Reconcile.Sync.{is_redaction_strip, is_allowed_strip}

-- DEFAULT_INTERVAL_SECONDS
abbrev pub default_interval_seconds : ℕ
default_interval_seconds = 300

pub same_column : Column → Column → Bool
same_column a b = column_number a == column_number b

pub has_column : Column → List Column → Bool
unfolding same_column
has_column c cols = any (same_column c) cols

-- CHANGED_UPDATE_COLUMNS
pub changed_update_columns : List Column
changed_update_columns = filter (λ c. not (is_redaction_column c)) git_authoritative_columns

-- One assignment of a statement.
pub record Assignment : Type 0 where
  pub column : Column
  pub value : Value

abbrev assign : Column → Value → Assignment
assign c v = record { column = c; value = v }

-- A statement of the plan. An upsert inserts its assignments, and on a conflict sets the columns
-- that it lists; an update sets its assignments on the row of its key.
pub data Statement : Type 0 where
  upsert_check : List Assignment → List Column → Statement
  assign_locations : List String → Statement
  update_check : String → List Assignment → Statement

pub data Disposition : Type 0 where
  pending auto blocked noop : Disposition

-- `ApplyPlanRow`; its summary texts are left out.
pub record ApplyPlanRow : Type 0 where
  pub source_key : String
  pub drift_type : DriftType
  pub status : Disposition
  pub statements : List Statement

-- `updateColumns` of `buildApplyUpsert`
pub upsert_update_columns : List Column
upsert_update_columns = git_authoritative_columns ++ spec_path ∷ []

abbrev pub plan_row : String → DriftType → Disposition → List Statement → ApplyPlanRow
plan_row key type status statements = record {
  source_key = key;
  drift_type = type;
  status = status;
  statements = statements;
}

-- `values[enabledIdx] = false`
pub force_disabled : List Assignment → List Assignment
unfolding same_column
force_disabled [] = []
force_disabled (a ∷ rest) =
    if same_column a.column enabled
    then record { column = enabled; value = flag false } ∷ rest
    else a ∷ force_disabled rest

abbrev pub column_of : FieldDiff → Column
column_of d = d.column

abbrev pub value_in : Column → List FieldDiff → (FieldDiff → Value) → Value
value_in c [] side = null
value_in c (d ∷ ds) side = if same_column d.column c then side d else value_in c ds side

abbrev pub is_true : Value → Bool
is_true (flag true) = true
is_true _ = false

-- The `redaction_mismatch` branch.
pub is_blocked_strip : DriftRow → Bool
is_blocked_strip d =
    is_redaction_strip (is_true (value_in sensitive d.fields (λ f. f.git)))
      (is_true (value_in sensitive d.fields (λ f. f.live)))
    && not (is_allowed_strip d.source_key)

-- `isResolvableSpec`
pub is_resolvable_spec : String → Bool
is_resolvable_spec script = is_valid_spec_path script

pub push_set : Column → Option Value → Option (List Assignment) → Option (List Assignment)
push_set c none sets = none
push_set c (some v) none = none
push_set c (some v) (some rest) = some (assign c v ∷ rest)

pub push_rows : Option (List ApplyPlanRow) → Option (List ApplyPlanRow) → Option (List ApplyPlanRow)
push_rows none rest = none
push_rows (some rows) none = none
push_rows (some rows) (some rest) = some (rows ++ rest)

-- The materialize plan of a rendered upsert.
pub new_rows : List String → DriftRow → Option (List Assignment) → Option (List ApplyPlanRow)
new_rows active d none = none
new_rows active d (some values) = some (
    plan_row d.source_key new pending
      (upsert_check (force_disabled values) upsert_update_columns ∷ assign_locations active ∷ [])
    ∷ [])

pub update_of : String → Option (List Assignment) → Option Statement
update_of key none = none
update_of key (some sets) = some (update_check key sets)

pub changed_rows : DriftRow → Option Statement → Option (List ApplyPlanRow)
changed_rows d none = none
changed_rows d (some s) = some (plan_row d.source_key changed pending (s ∷ []) ∷ [])

module _ (u : UrlParser) (env_map : List EnvDomainRule) where
  -- `insertColumns` and `values` of `buildApplyUpsert`, paired.
  pub insert_values : Monitor → List Assignment
  insert_values m =
      assign source_key (text m.id)
      ∷ assign name (text m.name)
      ∷ assign kind (text m.kind)
      ∷ assign target_url (text_or_null m.target)
      ∷ assign flow_name (chars (flow_name_for m.script))
      ∷ assign sensitive (flag (or_false m.sensitive))
      ∷ assign redact_patterns (json m.redact_patterns)
      ∷ assign environment (text (git_environment u env_map m))
      ∷ assign rewrite_from_origin (text_or_null m.rewrite_from_origin)
      ∷ assign interval_seconds
          (number (or_number m.suggested_interval_seconds default_interval_seconds))
      ∷ assign enabled (flag (or_false m.enabled_by_default))
      ∷ assign spec_path (text m.script)
      ∷ []

  -- `buildApplyUpsert`; a throw on a bad script.
  pub build_apply_upsert : Monitor → Option (List Assignment)
  build_apply_upsert m = if is_valid_spec_path m.script then some (insert_values m) else none

  -- `columnValue` of `buildChangedUpdate`
  pub column_value : Monitor → Column → Option Value
  column_value m name = some (text m.name)
  column_value m kind = some (text m.kind)
  column_value m target_url = some (text_or_null m.target)
  column_value m flow_name = some (chars (flow_name_for m.script))
  column_value m environment = some (text (git_environment u env_map m))
  column_value m rewrite_from_origin = some (text_or_null m.rewrite_from_origin)
  column_value m _ = none

  -- The assignments of the columns; a throw on a column without a value.
  pub column_values : Monitor → List Column → Option (List Assignment)
  column_values m [] = some (assign spec_path (text m.script) ∷ [])
  column_values m (c ∷ cs) = push_set c (column_value m c) (column_values m cs)

  -- `buildChangedUpdate`
  pub build_changed_update : Monitor → List Column → Option Statement
  build_changed_update m drifted =
      if is_valid_spec_path m.script
      then update_of m.id
          (column_values m (filter (λ c. has_column c drifted) changed_update_columns))
      else none

  -- The `new` branch on a monitor of the manifest.
  pub plan_new : List String → DriftRow → Monitor → Option (List ApplyPlanRow)
  plan_new active d m =
      if str_eq m.kind "browser" && not (is_resolvable_spec m.script)
      then some (plan_row d.source_key new blocked [] ∷ [])
      else new_rows active d (build_apply_upsert m)

  -- The `changed` branch on a monitor of the manifest.
  pub plan_changed : DriftRow → Monitor → Option (List ApplyPlanRow)
  plan_changed d m = changed_rows d (build_changed_update m (map column_of d.fields))

  -- The loop's body, by the drift and the monitor of its key.
  pub plan_of : List String → DriftRow → DriftType → Option Monitor → Option (List ApplyPlanRow)
  plan_of active d new none = some []
  plan_of active d new (some m) = plan_new active d m
  plan_of active d changed none = some []
  plan_of active d changed (some m) = plan_changed d m
  plan_of active d redaction_mismatch _ = some (
      plan_row d.source_key redaction_mismatch (if is_blocked_strip d then blocked else auto) []
      ∷ [])
  plan_of active d missing _ = some (
      plan_row d.source_key missing pending
        (update_check d.source_key (assign enabled (flag false) ∷ []) ∷ [])
      ∷ [])
  plan_of active d orphan _ = some (plan_row d.source_key orphan noop [] ∷ [])

  -- `computeApplyPlan`
  pub compute_apply_plan : List Monitor → List String → List DriftRow → Option (List ApplyPlanRow)
  compute_apply_plan monitors active [] = some []
  compute_apply_plan monitors active (d ∷ ds) =
      push_rows (plan_of active d d.drift_type (by_id monitors d.source_key))
        (compute_apply_plan monitors active ds)
