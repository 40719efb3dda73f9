-- ===== src/Reconcile/Plan/Safety.antt =====
-- What the statements of a plan of runner/reconcile.ts may set.
use synthwatch.Prelude.{
  String, Option, none, some, Bool, true, false, not, ◌&&◌, ◌||◌, List, [], ◌∷◌, str_eq, all, ◌≡◌,
  refl, arith, map, filter, if◌then◌else◌, some_inj, all-append,
}
use synthwatch.EnvDomain.{UrlParser, EnvDomainRule}
use synthwatch.SpecPath.{is_valid_spec_path}
use synthwatch.Reconcile.{
  Monitor, Column, name, kind, target_url, flow_name, sensitive, redact_patterns, environment,
  rewrite_from_origin, interval_seconds, enabled, spec_path, source_key, Value, flag,
}
use synthwatch.Reconcile.Drift.{
  DriftType, new, changed, missing, orphan, redaction_mismatch, DriftRow, by_id,
}
use synthwatch.Reconcile.Plan.{
  Statement, upsert_check, assign_locations, update_check, Assignment, ApplyPlanRow, has_column,
  column_value, column_values, build_changed_update, build_apply_upsert, insert_values,
  is_resolvable_spec, plan_row, column_of, blocked, changed_update_columns, push_set, push_rows,
  new_rows, update_of, changed_rows, compute_apply_plan, plan_of, plan_new, plan_changed,
  force_disabled, same_column, upsert_update_columns,
}

-- What an update may set: never a column of the redaction pair or the interval, and `enabled` only to
-- false.
pub is_safe_assignment : Assignment → Bool
is_safe_assignment a = is_safe a.column a.value
  where
    is_safe : Column → Value → Bool
    is_safe sensitive v = false
    is_safe redact_patterns v = false
    is_safe interval_seconds v = false
    is_safe enabled (flag false) = true
    is_safe enabled _ = false
    is_safe _ v = true

-- An insert that disables the check.
pub inserts_disabled : List Assignment → Bool
inserts_disabled [] = false
inserts_disabled (a ∷ rest) = is_disabled a.column a.value || inserts_disabled rest
  where
    is_disabled : Column → Value → Bool
    is_disabled enabled (flag false) = true
    is_disabled _ _ = false

pub is_safe_statement : Statement → Bool
unfolding is_safe_assignment inserts_disabled
is_safe_statement (upsert_check values on_conflict) =
    inserts_disabled values
    && not (has_column enabled on_conflict)
    && not (has_column interval_seconds on_conflict)
is_safe_statement (assign_locations _) = true
is_safe_statement (update_check _ sets) = all is_safe_assignment sets

pub is_safe_row : ApplyPlanRow → Bool
unfolding is_safe_statement
is_safe_row r = all is_safe_statement r.statements

-- A plan that is thrown is safe.
pub is_safe_plan : Option (List ApplyPlanRow) → Bool
is_safe_plan none = true
is_safe_plan (some rows) = all is_safe_row rows

module _ (u : UrlParser) (env_map : List EnvDomainRule) where
  column_value_safe :
      (m : Monitor) (c : Column) (v : Value)
      → column_value u env_map m c ≡ some v
      → is_safe_assignment (record { column = c; value = v }) ≡ true
  unfolding column_value is_safe_assignment
  column_value_safe m name v h = refl
  column_value_safe m kind v h = refl
  column_value_safe m target_url v h = refl
  column_value_safe m flow_name v h = refl
  column_value_safe m environment v h = refl
  column_value_safe m rewrite_from_origin v h = refl
  column_value_safe m source_key v h = refl
  column_value_safe m spec_path v h = refl
  column_value_safe m sensitive v h = cc
  column_value_safe m redact_patterns v h = cc
  column_value_safe m interval_seconds v h = cc
  column_value_safe m enabled v h = cc

  push_set_safe :
      (c : Column) (v : Option Value) (rest : Option (List Assignment))
      → ((x : Value) → v ≡ some x → is_safe_assignment (record { column = c; value = x }) ≡ true)
      → ((sets : List Assignment) → rest ≡ some sets → all is_safe_assignment sets ≡ true)
      → (sets : List Assignment) → push_set c v rest ≡ some sets
      → all is_safe_assignment sets ≡ true
  unfolding push_set
  push_set_safe c none rest hv hr sets h = cc
  push_set_safe c (some v) none hv hr sets h = cc
  push_set_safe c (some v) (some rest) hv hr sets h =
      ground (arith, hv v refl, hr rest refl, some_inj h)

  column_values_safe :
      (m : Monitor) (cs : List Column) (sets : List Assignment)
      → column_values u env_map m cs ≡ some sets
      → all is_safe_assignment sets ≡ true
  unfolding column_values is_safe_assignment
  column_values_safe m [] sets h = ground arith
  column_values_safe m (c ∷ cs) sets h =
      push_set_safe c (column_value u env_map m c) (column_values u env_map m cs)
        (column_value_safe m c) (column_values_safe m cs) sets h

  new_rows_safe :
      (active : List String) (d : DriftRow) (m : Monitor)
      → is_safe_plan (new_rows active d (build_apply_upsert u env_map m)) ≡ true
  unfolding build_apply_upsert insert_values is_safe_row is_safe_statement force_disabled
      upsert_update_columns same_column has_column inserts_disabled new_rows is_safe_plan
  new_rows_safe active d m =
      elim (is_valid_spec_path m.script)
        as (λ b.
          is_safe_plan (new_rows active d (if b then some (insert_values u env_map m) else none))
          ≡ true) [ true ↦ refl | false ↦ refl ]

  plan_new_safe :
      (active : List String) (d : DriftRow) (m : Monitor)
      → is_safe_plan (plan_new u env_map active d m) ≡ true
  unfolding plan_new is_safe_plan is_safe_row is_safe_statement
  plan_new_safe active d m =
      elim (str_eq m.kind "browser" && not (is_resolvable_spec m.script))
        as (λ b.
          is_safe_plan (
            if b
            then some (plan_row d.source_key new blocked [] ∷ [])
            else new_rows active d (build_apply_upsert u env_map m))
          ≡ true) [ true ↦ refl | false ↦ new_rows_safe active d m ]

  changed_rows_safe :
      (d : DriftRow) (m : Monitor) (sets : Option (List Assignment))
      → ((x : List Assignment) → sets ≡ some x → all is_safe_assignment x ≡ true)
      → is_safe_plan (changed_rows d (update_of m.id sets)) ≡ true
  unfolding is_safe_plan is_safe_row is_safe_statement changed_rows update_of
  changed_rows_safe d m none h = refl
  changed_rows_safe d m (some x) h = ground (arith, h x refl)

  plan_changed_safe :
      (d : DriftRow) (m : Monitor) → is_safe_plan (plan_changed u env_map d m) ≡ true
  unfolding plan_changed build_changed_update is_safe_plan changed_rows
  plan_changed_safe d m =
      let cols = filter (λ c. has_column c (map column_of d.fields)) changed_update_columns in
      elim (is_valid_spec_path m.script)
        as (λ b.
          is_safe_plan
            (changed_rows d (if b then update_of m.id (column_values u env_map m cols) else none))
          ≡ true) [
            | true ↦
                changed_rows_safe d m (column_values u env_map m cols) (column_values_safe m cols)
            | false ↦ refl
          ]

  plan_of_safe :
      (active : List String) (d : DriftRow) (type : DriftType) (m : Option Monitor)
      → is_safe_plan (plan_of u env_map active d type m) ≡ true
  unfolding plan_of is_safe_plan is_safe_row is_safe_statement is_safe_assignment
  plan_of_safe active d new none = refl
  plan_of_safe active d new (some m) = plan_new_safe active d m
  plan_of_safe active d changed none = refl
  plan_of_safe active d changed (some m) = plan_changed_safe d m
  plan_of_safe active d redaction_mismatch m = refl
  plan_of_safe active d missing m = refl
  plan_of_safe active d orphan m = refl

  push_rows_safe :
      (a b : Option (List ApplyPlanRow))
      → is_safe_plan a ≡ true
      → is_safe_plan b ≡ true
      → is_safe_plan (push_rows a b) ≡ true
  unfolding push_rows is_safe_plan
  push_rows_safe none b ha hb = refl
  push_rows_safe (some rows) none ha hb = refl
  push_rows_safe (some rows) (some rest) ha hb = all-append is_safe_row rows rest ha hb

  -- Whatever the manifest and the drift, no update of the plan sets a redaction column or the
  -- interval, or enables a check, and every insert of the plan is of a disabled check and leaves
  -- `enabled` and the interval as they are when the check is already there.
  pub compute_apply_plan_safe :
      (monitors : List Monitor) (active : List String) (drift : List DriftRow)
      → is_safe_plan (compute_apply_plan u env_map monitors active drift) ≡ true
  unfolding compute_apply_plan is_safe_plan
  compute_apply_plan_safe monitors active [] = refl
  compute_apply_plan_safe monitors active (d ∷ ds) =
      push_rows_safe (plan_of u env_map active d d.drift_type (by_id monitors d.source_key))
        (compute_apply_plan u env_map monitors active ds)
        (plan_of_safe active d d.drift_type (by_id monitors d.source_key))
        (compute_apply_plan_safe monitors active ds)
