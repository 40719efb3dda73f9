-- ===== src/Reconcile/Plan/Totality.antt =====
-- When `computeApplyPlan` of runner/reconcile.ts throws.
use synthwatch.Prelude.{
  String, Option, none, some, Bool, true, List, [], ◌∷◌, all, is_some, ◌≡◌, refl, arith, subst, sym,
  filter, map, if◌then◌else◌,
}
use synthwatch.EnvDomain.{UrlParser, EnvDomainRule}
use synthwatch.SpecPath.{is_valid_spec_path}
use synthwatch.Reconcile.{Monitor, Column}
use synthwatch.Reconcile.Drift.{
  DriftType, new, changed, missing, orphan, redaction_mismatch, DriftRow, by_id, passes,
  passes-by_id,
}
use synthwatch.Reconcile.Plan.{
  Assignment, ApplyPlanRow, has_column, column_value, column_values, changed_update_columns,
  push_set, push_rows, compute_apply_plan, plan_of, plan_new, plan_changed, build_apply_upsert,
  build_changed_update, new_rows, changed_rows, update_of, is_resolvable_spec, column_of,
}

unfoldable pub has_valid_script : Monitor → Bool
has_valid_script m = is_valid_spec_path m.script

push_rows_some :
    (a b : Option (List ApplyPlanRow))
    → is_some a ≡ true
    → is_some b ≡ true
    → is_some (push_rows a b) ≡ true
unfolding push_rows
push_rows_some none b ha hb = cc
push_rows_some (some x) none ha hb = cc
push_rows_some (some x) (some y) ha hb = refl

changed_rows_some :
    (d : DriftRow) (m : Monitor) (sets : Option (List Assignment))
    → is_some sets ≡ true
    → is_some (changed_rows d (update_of m.id sets)) ≡ true
unfolding changed_rows update_of
changed_rows_some d m none h = cc
changed_rows_some d m (some x) h = refl

module _ (u : UrlParser) (env_map : List EnvDomainRule) where
  -- A test that keeps columns only among those with a value.
  column_values_some :
      (m : Monitor) (p : Column → Bool)
      → is_some (column_values u env_map m (filter p changed_update_columns)) ≡ true
  unfolding column_values changed_update_columns column_value push_set
  column_values_some m p = ground arith

  plan_new_some :
      (active : List String) (d : DriftRow) (m : Monitor)
      → is_valid_spec_path m.script ≡ true
      → is_some (plan_new u env_map active d m) ≡ true
  unfolding plan_new build_apply_upsert new_rows is_resolvable_spec
  plan_new_some active d m h = ground arith

  plan_changed_some :
      (d : DriftRow) (m : Monitor)
      → is_valid_spec_path m.script ≡ true
      → is_some (plan_changed u env_map d m) ≡ true
  unfolding plan_changed build_changed_update
  plan_changed_some d m h =
      let cols = filter (λ c. has_column c (map column_of d.fields)) changed_update_columns in
      subst
        (λ b.
          is_some
            (changed_rows d (if b then update_of m.id (column_values u env_map m cols) else none))
          ≡ true)
        (sym h)
        (changed_rows_some d m (column_values u env_map m cols)
          (column_values_some m (λ c. has_column c (map column_of d.fields))))

  plan_of_some :
      (active : List String) (d : DriftRow) (type : DriftType) (m : Option Monitor)
      → passes has_valid_script m ≡ true
      → is_some (plan_of u env_map active d type m) ≡ true
  unfolding plan_of has_valid_script
  plan_of_some active d new none h = refl
  plan_of_some active d new (some m) h = plan_new_some active d m h
  plan_of_some active d changed none h = refl
  plan_of_some active d changed (some m) h = plan_changed_some d m h
  plan_of_some active d redaction_mismatch m h = refl
  plan_of_some active d missing m h = refl
  plan_of_some active d orphan m h = refl

  -- When every monitor of the manifest has a valid spec path, the plan of any drift is computed: no
  -- row throws.
  pub compute_apply_plan_total :
      (monitors : List Monitor) (active : List String) (drift : List DriftRow)
      → all has_valid_script monitors ≡ true
      → is_some (compute_apply_plan u env_map monitors active drift) ≡ true
  unfolding compute_apply_plan
  compute_apply_plan_total monitors active [] h = refl
  compute_apply_plan_total monitors active (d ∷ ds) h =
      push_rows_some (plan_of u env_map active d d.drift_type (by_id monitors d.source_key))
        (compute_apply_plan u env_map monitors active ds)
        (plan_of_some active d d.drift_type (by_id monitors d.source_key)
          (passes-by_id has_valid_script monitors d.source_key h))
        (compute_apply_plan_total monitors active ds h)
