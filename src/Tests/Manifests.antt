-- ===== src/Tests/Manifests.antt =====
-- The theorems on runner/reconcile.ts at two monitors and two managed checks.
use synthwatch.Prelude.{none, some, true, false, List, [], ◌∷◌, ◌≡◌, refl, all, is_some, map}
use synthwatch.SpecPath.{is_valid_spec_path, codes}
use synthwatch.EnvDomain.{UrlParser, EnvDomainRule}
use synthwatch.Reconcile.{Monitor, ManagedCheck}
use synthwatch.Reconcile.Drift.{DriftRow, changed, changed_fields}
use synthwatch.Reconcile.Sync.{b10_field_updates, removed_at_updates}
use synthwatch.Reconcile.Sync.Redaction.{guards_redaction, b10_field_updates_guards}
use synthwatch.Reconcile.Sync.Removal.{write_all, removed_at_updates_settle}
use synthwatch.Reconcile.Plan.{compute_apply_plan, ApplyPlanRow, pending}
use synthwatch.Reconcile.Manifest.Values.{
  Json, natural, boolean, string, array, object, nil, cons, end, field,
}
use synthwatch.Reconcile.Manifest.{Rules, validate_manifest}
use synthwatch.Reconcile.Manifest.WellFormed.{AreValid, validate_manifest-AreValid}
use synthwatch.Reconcile.Persist.{StoredPlan, approved, rejected, persist_apply_plan}
use synthwatch.Reconcile.Persist.Upsert.{plan_at, planned_at}
use synthwatch.Reconcile.Persist.Decisions.{persisted, persist_apply_plan_settles}
use synthwatch.Reconcile.Plan.Safety.{is_safe_plan, compute_apply_plan_safe}
use synthwatch.Reconcile.Plan.Totality.{has_valid_script, compute_apply_plan_total}
use synthwatch.Reconcile.Plan.Agreement.{redaction_row}

abbrev parser : UrlParser
parser = record { hostname = λ t. some (codes t); to_lower_case = λ t. t }

abbrev rules : List EnvDomainRule
rules = record { pattern = "*.test"; environment = "stage" } ∷ []

abbrev search : Monitor
search = record {
  id = "search";
  name = "Search";
  script = "monitors/search.spec.ts";
  kind = "browser";
  suggested_interval_seconds = none;
  target = some "shop.test";
  enabled_by_default = some true;
  sensitive = some false;
  redact_patterns = none;
  environment = none;
  rewrite_from_origin = none;
  redtest_anchor = none;
}

-- The live row of the monitor, with another name, and sensitive.
abbrev live_search : ManagedCheck
live_search = record {
  source_key = "search";
  name = "Old search";
  kind = "browser";
  target_url = "shop.test";
  flow_name = none;
  sensitive = true;
  redact_patterns = none;
  environment = "prod";
  rewrite_from_origin = none;
  redtest_anchor = none;
  removed_at = none;
}

-- A check that the manifest no longer has.
abbrev gone : ManagedCheck
gone = record live_search { source_key = "gone" }

abbrev drift : List DriftRow
drift =
    record {
      source_key = "search";
      drift_type = changed;
      fields = changed_fields parser rules search live_search;
    }
    ∷ redaction_row search live_search
    ∷ []

compute_apply_plan_safe_example :
    is_safe_plan (compute_apply_plan parser rules (search ∷ []) ("east" ∷ []) drift) ≡ true
compute_apply_plan_safe_example =
    compute_apply_plan_safe parser rules (search ∷ []) ("east" ∷ []) drift

valid_scripts : all has_valid_script (search ∷ []) ≡ true
unfolding has_valid_script is_valid_spec_path
valid_scripts = refl

compute_apply_plan_total_example :
    is_some (compute_apply_plan parser rules (search ∷ []) ("east" ∷ []) drift) ≡ true
compute_apply_plan_total_example =
    compute_apply_plan_total parser rules (search ∷ []) ("east" ∷ []) drift valid_scripts

b10_field_updates_guards_example :
    guards_redaction
      (live_search ∷ gone ∷ [])
      (b10_field_updates (search ∷ []) (live_search ∷ gone ∷ []))
    ≡ true
b10_field_updates_guards_example = b10_field_updates_guards (search ∷ []) (live_search ∷ gone ∷ [])

removed_at_updates_settle_example :
    removed_at_updates (search ∷ []) (
      map
        (write_all 9 (removed_at_updates (search ∷ []) (live_search ∷ gone ∷ [])))
        (live_search ∷ gone ∷ []))
    ≡ []
removed_at_updates_settle_example =
    removed_at_updates_settle 9 (search ∷ []) (live_search ∷ gone ∷ [])

abbrev recomputed : ApplyPlanRow
recomputed = record {
  source_key = "search";
  drift_type = changed;
  status = pending;
  statements = [];
}

abbrev stored_plans : List StoredPlan
stored_plans =
    record { source_key = "search"; drift_type = changed; status = approved; statements = [] }
    ∷ record { source_key = "cart"; drift_type = changed; status = rejected; statements = [] }
    ∷ []

persist_apply_plan_settles_example :
    plan_at ("search", changed) (persist_apply_plan (recomputed ∷ []) stored_plans)
    ≡ persisted
        (planned_at ("search", changed) (recomputed ∷ []))
        (plan_at ("search", changed) stored_plans)
persist_apply_plan_settles_example =
    persist_apply_plan_settles (recomputed ∷ []) stored_plans ("search", changed) refl

abbrev schema_rules : Rules
schema_rules = record { length_of = λ s. 6; compiles = λ s. true; is_origin = λ s. true }

abbrev entry : Json
entry = object (
    field "id" (string "search") (
      field "name" (string "Search") (
        field "script" (string "monitors/search.spec.ts") (
          field "kind" (string "browser") (
            field "sensitive" (boolean true)
              (field "redact_patterns" (array (cons (string "tok_") nil)) end))))))

abbrev manifest : Json
manifest =
    object (field "schemaVersion" (natural 1) (field "monitors" (array (cons entry nil)) end))

-- The manifest passes.
manifest_test : is_some (validate_manifest schema_rules manifest) ≡ true
unfolding validate_manifest
manifest_test = refl

validate_manifest-AreValid_example :
    AreValid schema_rules [] (validate_manifest schema_rules manifest)
validate_manifest-AreValid_example = validate_manifest-AreValid schema_rules manifest
