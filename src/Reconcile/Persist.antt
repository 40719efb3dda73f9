-- ===== src/Reconcile/Persist.antt =====
-- `persistApplyPlan` of runner/reconcileMain.ts: the table of plans with the decisions of a human.
pub mod Keys
pub mod Upsert
pub mod Decisions
use synthwatch.Prelude.{
  ℕ, ◌==◌, String, Bool, true, false, ◌&&◌, List, [], ◌∷◌, if◌then◌else◌, any, filter, str_eq, map,
}
use synthwatch.Reconcile.Drift.{DriftType, new, changed, missing, orphan, redaction_mismatch}
use synthwatch.Reconcile.Plan.{Disposition, Statement, ApplyPlanRow}

-- reconcile_apply_plan.status
pub data PlanStatus : Type 0 where
  computed : Disposition → PlanStatus
  approved rejected applied : PlanStatus

-- A row of `reconcile_apply_plan`.
pub record StoredPlan : Type 0 where
  pub source_key : String
  pub drift_type : DriftType
  pub status : PlanStatus
  pub statements : List Statement

abbrev pub rank : DriftType → ℕ
rank new = 0
rank changed = 1
rank missing = 2
rank orphan = 3
rank redaction_mismatch = 4

-- A key `(source_key, drift_type)`.
abbrev pub PlanKey : Type 0
PlanKey = String × DriftType

abbrev pub same_key : PlanKey → PlanKey → Bool
same_key (k, t) (k', t') = str_eq k k' && rank t == rank t'

abbrev pub key_of : StoredPlan → PlanKey
key_of r = (r.source_key, r.drift_type)

abbrev pub plan_key : ApplyPlanRow → PlanKey
plan_key p = (p.source_key, p.drift_type)

-- `status IN ('approved', 'rejected', 'applied')`
abbrev pub is_decided : PlanStatus → Bool
is_decided (computed d) = false
is_decided _ = true

abbrev pub fresh_plan : ApplyPlanRow → StoredPlan
fresh_plan p = record {
  source_key = p.source_key;
  drift_type = p.drift_type;
  status = computed p.status;
  statements = p.statements;
}

-- The DO UPDATE of the statement.
abbrev pub refreshed : ApplyPlanRow → StoredPlan → StoredPlan
refreshed p r = record r {
  status = if is_decided r.status then r.status else computed p.status;
  statements = p.statements;
}

abbrev pub refresh_row : ApplyPlanRow → StoredPlan → StoredPlan
refresh_row p r = if same_key (plan_key p) (key_of r) then refreshed p r else r

-- The INSERT with its ON CONFLICT.
pub upsert_plan : ApplyPlanRow → List StoredPlan → List StoredPlan
upsert_plan p rows =
    if any (λ r. same_key (plan_key p) (key_of r)) rows
    then map (refresh_row p) rows
    else fresh_plan p ∷ rows

pub upsert_plans : List ApplyPlanRow → List StoredPlan → List StoredPlan
unfolding upsert_plan
upsert_plans [] rows = rows
upsert_plans (p ∷ ps) rows = upsert_plans ps (upsert_plan p rows)

-- The plans that still have a drift.
abbrev pub has_plan : List ApplyPlanRow → StoredPlan → Bool
has_plan plans r = any (λ p. same_key (plan_key p) (key_of r)) plans

-- `persistApplyPlan`
pub persist_apply_plan : List ApplyPlanRow → List StoredPlan → List StoredPlan
unfolding upsert_plans
persist_apply_plan [] rows = []
persist_apply_plan (p ∷ ps) rows = upsert_plans (p ∷ ps) (filter (has_plan (p ∷ ps)) rows)
