-- ===== src/Reconcile/Persist/Decisions.antt =====
-- What `persistApplyPlan` of runner/reconcileMain.ts does to the plan of each key.
use synthwatch.Prelude.{
  Option, none, some, Bool, true, false, ◌||◌, List, [], ◌∷◌, ◌≡◌, ◌≢◌, refl, ap, ◌∙◌, sym,
  if◌then◌else◌, any, any_ext, filter,
}
use synthwatch.Reconcile.Plan.{Disposition, ApplyPlanRow}
use synthwatch.Reconcile.Persist.{
  PlanStatus, computed, approved, rejected, applied, StoredPlan, PlanKey, same_key, key_of,
  plan_key, is_decided, has_plan, persist_apply_plan,
}
use synthwatch.Reconcile.Persist.Keys.{same_key_congr, same_key_comm}
use synthwatch.Reconcile.Persist.Upsert.{
  plan_at, settled, unique_plans, planned_at, settled_by, upserts_at,
}

-- Whether the key has a plan, by a row of the key.
has_plan_at :
    (ps : List ApplyPlanRow) (r : StoredPlan) (k : PlanKey)
    → same_key k (key_of r) ≡ true
    → has_plan ps r ≡ any (λ p. same_key k (plan_key p)) ps
has_plan_at ps r k e =
    any_ext (λ p. same_key (plan_key p) (key_of r)) (λ p. same_key k (plan_key p))
      (λ p.
        same_key_comm (plan_key p) (key_of r) ∙ sym (same_key_congr k (key_of r) (plan_key p) e))
      ps

-- A row in front of the rows that are kept.
front_at :
    (k : PlanKey) (r : StoredPlan) (rows : List StoredPlan) (h : Bool)
    → plan_at k (if h then r ∷ rows else rows)
      ≡ (if h then (if same_key k (key_of r) then some r else plan_at k rows) else plan_at k rows)
front_at k r rows true = refl
front_at k r rows false = refl

true_ne_false : true ≢ false
true_ne_false h = cc

choose :
    (c h a : Bool) (x y z : Option StoredPlan)
    → (c ≡ true → h ≡ a)
    → z ≡ (if a then y else none)
    → (if h then (if c then x else z) else z) ≡ (if a then (if c then x else y) else none)
choose true true true x y z e i = refl
choose true true false x y z e i = absurd (true_ne_false (e refl))
choose true false true x y z e i = absurd (true_ne_false (sym (e refl)))
choose true false false x y z e i = i
choose false true a x y z e i = i
choose false false a x y z e i = i

kept_at :
    (ps : List ApplyPlanRow) (rows : List StoredPlan) (k : PlanKey)
    → plan_at k (filter (has_plan ps) rows)
      ≡ (if any (λ p. same_key k (plan_key p)) ps then plan_at k rows else none)
kept_at ps [] k =
    elim (any (λ p. same_key k (plan_key p)) ps)
      as (λ a. ◌≡◌ {A = Option StoredPlan} none (if a then none else none)) [
        | true ↦ refl
        | false ↦ refl
      ]
kept_at ps (r ∷ rows) k =
    front_at k r (filter (has_plan ps) rows) (has_plan ps r)
    ∙ choose (same_key k (key_of r)) (has_plan ps r) (any (λ p. same_key k (plan_key p)) ps)
        (some r) (plan_at k rows) (plan_at k (filter (has_plan ps) rows)) (has_plan_at ps r k)
        (kept_at ps rows k)

-- The status of a plan that is computed again: a decision of a human, or of the apply, stands.
abbrev pub standing : PlanStatus → Disposition → PlanStatus
standing approved d = approved
standing rejected d = rejected
standing applied d = applied
standing (computed old) d = computed d

-- What is stored of a plan, over what was stored of its key.
abbrev pub decided : ApplyPlanRow → Option StoredPlan → StoredPlan
decided p none = record {
  source_key = p.source_key;
  drift_type = p.drift_type;
  status = computed p.status;
  statements = p.statements;
}
decided p (some r) = record {
  source_key = r.source_key;
  drift_type = r.drift_type;
  status = standing r.status p.status;
  statements = p.statements;
}

standing_lem :
    (s : PlanStatus) (d : Disposition) → (if is_decided s then s else computed d) ≡ standing s d
standing_lem (computed old) d = refl
standing_lem approved d = refl
standing_lem rejected d = refl
standing_lem applied d = refl

settled-decided : (p : ApplyPlanRow) (o : Option StoredPlan) → settled p o ≡ decided p o
settled-decided p none = refl
settled-decided p (some r) =
    ap (λ s. record r { status = s; statements = p.statements }) (standing_lem r.status p.status)

-- The row of a key after `persistApplyPlan`.
abbrev pub persisted : Option ApplyPlanRow → Option StoredPlan → Option StoredPlan
persisted none o = none
persisted (some p) o = some (decided p o)

planned_or_none :
    (k : PlanKey) (ps : List ApplyPlanRow) (o : Option StoredPlan)
    → settled_by (planned_at k ps) (if any (λ p. same_key k (plan_key p)) ps then o else none)
      ≡ persisted (planned_at k ps) o
planned_or_none k [] o = refl
planned_or_none k (p ∷ ps) o =
    elim (same_key k (plan_key p))
      as (λ a.
        settled_by (if a then some p else planned_at k ps)
          (if a || any (λ q. same_key k (plan_key q)) ps then o else none)
        ≡ persisted (if a then some p else planned_at k ps) o) [
          | true ↦ ap some (settled-decided p o)
          | false ↦ planned_or_none k ps o
        ]

-- Every run of the reconcile, the plans having one key each, leaves for each key: nothing, where there is
-- no plan of the key any more; the plan as it was computed, where the table had none; and else the new
-- statements, under the status `approved`, `rejected` or `applied` where the stored plan had it, and under the
-- disposition computed now where it had none of these.
pub persist_apply_plan_settles :
    (plans : List ApplyPlanRow) (rows : List StoredPlan) (key : PlanKey)
    → unique_plans plans ≡ true
    → plan_at key (persist_apply_plan plans rows)
      ≡ persisted (planned_at key plans) (plan_at key rows)
unfolding persist_apply_plan
persist_apply_plan_settles [] rows k u = refl
persist_apply_plan_settles (p ∷ ps) rows k u =
    upserts_at (p ∷ ps) (filter (has_plan (p ∷ ps)) rows) k u
    ∙ ap (settled_by (planned_at k (p ∷ ps))) (kept_at (p ∷ ps) rows k)
    ∙ planned_or_none k (p ∷ ps) (plan_at k rows)
