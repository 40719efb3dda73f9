-- ===== src/Reconcile/Persist/Upsert.antt =====
-- The upserts of `persistApplyPlan` of runner/reconcileMain.ts, key by key.
use synthwatch.Prelude.{
  Option, none, some, Bool, true, false, ◌&&◌, ◌||◌, List, [], ◌∷◌, ◌≡◌, refl, ap, ◌∙◌, sym,
  if◌then◌else◌, any, find?, not, arith, map,
}
use synthwatch.Reconcile.Plan.{ApplyPlanRow}
use synthwatch.Reconcile.Persist.{
  StoredPlan, PlanKey, same_key, key_of, plan_key, fresh_plan, refreshed, refresh_row, upsert_plan,
  upsert_plans,
}
use synthwatch.Reconcile.Persist.Keys.{same_key_eq, same_key_congr, apart}

abbrev pub plan_at : PlanKey → List StoredPlan → Option StoredPlan
plan_at k rows = find? (λ r. same_key k (key_of r)) rows

-- The row of a key after a plan for it.
abbrev pub settled : ApplyPlanRow → Option StoredPlan → StoredPlan
settled p none = fresh_plan p
settled p (some r) = refreshed p r

key_of_refresh : (p : ApplyPlanRow) (r : StoredPlan) → key_of (refresh_row p r) ≡ key_of r
key_of_refresh p r =
    elim (same_key (plan_key p) (key_of r))
      as (λ b. key_of (if b then refreshed p r else r) ≡ key_of r) [ true ↦ refl | false ↦ refl ]

refreshed_at :
    (p : ApplyPlanRow) (rows : List StoredPlan) (k : PlanKey)
    → same_key k (plan_key p) ≡ true
    → any (λ r. same_key (plan_key p) (key_of r)) rows ≡ true
    → plan_at k (map (refresh_row p) rows) ≡ some (settled p (plan_at k rows))
refreshed_at p [] k h m = cc
refreshed_at p (r ∷ rows) k h m =
    let b = same_key (plan_key p) (key_of r) in
    let e = ap (same_key k) (key_of_refresh p r) ∙ same_key_congr k (plan_key p) (key_of r) h in
    ap (λ z. if z then some (refresh_row p r) else plan_at k (map (refresh_row p) rows)) e
    ∙ elim b
          as (λ z.
            (z || any (λ x. same_key (plan_key p) (key_of x)) rows) ≡ true
            → (if z
                then some (if z then refreshed p r else r)
                else plan_at k (map (refresh_row p) rows))
              ≡ some (settled p (if z then some r else plan_at k rows))) [
                | true ↦ λ t. refl
                | false ↦ λ t. refreshed_at p rows k h t
              ]
        m
    ∙ ap (λ z. some (settled p (if z then some r else plan_at k rows)))
        (sym (same_key_congr k (plan_key p) (key_of r) h))

others_at :
    (p : ApplyPlanRow) (rows : List StoredPlan) (k : PlanKey)
    → same_key k (plan_key p) ≡ false
    → plan_at k (map (refresh_row p) rows) ≡ plan_at k rows
others_at p [] k h = refl
others_at p (r ∷ rows) k h =
    ap (λ z. if z then some (refresh_row p r) else plan_at k (map (refresh_row p) rows))
      (ap (same_key k) (key_of_refresh p r))
    ∙ elim (same_key k (key_of r))
          as (λ z.
            (same_key k (key_of r) ≡ z)
            → (if z then some (refresh_row p r) else plan_at k (map (refresh_row p) rows))
              ≡ (if z then some r else plan_at k rows)) [
                | true ↦ λ e. rw (apart k (plan_key p) (key_of r) h e) refl
                | false ↦ λ e. others_at p rows k h
              ]
        refl

no_row :
    (k : PlanKey) (rows : List StoredPlan)
    → any (λ r. same_key k (key_of r)) rows ≡ false
    → plan_at k rows ≡ none
no_row k [] h = refl
no_row k (r ∷ rows) h = ground (arith, no_row k rows)

upsert_at :
    (p : ApplyPlanRow) (rows : List StoredPlan) (k : PlanKey)
    → plan_at k (upsert_plan p rows)
      ≡ (if same_key k (plan_key p) then some (settled p (plan_at k rows)) else plan_at k rows)
unfolding upsert_plan
upsert_at p rows k =
    let found = any (λ r. same_key (plan_key p) (key_of r)) rows in
    elim (same_key k (plan_key p))
        as (λ a.
          (same_key k (plan_key p) ≡ a)
          → plan_at k (if found then map (refresh_row p) rows else fresh_plan p ∷ rows)
            ≡ (if a then some (settled p (plan_at k rows)) else plan_at k rows)) [
              | true ↦ λ e.
                  elim found
                      as (λ m.
                        (found ≡ m)
                        → plan_at k (if m then map (refresh_row p) rows else fresh_plan p ∷ rows)
                          ≡ some (settled p (plan_at k rows))) [
                            | true ↦ λ f. refreshed_at p rows k e f
                            | false ↦ λ f.
                                rw
                                  (
                                    e,
                                    no_row k rows (
                                        ap (λ z. any (λ r. same_key z (key_of r)) rows)
                                          (same_key_eq k (plan_key p) e)
                                        ∙ f),
                                  )
                                  refl
                          ]
                    refl
              | false ↦ λ e.
                  elim found
                    as (λ m.
                      plan_at k (if m then map (refresh_row p) rows else fresh_plan p ∷ rows)
                      ≡ plan_at k rows) [ true ↦ others_at p rows k e | false ↦ rw e refl ]
            ]
      refl

-- The keys of the plans are not repeated.
abbrev pub unique_plans : List ApplyPlanRow → Bool
unique_plans [] = true
unique_plans (p ∷ ps) = not (any (λ q. same_key (plan_key p) (plan_key q)) ps) && unique_plans ps

abbrev pub planned_at : PlanKey → List ApplyPlanRow → Option ApplyPlanRow
planned_at k ps = find? (λ p. same_key k (plan_key p)) ps

-- The row of a key after the plans, of which there may be one for it.
abbrev pub settled_by : Option ApplyPlanRow → Option StoredPlan → Option StoredPlan
settled_by none o = o
settled_by (some p) o = some (settled p o)

unplanned :
    (k : PlanKey) (ps : List ApplyPlanRow)
    → any (λ p. same_key k (plan_key p)) ps ≡ false
    → planned_at k ps ≡ none
unplanned k [] h = refl
unplanned k (p ∷ ps) h = ground (arith, unplanned k ps)

pub upserts_at :
    (ps : List ApplyPlanRow) (rows : List StoredPlan) (k : PlanKey)
    → unique_plans ps ≡ true
    → plan_at k (upsert_plans ps rows) ≡ settled_by (planned_at k ps) (plan_at k rows)
unfolding upsert_plans
upserts_at [] rows k u = refl
upserts_at (p ∷ ps) rows k u =
    upserts_at ps (upsert_plan p rows) k (ground arith)
    ∙ ap (settled_by (planned_at k ps)) (upsert_at p rows k)
    ∙ elim (same_key k (plan_key p))
          as (λ a.
            (same_key k (plan_key p) ≡ a)
            → settled_by (planned_at k ps)
                (if a then some (settled p (plan_at k rows)) else plan_at k rows)
              ≡ settled_by (if a then some p else planned_at k ps) (plan_at k rows)) [
                | true ↦ λ e.
                    rw
                      (unplanned k ps (
                        ap (λ z. any (λ q. same_key z (plan_key q)) ps)
                          (same_key_eq k (plan_key p) e)
                        ∙ (ground arith)))
                      refl
                | false ↦ λ e. refl
              ]
        refl
