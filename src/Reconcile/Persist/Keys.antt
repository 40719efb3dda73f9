-- ===== src/Reconcile/Persist/Keys.antt =====
-- The keys of the plans of runner/reconcileMain.ts.
use synthwatch.Prelude.{
  Bool, true, false, ◌&&◌, ◌≡◌, refl, ap, ◌∙◌, sym, str_eq, ◌==◌, arith, eq_iff, eq_refl,
}
use synthwatch.Reconcile.Drift.{DriftType, new, changed, missing, orphan, redaction_mismatch}
use synthwatch.Reconcile.Persist.{rank, PlanKey, same_key}

rank_inj : (s t : DriftType) → (rank s == rank t) ≡ true → s ≡ t
rank_inj new new h = refl
rank_inj changed changed h = refl
rank_inj missing missing h = refl
rank_inj orphan orphan h = refl
rank_inj redaction_mismatch redaction_mismatch h = refl
rank_inj s t h = cc

pub same_key_eq : (a b : PlanKey) → same_key a b ≡ true → a ≡ b
same_key_eq (k, s) (k', t) h =
    ap (λ z. (z, s)) ((eq_iff k k').0 (first_of (str_eq k k') (rank s == rank t) h))
    ∙ ap (λ z. (k', z)) (rank_inj s t (second_of (str_eq k k') (rank s == rank t) h))
  where
    first_of : (a b : Bool) → (a && b) ≡ true → a ≡ true
    first_of a b h = ground arith

    second_of : (a b : Bool) → (a && b) ≡ true → b ≡ true
    second_of a b h = ground arith

rank_refl : (t : DriftType) → (rank t == rank t) ≡ true
rank_refl t = ground arith

pub same_key_refl : (a : PlanKey) → same_key a a ≡ true
same_key_refl (k, t) = rw (eq_refl k, rank_refl t) refl

-- Whatever is tested of a key is the same of an equal key.
pub same_key_congr : (a b c : PlanKey) → same_key a b ≡ true → same_key a c ≡ same_key b c
same_key_congr a b c h = ap (λ z. same_key z c) (same_key_eq a b h)

pub same_key_sym : (a b : PlanKey) → same_key a b ≡ true → same_key b a ≡ true
same_key_sym a b h = sym (same_key_congr a b a h) ∙ same_key_refl a

pub same_key_comm : (a b : PlanKey) → same_key a b ≡ same_key b a
same_key_comm a b =
    elim (same_key a b) as (λ x. (same_key a b ≡ x) → x ≡ same_key b a) [
      | true ↦ λ e. sym (same_key_sym a b e)
      | false ↦ λ e.
          elim (same_key b a) as (λ y. (same_key b a ≡ y) → false ≡ y) [
            | true ↦ λ t. sym e ∙ same_key_sym b a t
            | false ↦ λ t. refl
          ]
            refl
    ]
      refl

-- Two keys that differ are not both the key of one row.
pub apart : (k p r : PlanKey) → same_key k p ≡ false → same_key k r ≡ true → same_key p r ≡ false
apart k p r h e =
    elim (same_key p r) as (λ z. (same_key p r ≡ z) → z ≡ false) [
      | true ↦ λ t. sym (same_key_congr k r p e ∙ same_key_sym p r t) ∙ h
      | false ↦ λ t. refl
    ]
      refl
