-- ===== src/Rca/Resolved.antt =====
-- What the check of citations of runner/rca.ts lets through.
use synthwatch.Prelude.{
  Bool, true, false, List, [], ◌∷◌, ◌++◌, ◌≡◌, ◌≢◌, inl, inr, All, Bool-cases, refl, arith,
  if◌then◌else◌,
}
use synthwatch.Text.{Text, has_text}
use synthwatch.Rca.Cites.{Violation, cites, unresolved, item_violations, validate_cites}

-- A sentence cites something, and nothing but what the facts hold.
abbrev pub IsResolved : List Text → Text → Type 0
IsResolved index item = (cites item ≢ []) × All (λ t. has_text t index ≡ true) (cites item)

unresolved-All :
    (index ts : List Text) → unresolved index ts ≡ [] → All (λ t. has_text t index ≡ true) ts
unfolding unresolved
unresolved-All index [] h = tt
unresolved-All index (t ∷ ts) h = elim (Bool-cases (has_text t index)) [
  | inl e ↦ (e, unresolved-All index ts (found _ _ _ e h))
  | inr e ↦ absurd (lost _ _ _ e h)
]
  where
    found :
        (b : Bool) (v : Violation) (rest : List Violation)
        → b ≡ true
        → (if b then rest else v ∷ rest) ≡ []
        → rest ≡ []
    found b v rest e h = ground arith

    lost :
        (b : Bool) (v : Violation) (rest : List Violation)
        → b ≡ false
        → (if b then rest else v ∷ rest) ≡ []
        → ⊥
    lost b v rest e h = ground arith

item_violations-nil :
    (index : List Text) (item : Text) (ts : List Text)
    → item_violations index item ts ≡ []
    → (ts ≢ []) × All (λ t. has_text t index ≡ true) ts
unfolding item_violations
item_violations-nil index item [] h = cc
item_violations-nil index item (t ∷ ts) h = ((λ e. cc), unresolved-All index (t ∷ ts) h)

append-nil_parts : (xs ys : List Violation) → xs ++ ys ≡ [] → (xs ≡ []) × (ys ≡ [])
append-nil_parts [] ys h = (refl, h)
append-nil_parts (x ∷ xs) ys h = cc

pub validate_cites-IsResolved :
    (index observed : List Text)
    → validate_cites observed index ≡ []
    → All (IsResolved index) observed
unfolding validate_cites
validate_cites-IsResolved index [] h = tt
validate_cites-IsResolved index (item ∷ observed) h =
    let (e, k) = append-nil_parts (item_violations index item (cites item)) _ h in
    (item_violations-nil index item (cites item) e, validate_cites-IsResolved index observed k)
