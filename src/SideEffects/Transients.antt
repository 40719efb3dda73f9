-- ===== src/SideEffects/Transients.antt =====
-- The class of a transient, `classifyTransient` of runner/transientClass.ts.
use synthwatch.Prelude.{
  String, some, Bool, true, false, ◌||◌, List, [], ◌∷◌, ◌++◌, ◌≡◌, refl, arith, any, all,
  if◌then◌else◌, not, ◌↔◌,
}
use synthwatch.SideEffects.{
  monitor_side, service_side, Signals, keys_of, base_keys, has_key, classify_transient,
}

has_key-append :
    (k : String) (xs ys : List String) → has_key k (xs ++ ys) ≡ (has_key k xs || has_key k ys)
unfolding has_key
has_key-append k [] ys = refl
has_key-append k (x ∷ xs) ys = ground (arith, has_key-append k xs ys)

-- A key that one of the baseline runs has.
abbrev pub in_some : String → List Signals → Bool
in_some k baseline = any (λ b. has_key k (keys_of b)) baseline

has_key-base_keys :
    (k : String) (baseline : List Signals) → has_key k (base_keys baseline) ≡ in_some k baseline
unfolding base_keys has_key
has_key-base_keys k [] = refl
has_key-base_keys k (b ∷ bs) =
    rw (has_key-append k (keys_of b) (base_keys bs), has_key-base_keys k bs) refl

all_known :
    (ks : List String) (baseline : List Signals)
    → any (λ k. not (has_key k (base_keys baseline))) ks ≡ false
    → all (λ k. in_some k baseline) ks ≡ true
all_known [] baseline h = refl
all_known (k ∷ ks) baseline h = ground (arith, has_key-base_keys k baseline, all_known ks baseline)

all_known_of :
    (ks : List String) (baseline : List Signals)
    → all (λ k. in_some k baseline) ks ≡ true
    → any (λ k. not (has_key k (base_keys baseline))) ks ≡ false
all_known_of [] baseline h = refl
all_known_of (k ∷ ks) baseline h =
    ground (arith, has_key-base_keys k baseline, all_known_of ks baseline)

not_service : (b : Bool) → (if b then service_side else monitor_side) ≡ monitor_side → b ≡ false
not_service true h = cc
not_service false h = refl

-- A transient that captured signals is laid to the monitor exactly when each of its first-party
-- failures is already in some successful baseline run, whatever the baseline. So with no successful run
-- to compare with, any first-party failure is laid to the service.
pub classify_transient_monitor_side :
    (ks : List String) (baseline : List Signals)
    → (classify_transient (some ks) baseline ≡ monitor_side)
      ↔ (all (λ k. in_some k baseline) ks ≡ true)
unfolding classify_transient
classify_transient_monitor_side ks baseline = (
  λ h. all_known ks baseline (not_service (any (λ k. not (has_key k (base_keys baseline))) ks) h),
  λ h. rw (all_known_of ks baseline h) refl,
)
