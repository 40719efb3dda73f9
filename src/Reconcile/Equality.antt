-- ===== src/Reconcile/Equality.antt =====
-- The comparisons of runner/reconcile.ts on optional texts and lists, each deciding equality.
use synthwatch.Prelude.{
  ℕ, String, Option, none, some, Bool, true, false, ◌&&◌, List, [], ◌∷◌, ◌≡◌, refl, arith, str_eq,
  eq_iff, eq_refl, ◌==◌, ap,
}

pub list_eq : List String → List String → Bool
list_eq [] [] = true
list_eq (x ∷ xs) (y ∷ ys) = str_eq x y && list_eq xs ys
list_eq _ _ = false

-- `JSON.stringify(a ?? null) === JSON.stringify(b ?? null)` on lists of texts.
pub patterns_eq : Option (List String) → Option (List String) → Bool
patterns_eq none none = true
patterns_eq (some xs) (some ys) = list_eq xs ys
patterns_eq _ _ = false

-- `(a ?? null) === (b ?? null)`
pub text_eq : Option String → Option String → Bool
text_eq none none = true
text_eq (some x) (some y) = str_eq x y
text_eq _ _ = false

pub codes_eq : List ℕ → List ℕ → Bool
codes_eq [] [] = true
codes_eq (x ∷ xs) (y ∷ ys) = x == y && codes_eq xs ys
codes_eq _ _ = false

pub opt_codes_eq : Option (List ℕ) → List ℕ → Bool
opt_codes_eq none ys = false
opt_codes_eq (some xs) ys = codes_eq xs ys

unfoldable pub bool_eq : Bool → Bool → Bool
bool_eq true true = true
bool_eq false false = true
bool_eq _ _ = false

pub list_eq-eq : (xs ys : List String) → list_eq xs ys ≡ true → xs ≡ ys
unfolding list_eq
list_eq-eq [] [] h = refl
list_eq-eq [] (y ∷ ys) h = cc
list_eq-eq (x ∷ xs) [] h = cc
list_eq-eq (x ∷ xs) (y ∷ ys) h = ground (arith, eq_iff x y, list_eq-eq xs ys)

pub patterns_eq-eq : (a b : Option (List String)) → patterns_eq a b ≡ true → a ≡ b
unfolding patterns_eq
patterns_eq-eq none none h = refl
patterns_eq-eq none (some y) h = cc
patterns_eq-eq (some x) none h = cc
patterns_eq-eq (some x) (some y) h = ap some (list_eq-eq x y h)

pub text_eq-eq : (a b : Option String) → text_eq a b ≡ true → a ≡ b
unfolding text_eq
text_eq-eq none none h = refl
text_eq-eq none (some y) h = cc
text_eq-eq (some x) none h = cc
text_eq-eq (some x) (some y) h = ap some ((eq_iff x y).0 h)

pub codes_eq-eq : (xs ys : List ℕ) → codes_eq xs ys ≡ true → xs ≡ ys
unfolding codes_eq
codes_eq-eq [] [] h = refl
codes_eq-eq [] (y ∷ ys) h = cc
codes_eq-eq (x ∷ xs) [] h = cc
codes_eq-eq (x ∷ xs) (y ∷ ys) h = ground (arith, codes_eq-eq xs ys)

pub opt_codes_eq-eq : (a : Option (List ℕ)) (ys : List ℕ) → opt_codes_eq a ys ≡ true → a ≡ some ys
unfolding opt_codes_eq
opt_codes_eq-eq none ys h = cc
opt_codes_eq-eq (some xs) ys h = ap some (codes_eq-eq xs ys h)

pub bool_eq-eq : (a b : Bool) → bool_eq a b ≡ true → a ≡ b
unfolding bool_eq
bool_eq-eq a b h = ground arith

pub text_eq_refl : (a : Option String) → text_eq a a ≡ true
unfolding text_eq
text_eq_refl none = refl
text_eq_refl (some x) = eq_refl x

pub codes_eq_refl : (xs : List ℕ) → codes_eq xs xs ≡ true
unfolding codes_eq
codes_eq_refl [] = refl
codes_eq_refl (x ∷ xs) = ground (arith, codes_eq_refl xs)

pub opt_codes_eq_refl : (xs : List ℕ) → opt_codes_eq (some xs) xs ≡ true
unfolding opt_codes_eq
opt_codes_eq_refl xs = codes_eq_refl xs

pub list_eq_refl : (xs : List String) → list_eq xs xs ≡ true
unfolding list_eq
list_eq_refl [] = refl
list_eq_refl (x ∷ xs) = ground (arith, eq_refl x, list_eq_refl xs)

pub patterns_eq_refl : (a : Option (List String)) → patterns_eq a a ≡ true
unfolding patterns_eq
patterns_eq_refl none = refl
patterns_eq_refl (some xs) = list_eq_refl xs

pub bool_eq_refl : (a : Bool) → bool_eq a a ≡ true
unfolding bool_eq
bool_eq_refl true = refl
bool_eq_refl false = refl
