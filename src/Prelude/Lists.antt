-- ===== src/Prelude/Lists.antt =====
-- Lists measured and tested over the native numbers, under the library's names.
use Prim.Native.Nat.{ℕ, zero, suc, ◌+◌, ◌≤◌}
use mathlib.Core.Path.{◌≡◌, refl, sym, ap, ◌∙◌}
use mathlib.Core.Bool.{Bool, true, false, ◌&&◌, ◌||◌}
use mathlib.Core.List.{List, [], ◌∷◌, ◌++◌, map}
use mathlib.Core.Option.{Option, none, some}
use native.Mathlib.Omega.{arith}
use synthwatch.Prelude.Tests.{if◌then◌else◌}

module _ {ℓ} {A : Type ℓ} where
  abbrev pub length : List A → ℕ
  length [] = 0
  length (_ ∷ xs) = suc (length xs)

  abbrev pub take : ℕ → List A → List A
  take zero xs = []
  take (suc n) [] = []
  take (suc n) (x ∷ xs) = x ∷ take n xs

  abbrev pub drop : ℕ → List A → List A
  drop zero xs = xs
  drop (suc n) [] = []
  drop (suc n) (x ∷ xs) = drop n xs

  abbrev pub all : (A → Bool) → List A → Bool
  all p [] = true
  all p (x ∷ xs) = p x && all p xs

  abbrev pub any : (A → Bool) → List A → Bool
  any p [] = false
  any p (x ∷ xs) = p x || any p xs

  abbrev pub filter : (A → Bool) → List A → List A
  filter p [] = []
  filter p (x ∷ xs) = if p x then x ∷ filter p xs else filter p xs

  -- The number of elements that pass, a `count(*) FILTER (WHERE p)`.
  abbrev pub count : (A → Bool) → List A → ℕ
  count p [] = 0
  count p (x ∷ xs) = (if p x then 1 else 0) + count p xs

  -- The first element that passes, as `Array.find`.
  abbrev pub find? : (A → Bool) → List A → Option A
  find? p [] = none
  find? p (x ∷ xs) = if p x then some x else find? p xs

module _ {ℓ κ} {A : Type ℓ} (P : A → Type κ) where
  abbrev pub All : List A → Type κ
  All [] = Unit
  All (x ∷ xs) = P x × All xs

module _ {ℓ} {A : Type ℓ} where
  pub count-le-length : (p : A → Bool) (xs : List A) → count p xs ≤ length xs
  count-le-length p [] = omega arith
  count-le-length p (x ∷ xs) = ground (arith, count-le-length p xs)

  pub take-append : (xs ys : List A) → take (length xs) (xs ++ ys) ≡ xs
  take-append [] ys = refl
  take-append (x ∷ xs) ys = ap (λ zs. x ∷ zs) (take-append xs ys)

  pub drop-append : (xs ys : List A) → drop (length xs) (xs ++ ys) ≡ ys
  drop-append [] ys = refl
  drop-append (x ∷ xs) ys = drop-append xs ys

  pub length-append : (xs ys : List A) → length (xs ++ ys) ≡ length xs + length ys
  length-append [] ys = omega arith
  length-append (x ∷ xs) ys = omega (arith, length-append xs ys)

  -- A weaker test passes at least as often.
  pub count_mono :
      (p q : A → Bool)
      → ((x : A) → p x ≡ true → q x ≡ true)
      → (xs : List A) → count p xs ≤ count q xs
  count_mono p q h [] = omega arith
  count_mono p q h (x ∷ xs) = ground (arith, h x, count_mono p q h xs)

  pub length-filter : (p : A → Bool) (xs : List A) → length (filter p xs) ≡ count p xs
  length-filter p [] = omega arith
  length-filter p (x ∷ xs) = ground (arith, length-filter p xs)

  pub all-append :
      (p : A → Bool) (xs ys : List A) → all p xs ≡ true → all p ys ≡ true → all p (xs ++ ys) ≡ true
  all-append p [] ys hx hy = hy
  all-append p (x ∷ xs) ys hx hy = ground (arith, all-append p xs ys)

  pub any-append : (p : A → Bool) (xs ys : List A) → any p (xs ++ ys) ≡ (any p xs || any p ys)
  any-append p [] ys = refl
  any-append p (x ∷ xs) ys = ground (arith, any-append p xs ys)

  pub any_ext : (p q : A → Bool) → ((x : A) → p x ≡ q x) → (xs : List A) → any p xs ≡ any q xs
  any_ext p q h [] = refl
  any_ext p q h (x ∷ xs) = ground (arith, h x, any_ext p q h xs)

  pub any_never : (xs : List A) → any (λ x. false) xs ≡ false
  any_never [] = refl
  any_never (x ∷ xs) = any_never xs

  pub any_or : (p q : A → Bool) (xs : List A) → any (λ x. p x || q x) xs ≡ (any p xs || any q xs)
  any_or p q [] = refl
  any_or p q (x ∷ xs) = ground (arith, any_or p q xs)

  -- What fails for each element fails for all.
  pub any_none : (p : A → Bool) → ((x : A) → p x ≡ false) → (xs : List A) → any p xs ≡ false
  any_none p h [] = refl
  any_none p h (x ∷ xs) = ground (arith, h x, any_none p h xs)

  -- A stronger test fails where a weaker one fails.
  pub any_and : (p q : A → Bool) (xs : List A) → any p xs ≡ false → any (λ x. p x && q x) xs ≡ false
  any_and p q [] h = refl
  any_and p q (x ∷ xs) h = ground (arith, any_and p q xs)

  pub any_const : (b : Bool) (f : A → Bool) (xs : List A) → any (λ v. b && f v) xs ≡ (b && any f xs)
  any_const b f [] = ground arith
  any_const b f (x ∷ xs) = ground (arith, any_const b f xs)

  pub any_imp :
      (p q : A → Bool)
      → ((x : A) → p x ≡ true → q x ≡ true)
      → (xs : List A) → any q xs ≡ false
      → any p xs ≡ false
  any_imp p q h [] e = refl
  any_imp p q h (x ∷ xs) e = ground (arith, h x, any_imp p q h xs)

  pub count_zero-any : (p : A → Bool) (xs : List A) → count p xs ≡ 0 → any p xs ≡ false
  count_zero-any p [] h = refl
  count_zero-any p (x ∷ xs) h = ground (arith, count_zero-any p xs)

module _ {ℓ κ} {A : Type ℓ} {B : Type κ} where
  pub any-map : (p : B → Bool) (f : A → B) (xs : List A) → any p (map f xs) ≡ any (λ x. p (f x)) xs
  any-map p f [] = refl
  any-map p f (x ∷ xs) = ground (arith, any-map p f xs)

  -- Two loops, the one in the other, may be swapped.
  pub any_swap :
      (p : A → B → Bool) (xs : List A) (ys : List B)
      → any (λ x. any (λ y. p x y) ys) xs ≡ any (λ y. any (λ x. p x y) xs) ys
  any_swap p [] ys = sym (any_never ys)
  any_swap p (x ∷ xs) ys =
      ap (λ b. any (λ y. p x y) ys || b) (any_swap p xs ys)
      ∙ sym (any_or (λ y. p x y) (λ y. any (λ x. p x y) xs) ys)
