-- ===== src/Retention/Batches.antt =====
-- The batches of `runRetention` of runner/retention.ts against one unbounded DELETE.
use synthwatch.Prelude.{
  ℕ, zero, suc, ◌+◌, ◌≤◌, min, ◌≡◌, refl, Bool, true, false, ◌&&◌, List, [], ◌∷◌, filter, any,
  any_const, any_imp, any_or, count, length, length-filter, take, ◌==◌, not, arith,
}
use synthwatch.Types.{Run}
use synthwatch.Retention.{insert_oldest, order_asc, victims, is_among}

-- The primary key of `runs`: no two rows have one id.
abbrev pub unique_ids : List Run → Bool
unique_ids [] = true
unique_ids (r ∷ rs) = not (is_among rs r) && unique_ids rs

-- Where the count of a test does not change.
count-insert :
    (p : Run → Bool) (x : Run) (ys : List Run) → count p (insert_oldest x ys) ≡ count p (x ∷ ys)
unfolding insert_oldest
count-insert p x [] = refl
count-insert p x (y ∷ ys) = ground (arith, count-insert p x ys)

count-order : (p : Run → Bool) (xs : List Run) → count p (order_asc xs) ≡ count p xs
unfolding order_asc
count-order p [] = refl
count-order p (x ∷ xs) = ground (arith, count-order p xs, count-insert p x (order_asc xs))

length-insert : (x : Run) (ys : List Run) → length (insert_oldest x ys) ≡ suc (length ys)
unfolding insert_oldest
length-insert x [] = refl
length-insert x (y ∷ ys) = ground (arith, length-insert x ys)

length-order : (xs : List Run) → length (order_asc xs) ≡ length xs
unfolding order_asc
length-order [] = refl
length-order (x ∷ xs) = ground (arith, length-order xs, length-insert x (order_asc xs))

any-insert :
    (p : Run → Bool) (x : Run) (ys : List Run) → any p (insert_oldest x ys) ≡ any p (x ∷ ys)
unfolding insert_oldest
any-insert p x [] = refl
any-insert p x (y ∷ ys) = ground (arith, any-insert p x ys)

any-order : (p : Run → Bool) (xs : List Run) → any p (order_asc xs) ≡ any p xs
unfolding order_asc
any-order p [] = refl
any-order p (x ∷ xs) = ground (arith, any-order p xs, any-insert p x (order_asc xs))

any-take : (p : Run → Bool) (n : ℕ) (xs : List Run) → any p xs ≡ false → any p (take n xs) ≡ false
any-take p zero xs h = refl
any-take p (suc n) [] h = refl
any-take p (suc n) (x ∷ xs) h = ground (arith, any-take p n xs)

any-filter : (p f : Run → Bool) (xs : List Run) → any f (filter p xs) ≡ any (λ v. p v && f v) xs
any-filter p f [] = refl
any-filter p f (x ∷ xs) = ground (arith, any-filter p f xs)

count-take : (p : Run → Bool) (n : ℕ) (xs : List Run) → count p (take n xs) ≤ count p xs
count-take p zero xs = ground arith
count-take p (suc n) [] = ground arith
count-take p (suc n) (x ∷ xs) = ground (arith, count-take p n xs)

count-filter : (p f : Run → Bool) (xs : List Run) → count f (filter p xs) ≤ count f xs
count-filter p f [] = ground arith
count-filter p f (x ∷ xs) = ground (arith, count-filter p f xs)

length-take : (n : ℕ) (xs : List Run) → length (take n xs) ≡ min n (length xs)
length-take zero xs = ground arith
length-take (suc n) [] = ground arith
length-take (suc n) (x ∷ xs) = ground (arith, length-take n xs)

-- Each row is among the rows.
count_among :
    (f : Run → Bool) (vs : List Run)
    → ((r : Run) → is_among vs r ≡ true → f r ≡ true)
    → count f vs ≡ length vs
count_among f [] h = refl
count_among f (v ∷ vs) h = ground (arith, h v, count_among f vs (λ r m. h r (among_cons v r vs m)))
  where
    among_cons : (v r : Run) (vs : List Run) → is_among vs r ≡ true → is_among (v ∷ vs) r ≡ true
    among_cons v r vs m = ground arith

-- A row that fails the test, but has the id of a row that passes.
abbrev clashes : (Run → Bool) → Run → Run → Bool
clashes p r v = not (p r) && (p v && v.id == r.id)

no_clash_at :
    (p : Run → Bool) (x : Run) (xs : List Run)
    → is_among xs x ≡ false
    → (any (λ r. clashes p r x) xs ≡ false) × (any (clashes p x) xs ≡ false)
no_clash_at p x [] h = (refl, refl)
no_clash_at p x (y ∷ ys) h = ground (arith, no_clash_at p x ys)

no_clash :
    (p : Run → Bool) (xs : List Run)
    → unique_ids xs ≡ true
    → any (λ r. any (clashes p r) xs) xs ≡ false
no_clash p [] h = refl
no_clash p (x ∷ xs) h = ground (
  arith,
  no_clash_at p x xs,
  no_clash p xs,
  any_or (λ r. clashes p r x) (λ r. any (clashes p r) xs) xs,
)

among_passes :
    (p : Run → Bool) (n : ℕ) (runs : List Run) (r : Run)
    → (not (p r) && is_among (victims p n runs) r) ≡ true
    → any (clashes p r) runs ≡ true
unfolding victims
among_passes p n runs r h =
    let same = λ (v : Run). v.id == r.id in
    ground (
      arith,
      any_const (not (p r)) (λ v. p v && same v) runs,
      any-filter p same runs,
      any-order same (filter p runs),
      any-take same n (order_asc (filter p runs)),
    )

-- No row that fails the test is among the victims.
pub victims_pass :
    (p : Run → Bool) (n : ℕ) (runs : List Run)
    → unique_ids runs ≡ true
    → any (λ r. not (p r) && is_among (victims p n runs) r) runs ≡ false
victims_pass p n runs h =
    any_imp (λ r. not (p r) && is_among (victims p n runs) r) (λ r. any (clashes p r) runs)
      (among_passes p n runs) runs (no_clash p runs h)

-- A batch takes as many rows as it may, or all that pass.
pub batch_size_lem :
    (p : Run → Bool) (n : ℕ) (runs : List Run)
    → min n (count p runs) ≤ count (is_among (victims p n runs)) runs
unfolding victims
batch_size_lem p n runs =
    let f = is_among (take n (order_asc (filter p runs))) in
    omega (
      arith,
      count_among f (take n (order_asc (filter p runs))) (λ r m. m),
      length-take n (order_asc (filter p runs)),
      length-order (filter p runs),
      length-filter p runs,
      count-take f n (order_asc (filter p runs)),
      count-order f (filter p runs),
      count-filter p f runs,
    )

-- What a deletion by a stronger test than `p` leaves.
module _ (p d : Run → Bool) where
  pub others_stay :
      (xs : List Run)
      → any (λ r. not (p r) && d r) xs ≡ false
      → filter (λ r. not (p r)) (filter (λ r. not (d r)) xs) ≡ filter (λ r. not (p r)) xs
  others_stay [] h = refl
  others_stay (x ∷ xs) h = ground (arith, others_stay xs)

  pub count_left :
      (xs : List Run)
      → any (λ r. not (p r) && d r) xs ≡ false
      → count p (filter (λ r. not (d r)) xs) + count d xs ≡ count p xs
  count_left [] h = refl
  count_left (x ∷ xs) h = ground (arith, count_left xs)

pub nothing_left :
    (p : Run → Bool) (xs : List Run) → count p xs ≡ 0 → xs ≡ filter (λ r. not (p r)) xs
nothing_left p [] h = refl
nothing_left p (x ∷ xs) h = ground (arith, nothing_left p xs)

among-filter :
    (d : Run → Bool) (r : Run) (xs : List Run)
    → is_among xs r ≡ false
    → is_among (filter d xs) r ≡ false
among-filter d r [] h = refl
among-filter d r (x ∷ xs) h = ground (arith, among-filter d r xs)

pub unique_ids-filter :
    (d : Run → Bool) (xs : List Run) → unique_ids xs ≡ true → unique_ids (filter d xs) ≡ true
unique_ids-filter d [] h = refl
unique_ids-filter d (x ∷ xs) h = ground (arith, unique_ids-filter d xs, among-filter d x xs)
