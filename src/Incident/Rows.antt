-- ===== src/Incident/Rows.antt =====
-- What an UPDATE of `incidents` keeps, and what each operation of runner/evaluate.ts does to the rows.
use synthwatch.Prelude.{
  ℕ, ◌≤◌, ◌<◌, none, Bool, true, false, ◌&&◌, List, [], ◌∷◌, ◌≡◌, refl, arith, ◌==◌, any, find?,
  count, Bool-cases, inl, inr,
}
use synthwatch.Types.{critical, is_critical}
use synthwatch.World.{Incident, update_where, open_for, NotifyStatus}
use synthwatch.Incident.{account, resolve_row, escalate_row}

-- Ids fall along the table, newest row first, and stay below `bound`.
abbrev pub Numbered : ℕ → List Incident → Type 0
Numbered bound [] = Unit
Numbered bound (i ∷ is) = (i.id < bound) × Numbered i.id is

-- A change of a row that keeps its identity, opens nothing and downgrades no severity.
pub record Keeps (f : Incident → Incident) : Type 0 where
  pub id : (i : Incident) → (f i).id ≡ i.id
  pub check_id : (i : Incident) → (f i).check_id ≡ i.check_id
  pub is_open : (i : Incident) → (f i).is_open ≡ true → i.is_open ≡ true
  pub severity : (i : Incident) → i.severity ≡ critical → (f i).severity ≡ critical

pub update_where-Numbered :
    (p : Incident → Bool) (f : Incident → Incident)
    → Keeps f
    → (bound : ℕ) (is : List Incident) → Numbered bound is
    → Numbered bound (update_where p f is)
unfolding update_where
update_where-Numbered p f k bound [] h = tt
update_where-Numbered p f k bound (i ∷ is) (lt, h) =
    let ih = update_where-Numbered p f k i.id is h in
    elim (Bool-cases (p i)) [ inl e ↦ rw (e, k.id i) (lt, ih) | inr e ↦ rw e (lt, ih) ]

pub count-update_where :
    (p : Incident → Bool) (f : Incident → Incident)
    → Keeps f
    → (c : ℕ) (is : List Incident)
    → count (open_for c) (update_where p f is) ≤ count (open_for c) is
unfolding update_where
count-update_where p f k c [] = omega arith
count-update_where p f k c (i ∷ is) =
    ground (arith, count-update_where p f k c is, k.check_id i, k.is_open i)

-- No row is open for the check exactly when the lookup finds none.
pub count_of_find?-none :
    (c : ℕ) (is : List Incident) → find? (open_for c) is ≡ none → count (open_for c) is ≡ 0
count_of_find?-none c [] h = refl
count_of_find?-none c (i ∷ is) h = ground (arith, count_of_find?-none c is)

pub find?-none_of_count :
    (c : ℕ) (is : List Incident) → count (open_for c) is ≡ 0 → find? (open_for c) is ≡ none
find?-none_of_count c [] h = refl
find?-none_of_count c (i ∷ is) h = ground (arith, find?-none_of_count c is)

-- A table after a sequence of such updates.
pub data Updates (is : List Incident) : List Incident → Type 0 where
  unchanged : Updates is is
  update :
      {js ks : List Incident} (p : Incident → Bool) (f : Incident → Incident)
      → Keeps f
      → Updates is js
      → ks ≡ update_where p f js
      → Updates is ks

pub Updates-Numbered :
    {is js : List Incident} (bound : ℕ) → Updates is js → Numbered bound is → Numbered bound js
Updates-Numbered bound unchanged h = h
Updates-Numbered bound (update p f k u e) h =
    rw e (update_where-Numbered p f k bound _ (Updates-Numbered bound u h))

pub Updates-count :
    {is js : List Incident} (c : ℕ) → Updates is js → count (open_for c) js ≤ count (open_for c) is
Updates-count c unchanged = omega arith
Updates-count c (update {js} p f k u e) =
    rw e (omega (arith, count-update_where p f k c js, Updates-count c u))

-- A row of this id that is critical.
abbrev pub critical_row : ℕ → Incident → Bool
critical_row id i = i.id == id && is_critical i.severity

critical_row-update_where :
    (p : Incident → Bool) (f : Incident → Incident)
    → Keeps f
    → (id : ℕ) (is : List Incident) → any (critical_row id) is ≡ true
    → any (critical_row id) (update_where p f is) ≡ true
unfolding update_where
critical_row-update_where p f k id [] h = h
critical_row-update_where p f k id (i ∷ is) h =
    ground (arith, critical_row-update_where p f k id is, k.id i, k.severity i)

pub Updates-critical_row :
    {is js : List Incident} (id : ℕ)
    → Updates is js
    → any (critical_row id) is ≡ true
    → any (critical_row id) js ≡ true
Updates-critical_row id unchanged h = h
Updates-critical_row id (update {js} p f k u e) h =
    rw e (critical_row-update_where p f k id js (Updates-critical_row id u h))

pub account-Keeps : (st : NotifyStatus) → Keeps (account st)
account-Keeps st = record {
  id = λ i. refl;
  check_id = λ i. refl;
  is_open = λ i h. h;
  severity = λ i h. h;
}

pub resolve_row-Keeps : (run_id now : ℕ) → Keeps (resolve_row run_id now)
resolve_row-Keeps run_id now = record {
  id = λ i. refl;
  check_id = λ i. refl;
  is_open = λ i h. cc;
  severity = λ i h. h;
}

pub escalate_row-Keeps : (b : Bool) (n : ℕ) → Keeps (escalate_row b n)
escalate_row-Keeps true n = record {
  id = λ i. refl;
  check_id = λ i. refl;
  is_open = λ i h. h;
  severity = λ i h. refl;
}
escalate_row-Keeps false n = record {
  id = λ i. refl;
  check_id = λ i. refl;
  is_open = λ i h. h;
  severity = λ i h. h;
}
