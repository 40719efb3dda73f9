-- ===== src/Multistep/Template.antt =====
-- `resolveTemplate` of runner/multistep.ts: TEMPLATE is read at each place in turn, and a match is skipped
-- as a whole. A value that `String` cannot print is `none`.
use synthwatch.Prelude.{
  ℕ, zero, suc, ◌-◌, Option, none, some, ◌&&◌, ◌||◌, List, [], ◌∷◌, ◌++◌, if◌then◌else◌, ◌==◌,
  length, ◌≡◌, refl,
}
use synthwatch.SpecPath.{codes, same_codes}
use synthwatch.Text.{Text, is_space, trim_start}
use synthwatch.JsonPath.{JsValues}

-- [^}\s]+ at the start of a text, and what follows it.
name_run : Text → Text × Text
unfolding is_space
name_run [] = ([], [])
name_run (c ∷ cs) =
    let rest = name_run cs in if c == b'}' || is_space c then ([], c ∷ cs) else (c ∷ rest.0, rest.1)

-- `}}`, and what follows it.
closes : Text → Option Text
closes [] = none
closes (c ∷ []) = none
closes (c ∷ (d ∷ cs)) = if c == b'}' && d == b'}' then some cs else none

with_name : Text → Option Text → Option (Text × Text)
with_name n none = none
with_name [] (some rest) = none
with_name (c ∷ n) (some rest) = some (c ∷ n, rest)

after_braces : Text → Option (Text × Text)
unfolding trim_start name_run closes with_name
after_braces cs = let (n, rest) = name_run (trim_start cs) in with_name n (closes (trim_start rest))

-- TEMPLATE at one place: the name, and what follows the match.
pub token_at : Text → Option (Text × Text)
unfolding after_braces
token_at [] = none
token_at (c ∷ []) = none
token_at (c ∷ (d ∷ cs)) = if c == b'{' && d == b'{' then after_braces cs else none

module _ (js : JsValues) where
  open js use {Value, is_undefined, is_null, to_text}

  abbrev pub Vars : Type 0
  Vars = List (Text × Value)

  pub record Resolved : Type 0 where
    pub value : Text
    pub missing : List Text

  -- An entry of the object, of which the last assignment counts, or what objects inherit.
  unfoldable pub var_value : (Text → Option Value) → Vars → Text → Option Value
  var_value inherited [] n = inherited n
  var_value inherited ((k, v) ∷ vars) n =
      if same_codes n k then some v else var_value inherited vars n

  -- What a token adds, in front of what the rest gives.
  fill_in : Text → Option Value → Option Resolved → Option Resolved
  fill_in n o none = none
  fill_in n none (some r) = some (record r { missing = n ∷ r.missing })
  fill_in n (some v) (some r) =
      if is_undefined v || is_null v
      then some (record r { missing = n ∷ r.missing })
      else elim (to_text v) [ none ↦ none | some t ↦ some (record r { value = t ++ r.value }) ]

  keep : ℕ → Option Resolved → Option Resolved
  keep c none = none
  keep c (some r) = some (record r { value = c ∷ r.value })

  -- The first argument counts what is left of a match that has been replaced.
  resolve_from : (Text → Option Value) → Vars → ℕ → Text → Option Resolved
  unfolding token_at var_value fill_in keep
  resolve_from inherited vars k [] = some (record { value = []; missing = [] })
  resolve_from inherited vars (suc k) (c ∷ cs) = resolve_from inherited vars k cs
  resolve_from inherited vars zero (c ∷ cs) = elim (token_at (c ∷ cs)) [
    | none ↦ keep c (resolve_from inherited vars zero cs)
    | some (n, rest) ↦
        fill_in n (var_value inherited vars n)
          (resolve_from inherited vars (length cs - length rest) cs)
  ]

  -- `resolveTemplate`
  unfoldable pub resolve_template : (Text → Option Value) → Vars → Text → Option Resolved
  unfolding resolve_from
  resolve_template inherited vars input = resolve_from inherited vars zero input

token_at_tests :
    (token_at (codes "{{ id }}/x") ≡ some (codes "id", codes "/x"))
    × (token_at (codes "{{}}") ≡ none)
    × (token_at (codes "{id}}") ≡ none)
unfolding token_at
token_at_tests = (refl, refl, refl)
