-- ===== src/JsonPath.antt =====
-- `jsonPath` of runner/assertions.ts. The values of JavaScript are an argument. The regular expression is
-- read as the automaton of its four alternatives, each of which begins where the last one has ended.
pub mod Segments
pub mod RoundTrip
use synthwatch.Prelude.{
  ℕ, Option, none, some, Bool, ◌||◌, List, [], ◌∷◌, ◌++◌, if◌then◌else◌, ◌==◌, ◌≡◌, refl,
}
use synthwatch.SpecPath.{codes}
use synthwatch.Text.{Text, is_letter, is_word, is_digit, trim}

-- What the source does with a value whose type it does not know. A throw is `none`.
pub record JsValues : Type 1 where
  pub Value : Type 0
  -- Of `number`, with the numbers that `Number` gives.
  pub Num : Type 0
  pub undefined : Value
  pub null : Value
  pub of_number : ℕ → Value
  pub of_text : Text → Value
  pub is_undefined : Value → Bool
  pub is_null : Value → Bool
  pub is_empty_text : Value → Bool
  -- `typeof v === 'object'`, for a value that is not null
  pub is_object : Value → Bool
  pub member : Value → Text → Value
  -- `String`, `Number` and the arithmetic comparisons
  pub to_text : Value → Option Text
  pub to_number : Value → Option Num
  pub is_nan : Num → Bool
  pub num_eq : Num → Num → Bool
  pub num_lt : Num → Num → Bool
  pub num_le : Num → Num → Bool
  -- the elements, of an array
  pub elements : Value → Option (List Value)
  -- `new RegExp`, with `test`
  pub regexp : Text → Option (Text → Bool)
  pub json_parse : Text → Option Value

-- What the automaton has read of the token at hand, the token's text so far included.
pub data Reading : Type 0 where
  -- at the end of a token, or at the start
  between : Reading
  dot : Reading
  name : Text → Reading
  bracket : Reading
  digits : Text → Reading
  quoted : ℕ → Text → Reading
  closing : Text → Reading

-- [A-Za-z_$]
unfoldable pub is_name_start : ℕ → Bool
unfolding is_letter
is_name_start c = is_letter c || (c == b'_' || c == b'$')

-- [\w$]
unfoldable pub is_name_code : ℕ → Bool
unfolding is_word
is_name_code c = is_word c || c == b'$'

-- The start of a token: `.`, or `[`.
unfoldable pub open_token : ℕ → Option Reading
open_token c = if c == b'.' then some dot else if c == b'[' then some bracket else none

-- One character. The first part is the token that ends before it, if one does.
unfoldable pub advance : Reading → ℕ → Option (List Text × Reading)
unfolding open_token is_name_start is_name_code is_digit
advance between c = elim (open_token c) [ none ↦ none | some r ↦ some ([], r) ]
advance dot c = if is_name_start c then some ([], name (c ∷ [])) else none
advance (name t) c =
    if is_name_code c
    then some ([], name (t ++ c ∷ []))
    else elim (open_token c) [ none ↦ none | some r ↦ some (t ∷ [], r) ]
advance bracket c =
    if is_digit c
    then some ([], digits (c ∷ []))
    else if c == b'"' || c == 39
    then some ([], quoted c [])
    else none
advance (digits t) c =
    if is_digit c
    then some ([], digits (t ++ c ∷ []))
    else if c == b']'
    then some (t ∷ [], between)
    else none
advance (quoted q t) c = if c == q then some ([], closing t) else some ([], quoted q (t ++ c ∷ []))
advance (closing t) c = if c == b']' then some (t ∷ [], between) else none

-- At the end of the expression: no token may be open, but a name.
unfoldable pub finish : Reading → Option (List Text)
finish between = some []
finish (name t) = some (t ∷ [])
finish _ = none

abbrev pub and_then : List Text → Option (List Text) → Option (List Text)
and_then ts none = none
and_then ts (some us) = some (ts ++ us)

-- The tokens of an expression, or `none` where there is a gap.
unfoldable pub tokens_from : Reading → Text → Option (List Text)
tokens_from r [] = finish r
tokens_from r (c ∷ cs) = elim (advance r c) [
  | none ↦ none
  | some (ts, r') ↦ and_then ts (tokens_from r' cs)
]

unfoldable pub tokens : Text → Option (List Text)
unfolding tokens_from advance finish
tokens cs = tokens_from between cs

-- `if (e.startsWith('$')) e = e.slice(1)`
abbrev pub drop_root : Text → Text
drop_root [] = []
drop_root (c ∷ cs) = if c == b'$' then cs else c ∷ cs

module _ (js : JsValues) where
  open js use {Value, undefined, is_object, member}

  -- The walk along the tokens.
  unfoldable pub walk : Value → List Text → Value
  walk cur [] = cur
  walk cur (t ∷ ts) = if is_object cur then walk (member cur t) ts else undefined

  unfoldable pub walk_tokens : Value → Option (List Text) → Value
  unfolding walk
  walk_tokens root none = undefined
  walk_tokens root (some ts) = walk root ts

  -- `jsonPath`
  unfoldable pub json_path : Value → Text → Value
  unfolding walk_tokens tokens trim
  json_path root expr = walk_tokens root (tokens (drop_root (trim expr)))

tokens_tests :
    (tokens (codes ".a.b[0]['c d']") ≡ some (codes "a" ∷ codes "b" ∷ codes "0" ∷ codes "c d" ∷ []))
    × (tokens (codes ".a..b") ≡ none)
    × (tokens (codes "a") ≡ none)
    × (tokens (codes "[12") ≡ none)
    × (tokens [] ≡ some [])
unfolding tokens
tokens_tests = (refl, refl, refl, refl, refl)
