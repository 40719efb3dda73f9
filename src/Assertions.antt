-- ===== src/Assertions.antt =====
-- runner/assertions.ts: the assertions on an HTTP response. The values of JavaScript are an argument. The
-- text of a failure is the value that it renders.
pub mod Reference
use synthwatch.Prelude.{
  ℕ, Option, none, some, Bool, true, false, ◌||◌, List, [], ◌∷◌, ◌++◌, if◌then◌else◌, not,
}
use synthwatch.Text.{Text, includes, has_text}
use synthwatch.JsonPath.{JsValues, json_path}

-- `AssertionSource`; `other_source` is any other value in the row.
pub data AssertionSource : Type 0 where
  status response_time header body json_path_of size other_source : AssertionSource

-- `AssertionComparison`; `other_comparison` is any other value in the row.
pub data AssertionComparison : Type 0 where
  eq ne lt gt gte lte contains not_contains matches exists one_of other_comparison :
      AssertionComparison

-- What a method of `Option` does with a throw.
infixl 5 ◌>>=◌
abbrev pub ◌>>=◌ {ℓ κ} : {A : Type ℓ} {B : Type κ} → Option A → (A → Option B) → Option B
none >>= f = none
some a >>= f = f a

abbrev is_empty {ℓ} : {A : Type ℓ} → List A → Bool
is_empty [] = true
is_empty (_ ∷ _) = false

abbrev pub or_dollar : Option Text → Text
or_dollar none = b'$' ∷ []
or_dollar (some t) = t

abbrev pub or_empty : Option Text → Text
or_empty none = []
or_empty (some t) = t

module _ (js : JsValues) where
  open js use {
    Value, Num, undefined, null, of_number, of_text, is_undefined, is_null, is_empty_text, to_text,
    to_number, is_nan, num_eq, num_lt, num_le, elements, regexp, json_parse,
  }

  pub record Assertion : Type 0 where
    pub source : AssertionSource
    pub comparison : AssertionComparison
    pub target : Option Text
    pub expected : Value

  -- `ResponseFacets`. `Headers.get` throws on what is no name of a header.
  pub record ResponseFacets : Type 0 where
    pub status : ℕ
    pub response_time_ms : ℕ
    pub header : Text → Option (Option Text)
    pub body : Option Text
    pub size_bytes : Option ℕ

  -- `jsonCache`
  pub record JsonCache : Type 0 where
    pub tried : Bool
    pub parsed : Value

  pub data Failure : Type 0 where
    unmet : Assertion → Value → Failure
    unevaluated : Assertion → Failure

  pub record AssertionOutcome : Type 0 where
    pub ok : Bool
    pub failures : List Failure

  -- `looksNumeric`
  looks_numeric : Value → Option Bool
  looks_numeric v =
      if is_null v || is_empty_text v then some false else do n ← to_number v; some (not (is_nan n))

  same_number : Value → Value → Option Bool
  same_number a b = do m ← to_number a; n ← to_number b; some (num_eq m n)

  same_text : Value → Value → Option Bool
  same_text a b = do s ← to_text a; t ← to_text b; some (has_text s (t ∷ []))

  -- `looseEq`
  unfoldable pub loose_eq : Value → Value → Option Bool
  unfolding looks_numeric same_number same_text
  loose_eq a b = do
    x ← looks_numeric a
    y ← if x then looks_numeric b else some false
    if y then same_number a b else same_text a b

  abbrev is_nullish : Value → Bool
  is_nullish v = is_null v || is_undefined v

  -- `String(actual ?? '')`
  text_or_empty : Value → Option Text
  text_or_empty v = if is_nullish v then some [] else to_text v

  num_test : (Num → Num → Bool) → Value → Value → Option Bool
  num_test test a b = do m ← to_number a; n ← to_number b; some (test m n)

  text_test : Value → Value → Option Bool
  unfolding text_or_empty
  text_test actual expected = do s ← text_or_empty actual; t ← to_text expected; some (includes s t)

  regexp_test : Value → Value → Option Bool
  unfolding text_or_empty
  regexp_test actual expected = do
    pattern_text ← to_text expected
    test ← regexp pattern_text
    s ← text_or_empty actual
    some (test s)

  all_texts : List Value → Option (List Text)
  all_texts [] = some []
  all_texts (v ∷ vs) = do t ← to_text v; ts ← all_texts vs; some (t ∷ ts)

  one_of_test : Value → Option (List Value) → Option Bool
  unfolding all_texts
  one_of_test actual none = some false
  one_of_test actual (some vs) = do ts ← all_texts vs; t ← to_text actual; some (has_text t ts)

  -- `compare`
  unfoldable pub compare : AssertionComparison → Value → Value → Option Bool
  unfolding loose_eq num_test text_test regexp_test one_of_test
  compare eq actual expected = loose_eq actual expected
  compare ne actual expected = do e ← loose_eq actual expected; some (not e)
  compare lt actual expected = num_test num_lt actual expected
  compare gt actual expected = num_test (λ m n. num_lt n m) actual expected
  compare gte actual expected = num_test (λ m n. num_le n m) actual expected
  compare lte actual expected = num_test num_le actual expected
  compare contains actual expected = text_test actual expected
  compare not_contains actual expected = do b ← text_test actual expected; some (not b)
  compare matches actual expected = regexp_test actual expected
  compare exists actual expected = some (not (is_nullish actual))
  compare one_of actual expected = one_of_test actual (elements expected)
  compare other_comparison actual expected = some false

  pub or_undefined : Option Value → Value
  or_undefined none = undefined
  or_undefined (some v) = v

  or_null : {A : Type 0} → (A → Value) → Option A → Value
  or_null f none = null
  or_null f (some a) = f a

  -- `f.body === null ? undefined : JSON.parse(f.body)`, with what its throw leaves.
  pub parse_body : Option Text → Value
  unfolding or_undefined
  parse_body none = undefined
  parse_body (some text) = or_undefined (json_parse text)

  pub fill : ResponseFacets → JsonCache → JsonCache
  unfolding parse_body
  fill f cache = if cache.tried then cache else record { tried = true; parsed = parse_body f.body }

  -- `Headers.get`, which throws or finds nothing.
  header_value : Option (Option Text) → Option Value
  unfolding or_null
  header_value none = none
  header_value (some found) = some (or_null of_text found)

  -- `actualValue`, by the source.
  actual_of : AssertionSource → Option Text → ResponseFacets → JsonCache → Option Value × JsonCache
  unfolding or_null header_value fill
  actual_of status target f cache = (some (of_number f.status), cache)
  actual_of response_time target f cache = (some (of_number f.response_time_ms), cache)
  actual_of header target f cache = (header_value (f.header (or_empty target)), cache)
  actual_of body target f cache = (some (or_null of_text f.body), cache)
  actual_of size target f cache = (some (or_null of_number f.size_bytes), cache)
  actual_of json_path_of target f cache =
      let cache' = fill f cache in (some (json_path js cache'.parsed (or_dollar target)), cache')
  actual_of other_source target f cache = (some undefined, cache)

  -- `actualValue`
  unfoldable pub actual_value : Assertion → ResponseFacets → JsonCache → Option Value × JsonCache
  unfolding actual_of
  actual_value a f cache = actual_of a.source a.target f cache

  abbrev push_unless : Assertion → Value → Option Bool → List Failure
  push_unless a actual none = unevaluated a ∷ []
  push_unless a actual (some true) = []
  push_unless a actual (some false) = unmet a actual ∷ []

  -- The body of the loop after the actual value.
  judge : Assertion → Option Value → List Failure
  unfolding compare
  judge a none = unevaluated a ∷ []
  judge a (some actual) = push_unless a actual (compare a.comparison actual a.expected)

  unfoldable pub failures_from : List Assertion → ResponseFacets → JsonCache → List Failure
  unfolding judge actual_value
  failures_from [] f cache = []
  failures_from (a ∷ rest) f cache =
      let (actual, cache') = actual_value a f cache in judge a actual ++ failures_from rest f cache'

  -- `evaluateAssertions`
  unfoldable pub evaluate_assertions : List Assertion → ResponseFacets → AssertionOutcome
  unfolding failures_from
  evaluate_assertions assertions f =
      let failures = failures_from assertions f (record { tried = false; parsed = undefined }) in
      record { ok = is_empty failures; failures = failures }
