-- ===== src/Assertions/Reference.antt =====
-- The assertions of runner/assertions.ts one by one, with no cache of the parsed body.
use synthwatch.Prelude.{
  Option, none, some, Bool, true, false, List, [], ◌∷◌, ◌++◌, ◌≡◌, ◌↔◌, All, Bool-cases, inl, inr,
  refl, ap, ◌∙◌,
}
use synthwatch.Text.{Text}
use synthwatch.JsonPath.{JsValues, json_path}
use synthwatch.Assertions.{
  AssertionSource, Assertion, ResponseFacets, JsonCache, Failure, or_null, or_empty, or_dollar,
  parse_body, header_value, fill, actual_of, actual_value, compare, push_unless, judge,
  failures_from, evaluate_assertions, is_empty,
}

module _ (js : JsValues) (f : ResponseFacets js) where
  open js use {Value, undefined, of_number, of_text}

  -- The value that an assertion is about; a throw is `none`.
  pub value_at : AssertionSource → Option Text → Option Value
  value_at AssertionSource.status target = some (of_number f.status)
  value_at AssertionSource.response_time target = some (of_number f.response_time_ms)
  value_at AssertionSource.header target = header_value js (f.header (or_empty target))
  value_at AssertionSource.body target = some (or_null js of_text f.body)
  value_at AssertionSource.size target = some (or_null js of_number f.size_bytes)
  value_at AssertionSource.json_path_of target =
      some (json_path js (parse_body js f.body) (or_dollar target))
  value_at AssertionSource.other_source target = some undefined

  -- The assertion has a value, and the comparison with it succeeds.
  abbrev pub Holds : Assertion js → Type 0
  Holds a =
      (v : Value) × (value_at a.source a.target ≡ some v)
      × (compare js a.comparison v a.expected ≡ some true)

  -- What one assertion reports.
  pub faults : Assertion js → List (Failure js)
  faults a = judge js a (value_at a.source a.target)

  abbrev pub all_faults : List (Assertion js) → List (Failure js)
  all_faults [] = []
  all_faults (a ∷ rest) = faults a ++ all_faults rest

  -- What was cached is what the body parses to.
  abbrev IsFaithful : JsonCache js → Type 0
  IsFaithful cache = cache.tried ≡ true → cache.parsed ≡ parse_body js f.body

  fill-parsed :
      (cache : JsonCache js) → IsFaithful cache → (fill js f cache).parsed ≡ parse_body js f.body
  unfolding fill
  fill-parsed cache h = elim (Bool-cases cache.tried) [ inl e ↦ rw e (h e) | inr e ↦ rw e refl ]

  actual_of-value_at :
      (s : AssertionSource) (t : Option Text) (cache : JsonCache js)
      → IsFaithful cache
      → ((actual_of js s t f cache).0 ≡ value_at s t) × IsFaithful (actual_of js s t f cache).1
  unfolding actual_of value_at
  actual_of-value_at AssertionSource.status t cache h = (refl, h)
  actual_of-value_at AssertionSource.response_time t cache h = (refl, h)
  actual_of-value_at AssertionSource.header t cache h = (refl, h)
  actual_of-value_at AssertionSource.body t cache h = (refl, h)
  actual_of-value_at AssertionSource.size t cache h = (refl, h)
  actual_of-value_at AssertionSource.json_path_of t cache h = (
    ap (λ v. some (json_path js v (or_dollar t))) (fill-parsed cache h),
    λ e. fill-parsed cache h,
  )
  actual_of-value_at AssertionSource.other_source t cache h = (refl, h)

  failures_from-all_faults :
      (rest : List (Assertion js)) (cache : JsonCache js)
      → IsFaithful cache
      → failures_from js rest f cache ≡ all_faults rest
  unfolding failures_from faults actual_value
  failures_from-all_faults [] cache h = refl
  failures_from-all_faults (a ∷ rest) cache h =
      let (e, k) = actual_of-value_at a.source a.target cache h in
      ap (λ v. judge js a v ++ failures_from js rest f (actual_value js a f cache).1) e
      ∙ ap (λ xs. faults a ++ xs) (failures_from-all_faults rest _ k)

  push_unless-nil :
      (a : Assertion js) (v : Value) (b : Option Bool) → push_unless js a v b ≡ [] → b ≡ some true
  push_unless-nil a v none h = cc
  push_unless-nil a v (some true) h = refl
  push_unless-nil a v (some false) h = cc

  judge-nil :
      (a : Assertion js) (o : Option Value)
      → judge js a o ≡ []
      → (v : Value) × (o ≡ some v) × (compare js a.comparison v a.expected ≡ some true)
  unfolding judge
  judge-nil a none h = cc
  judge-nil a (some v) h = (v, refl, push_unless-nil a v _ h)

  faults-Holds : (a : Assertion js) → (faults a ≡ []) ↔ Holds a
  unfolding faults
  faults-Holds a = (
    judge-nil a (value_at a.source a.target),
    λ h. ap (judge js a) h.1 ∙ (unfold judge in ap (push_unless js a h.0) h.2),
  )

  nil-append : (xs ys : List (Failure js)) → is_empty (xs ++ ys) ≡ true → (xs ≡ []) × (ys ≡ [])
  nil-append [] [] h = (refl, refl)
  nil-append [] (y ∷ ys) h = cc
  nil-append (x ∷ xs) ys h = cc

  all_faults-All :
      (rest : List (Assertion js)) → (is_empty (all_faults rest) ≡ true) ↔ All Holds rest
  all_faults-All [] = (λ h. tt, λ h. refl)
  all_faults-All (a ∷ rest) = (
    λ h.
        let (e, k) = nil-append (faults a) (all_faults rest) h in
        ((faults-Holds a).0 e, (all_faults-All rest).0 (ap is_empty k)),
    λ h.
        ap (λ xs. is_empty (xs ++ all_faults rest)) ((faults-Holds a).1 h.0)
        ∙ (all_faults-All rest).1 h.1,
  )

-- The evaluator against its reference: whatever the response and the body, the failures are, in order, what
-- each assertion reports by itself, with a fresh parse of the body, so that the cache and an assertion that
-- throws disturb no other; and the outcome is ok exactly if each assertion has a value and its comparison
-- with it succeeds.
pub evaluate_assertions-Holds :
    (js : JsValues) (f : ResponseFacets js) (list : List (Assertion js))
    → ((evaluate_assertions js list f).failures ≡ all_faults js f list)
      × (((evaluate_assertions js list f).ok ≡ true) ↔ All (Holds js f) list)
unfolding evaluate_assertions
evaluate_assertions-Holds js f list =
    let e =
      failures_from-all_faults js f list (record { tried = false; parsed = js.undefined })
        (λ h. cc) in
    (e, rw e (all_faults-All js f list))
