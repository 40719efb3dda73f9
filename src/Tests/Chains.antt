-- ===== src/Tests/Chains.antt =====
-- The theorems on runner/multistep.ts and runner/assertions.ts at a chain of two steps: a login that sets a
-- cookie for the domain, and a page that gets it back and fails its assertion.
use synthwatch.Prelude.{
  ℕ, ◌≤◌, min, Option, none, some, Bool, true, false, List, [], ◌∷◌, ◌≡◌, ◌↔◌, map, All, ltb, leb,
  ◌==◌, arith, refl,
}
use synthwatch.SpecPath.{codes, same_codes}
use synthwatch.Text.{Text, is_digit}
use synthwatch.JsonPath.{JsValues, json_path, walk, is_name_start}
use synthwatch.JsonPath.Segments.{Segment, field, index, key, text, print}
use synthwatch.JsonPath.RoundTrip.{json_path-print}
use synthwatch.Assertions.{
  AssertionSource, AssertionComparison, Assertion, ResponseFacets, evaluate_assertions,
}
use synthwatch.Assertions.Reference.{Holds, all_faults, evaluate_assertions-Holds}
use synthwatch.HttpCheck.{WebRuntime}
use synthwatch.Multistep.Request.{Url, ChainStep}
use synthwatch.Multistep.Cookies.{StoredCookie}
use synthwatch.Multistep.Rows.{Records, run_multistep_chain-Records}
use synthwatch.Multistep.Carried.{Carries, run_multistep_chain-Carries}
use synthwatch.Multistep.Budget.{Aborts, run_multistep_chain-le}
use synthwatch.Multistep.Chain.{Surroundings, ChainCheck, Response, answered, max_chain_ms}
use synthwatch.Multistep.{run_multistep_chain}

-- Values with what the chain needs of JavaScript: texts, numbers, and an object with one member.
data TestValue : Type 0 where
  missing nothing : TestValue
  number : ℕ → TestValue
  words : Text → TestValue
  one_member : Text → ℕ → TestValue

abbrev is_missing : TestValue → Bool
is_missing missing = true
is_missing _ = false

abbrev is_nothing : TestValue → Bool
is_nothing nothing = true
is_nothing _ = false

abbrev is_blank : TestValue → Bool
is_blank (words []) = true
is_blank _ = false

abbrev has_members : TestValue → Bool
has_members (one_member k n) = true
has_members _ = false

abbrev member_of : TestValue → Text → TestValue
unfolding same_codes
member_of (one_member k n) t = elim (same_codes k t) [ true ↦ number n | false ↦ missing ]
member_of _ t = missing

abbrev words_of : TestValue → Option Text
words_of missing = some (codes "undefined")
words_of nothing = some (codes "null")
words_of (number n) = some (b'#' ∷ n ∷ [])
words_of (words t) = some t
words_of (one_member k n) = some (codes "[object Object]")

abbrev number_of : TestValue → Option (Option ℕ)
number_of (number n) = some (some n)
number_of _ = some none

abbrev is_none : Option ℕ → Bool
is_none none = true
is_none (some n) = false

abbrev both : (ℕ → ℕ → Bool) → Option ℕ → Option ℕ → Bool
both test (some m) (some n) = test m n
both test _ _ = false

abbrev parsed : Text → Option TestValue
parsed [] = none
parsed (c ∷ cs) = some (one_member (codes "id") 42)

abbrev test_js : JsValues
test_js = record {
  Value = TestValue;
  Num = Option ℕ;
  undefined = missing;
  null = nothing;
  of_number = number;
  of_text = words;
  is_undefined = is_missing;
  is_null = is_nothing;
  is_empty_text = is_blank;
  is_object = has_members;
  member = member_of;
  to_text = words_of;
  to_number = number_of;
  is_nan = is_none;
  num_eq = both (λ m n. m == n);
  num_lt = both ltb;
  num_le = both leb;
  elements = λ v. none;
  regexp = λ t. none;
  json_parse = parsed;
}

abbrev path : List Segment
path = field b'a' [] ∷ (index b'0' [] ∷ (key (codes "c d") ∷ []))

json_path-print_example :
    json_path test_js (one_member (codes "a") 42) (print path)
    ≡ walk test_js (one_member (codes "a") 42) (map text path)
unfolding is_name_start is_digit
json_path-print_example =
    json_path-print test_js (one_member (codes "a") 42) path
      ((refl, refl), ((refl, refl), (refl, tt)))

abbrev status_is : ℕ → Assertion test_js
status_is n = record {
  source = AssertionSource.status;
  comparison = AssertionComparison.eq;
  target = none;
  expected = number n;
}

abbrev id_exists : Assertion test_js
id_exists = record {
  source = AssertionSource.json_path_of;
  comparison = AssertionComparison.exists;
  target = some (codes "$.id");
  expected = missing;
}

abbrev facets : ResponseFacets test_js
facets = record {
  status = 200;
  response_time_ms = 120;
  header = λ t. some none;
  body = some (codes "{}");
  size_bytes = some 2;
}

abbrev assertions : List (Assertion test_js)
assertions = id_exists ∷ (status_is 500 ∷ [])

evaluate_assertions-Holds_example :
    ((evaluate_assertions test_js assertions facets).failures
      ≡ all_faults test_js facets assertions)
    × (((evaluate_assertions test_js assertions facets).ok ≡ true)
        ↔ All (Holds test_js facets) assertions)
evaluate_assertions-Holds_example = evaluate_assertions-Holds test_js facets assertions

abbrev web : WebRuntime
web = record {
  lower = λ t. t;
  upper = λ t. t;
  base64 = λ t. t;
  env = λ k. none;
  header_ok = λ k v. true;
  header_value = λ v. v;
}

abbrev login_url : Text
login_url = codes "https://login.example.com/"

abbrev url_of : Text → Option Url
unfolding same_codes
url_of t = some (record {
  hostname = elim (same_codes t login_url) [
    | true ↦ codes "login.example.com"
    | false ↦ codes "shop.example.com"
  ];
  is_https = true;
})

abbrev reply : Text → Response test_js
reply u = record {
  status = 200;
  response_time_ms = 120;
  header = λ t. some none;
  text = codes "{}";
  size_bytes = 2;
  set_cookies = codes "sid=1; domain=example.com; secure" ∷ [];
  url = u;
}

abbrev world : Surroundings test_js
world = record {
  web = web;
  inherited = λ k. none;
  parse_url = url_of;
  send = λ i r timeout. (answered (reply r.url), min timeout 120);
  message = λ e. codes "session 1";
  decimal = λ n. n ∷ [];
  redactor = λ t. codes "redacted";
}

abbrev step : Text → Text → ℕ → ChainStep test_js
step name url status = record {
  name = name;
  method = none;
  url = url;
  headers = [];
  body = none;
  auth = none;
  assertions = status_is status ∷ [];
  extract = [];
}

abbrev check : ChainCheck test_js
check = record {
  sensitive = true;
  timeout_ms = 30000;
  steps =
      step (codes "login") login_url 200
      ∷ (step [] (codes "https://shop.example.com/cart") 500 ∷ []);
}

-- The cookies of each request of the chain.
abbrev exchanges : List (List StoredCookie)
exchanges = map (λ x. x.request.carried) (run_multistep_chain test_js world 7 check 1000).sent

run_multistep_chain-Records_example :
    Records test_js world 7 check 1000 0 check.steps
      (run_multistep_chain test_js world 7 check 1000).rows
      (run_multistep_chain test_js world 7 check 1000).result
run_multistep_chain-Records_example =
    run_multistep_chain-Records test_js world 7 check 1000 (λ e. cc)

run_multistep_chain-Carries_example :
    Carries test_js world [] (run_multistep_chain test_js world 7 check 1000).sent
run_multistep_chain-Carries_example = run_multistep_chain-Carries test_js world 7 check 1000

world-Aborts : Aborts test_js world
world-Aborts i r timeout = omega arith

run_multistep_chain-le_example :
    (run_multistep_chain test_js world 7 check 1000).result.duration_ms ≤ max_chain_ms
run_multistep_chain-le_example = run_multistep_chain-le test_js world 7 check 1000 world-Aborts
