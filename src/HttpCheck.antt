-- ===== src/HttpCheck.antt =====
-- `buildAuthHeader` and `legacyAssertions` of runner/httpCheck.ts, and the headers of a request. The
-- environment, base64 and the rules of `Headers` are arguments; `Headers.set` that throws is `none`.
use synthwatch.Prelude.{
  ℕ, Option, none, some, Bool, true, false, List, [], ◌∷◌, ◌++◌, if◌then◌else◌,
}
use synthwatch.SpecPath.{codes, same_codes}
use synthwatch.Text.{Text}
use synthwatch.JsonPath.{JsValues}
use synthwatch.Assertions.{AssertionSource, AssertionComparison, Assertion, or_empty}

-- What a request takes from the runtime.
pub record WebRuntime : Type 0 where
  pub lower : Text → Text
  pub upper : Text → Text
  pub base64 : Text → Text
  pub env : Text → Option Text
  -- `Headers.set`: what it accepts, and the value that it keeps
  pub header_ok : Text → Text → Bool
  pub header_value : Text → Text

abbrev pub Headers : Type 0
Headers = List (Text × Text)

pub data AuthType : Type 0 where
  no_auth basic bearer api_key other_auth : AuthType

-- `AuthConfig`
pub record AuthConfig : Type 0 where
  pub type : AuthType
  pub username : Option Text
  pub password_env : Option Text
  pub token_env : Option Text
  pub header : Option Text
  pub value_env : Option Text

pub data AuthHeader : Type 0 where
  no_header : AuthHeader
  with_header : Text → Text → AuthHeader
  auth_error : AuthHeader

abbrev or_header : Text → Option Text → Text
or_header d none = d
or_header d (some t) = t

module _ (web : WebRuntime) where
  open web use {lower, base64, env, header_ok, header_value}

  put_header : Text → Text → Headers → Headers
  put_header k v [] = (k, v) ∷ []
  put_header k v ((j, w) ∷ hs) = if same_codes k j then (k, v) ∷ hs else (j, w) ∷ put_header k v hs

  -- `Headers.set`
  unfoldable pub set_header : Text → Text → Headers → Option Headers
  unfolding put_header
  set_header k v hs =
      if header_ok k v then some (put_header (lower k) (header_value v) hs) else none

  -- `Headers.has`
  unfoldable pub has_header : Text → Headers → Bool
  has_header k [] = false
  has_header k ((j, w) ∷ hs) = if same_codes (lower k) j then true else has_header k hs

  -- `process.env[…]`, of a name that may be missing.
  env_at : Option Text → Option Text
  env_at none = none
  env_at (some k) = env k

  -- `!token`
  secret_header : (Text → AuthHeader) → Option Text → AuthHeader
  secret_header f none = auth_error
  secret_header f (some []) = auth_error
  secret_header f (some (c ∷ cs)) = f (c ∷ cs)

  auth_of : AuthType → AuthConfig → AuthHeader
  unfolding env_at secret_header
  auth_of no_auth a = no_header
  auth_of bearer a =
      secret_header (λ t. with_header (codes "authorization") (codes "Bearer " ++ t))
        (env_at a.token_env)
  auth_of basic a =
      secret_header
        (λ t.
          with_header (codes "authorization")
            (codes "Basic " ++ base64 (or_empty a.username ++ b':' ∷ t)))
        (env_at a.password_env)
  auth_of api_key a =
      secret_header (λ t. with_header (or_header (codes "x-api-key") a.header) t)
        (env_at a.value_env)
  auth_of other_auth a = auth_error

  -- `buildAuthHeader`
  unfoldable pub build_auth_header : Option AuthConfig → AuthHeader
  unfolding auth_of
  build_auth_header none = no_header
  build_auth_header (some a) = auth_of a.type a

module _ (js : JsValues) where
  body_assertion : Option Text → List (Assertion js)
  body_assertion none = []
  body_assertion (some []) = []
  body_assertion (some (c ∷ cs)) =
      record {
        source = AssertionSource.body;
        comparison = AssertionComparison.contains;
        target = none;
        expected = js.of_text (c ∷ cs);
      }
      ∷ []

  -- `legacyAssertions`
  unfoldable pub legacy_assertions : ℕ → Option Text → List (Assertion js)
  unfolding body_assertion
  legacy_assertions expected_status body_must_contain =
      record {
        source = AssertionSource.status;
        comparison = AssertionComparison.eq;
        target = none;
        expected = js.of_number expected_status;
      }
      ∷ body_assertion body_must_contain
