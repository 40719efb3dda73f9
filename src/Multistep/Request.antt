-- ===== src/Multistep/Request.antt =====
-- The request of one step of runner/multistep.ts: the templates, the auth header and the carried cookies.
-- What throws inside the `try` of the source is the error of a request that could not be built.
use synthwatch.Prelude.{ℕ, Option, none, some, Bool, ◌&&◌, List, [], ◌∷◌, ◌++◌, if◌then◌else◌, not}
use synthwatch.SpecPath.{codes, same_codes}
use synthwatch.Text.{Text, distinct_from}
use synthwatch.JsonPath.{JsValues}
use synthwatch.Assertions.{Assertion, Failure}
use synthwatch.HttpCheck.{
  WebRuntime, AuthConfig, AuthHeader, Headers, set_header, has_header, build_auth_header, no_header,
  with_header, auth_error,
}
use synthwatch.Multistep.Template.{Vars, Resolved, resolve_template}
use synthwatch.Multistep.Cookies.{StoredCookie, matched_cookies, cookie_header}

-- `new URL`: the lowercased host name, and whether the protocol is `https:`.
pub record Url : Type 0 where
  pub hostname : Text
  pub is_https : Bool

-- `ExtractRule`
pub record ExtractRule : Type 0 where
  pub var : Text
  pub json_path : Text

module _ (js : JsValues) where
  -- `ChainStep`
  pub record ChainStep : Type 0 where
    pub name : Text
    pub method : Option Text
    pub url : Text
    pub headers : Headers
    pub body : Option Text
    pub auth : Option AuthConfig
    pub assertions : List (Assertion js)
    pub extract : List ExtractRule

  -- The reasons for which a step stops the chain, each the text that the source builds.
  pub data StepError : Type 0 where
    unresolved : List Text → StepError
    auth_missing : StepError
    build_failed : StepError
    budget_exhausted : StepError
    send_failed : StepError
    timed_out : ℕ → StepError
    assertions_failed : List (Failure js) → StepError
    body_not_json : StepError
    nothing_at : ExtractRule → StepError
    no_steps : StepError

  -- The arguments of `fetch`, with what was read of the URL and the cookies that were attached.
  pub record ChainRequest : Type 0 where
    pub url : Text
    pub method : Text
    pub headers : Headers
    pub body : Option Text
    pub host : Text
    pub is_https : Bool
    pub carried : List StoredCookie

  pub data Built : Type 0 where
    built : ChainRequest → Built
    refused : StepError → Built

  -- What has been resolved of a step before the check for missing variables.
  pub record Draft : Type 0 where
    pub url : Text
    pub headers : Headers
    pub body : Option Text
    pub missing : List Text

module _ (js : JsValues) (web : WebRuntime) (inherited : Text → Option js.Value)
    (parse_url : Text → Option Url) where
  -- The loop over the headers of a step, with the missing names.
  draft_headers : Vars js → Headers → Headers → List Text → Option (Headers × List Text)
  draft_headers vars [] hs missing = some (hs, missing)
  draft_headers vars ((k, v) ∷ rest) hs missing = elim (resolve_template js inherited vars v) [
    | none ↦ none
    | some r ↦ elim (set_header web k r.value hs) [
      | none ↦ none
      | some hs' ↦ draft_headers vars rest hs' (missing ++ r.missing)
    ]
  ]

  -- `(step.method ?? 'GET').toUpperCase()`
  unfoldable pub method_of : Option Text → Text
  method_of none = web.upper (codes "GET")
  method_of (some m) = web.upper m

  unfoldable pub has_body : Text → Bool
  has_body method = not (same_codes method (codes "GET")) && not (same_codes method (codes "HEAD"))

  draft_body : Vars js → Text → Option Text → Option (Option Text × List Text)
  unfolding has_body
  draft_body vars method none = some (none, [])
  draft_body vars method (some b) =
      if has_body method
      then elim (resolve_template js inherited vars b) [
        | none ↦ none
        | some r ↦ some (some r.value, r.missing)
      ]
      else some (none, [])

  with_draft_body :
      Text → Headers → List Text → Option (Option Text × List Text) → Option (Draft js)
  with_draft_body url hs missing none = none
  with_draft_body url hs missing (some (b, more)) =
      some (record { url = url; headers = hs; body = b; missing = missing ++ more })

  draft_after_url : Vars js → ChainStep js → Option (Resolved js) → Option (Draft js)
  unfolding draft_headers draft_body with_draft_body method_of
  draft_after_url vars step none = none
  draft_after_url vars step (some u) = elim (draft_headers vars step.headers [] u.missing) [
    | none ↦ none
    | some (hs, missing) ↦
        with_draft_body u.value hs missing (draft_body vars (method_of step.method) step.body)
  ]

  -- The templates of a step.
  unfoldable pub draft : Vars js → ChainStep js → Option (Draft js)
  unfolding draft_after_url
  draft vars step = draft_after_url vars step (resolve_template js inherited vars step.url)

  -- `headers.set('cookie', …)`, if some match and the step has set none itself.
  unfoldable pub cookied : List StoredCookie → ChainRequest js → Built js
  cookied [] request = built request
  cookied (c ∷ jar) request =
      if has_header web (codes "cookie") request.headers
      then built request
      else elim (set_header web (codes "cookie") (cookie_header (c ∷ jar)) request.headers) [
        | none ↦ refused build_failed
        | some hs ↦ built (record request { headers = hs; carried = c ∷ jar })
      ]

  unfoldable pub with_url : List StoredCookie → Text → Draft js → Headers → Option Url → Built js
  unfolding cookied
  with_url jar method d hs none = refused build_failed
  with_url jar method d hs (some u) =
      cookied (matched_cookies web.lower u.hostname u.is_https jar) (record {
        url = d.url;
        method = method;
        headers = hs;
        body = d.body;
        host = u.hostname;
        is_https = u.is_https;
        carried = [];
      })

  unfoldable pub with_auth : List StoredCookie → Text → Draft js → AuthHeader → Built js
  unfolding with_url
  with_auth jar method d no_header = with_url jar method d d.headers (parse_url d.url)
  with_auth jar method d auth_error = refused auth_missing
  with_auth jar method d (with_header k v) = elim (set_header web k v d.headers) [
    | none ↦ refused build_failed
    | some hs ↦ with_url jar method d hs (parse_url d.url)
  ]

  -- `if (missing.length > 0)`, and the auth header.
  unfoldable pub complete : List StoredCookie → ChainStep js → Draft js → List Text → Built js
  unfolding with_auth
  complete jar step d [] = with_auth jar (method_of step.method) d (build_auth_header web step.auth)
  complete jar step d (m ∷ missing) = refused (unresolved (distinct_from [] (m ∷ missing)))

  unfoldable pub build_of : List StoredCookie → ChainStep js → Option (Draft js) → Built js
  unfolding complete
  build_of jar step none = refused build_failed
  build_of jar step (some d) = complete jar step d d.missing

  -- The part of the loop's body before the send.
  unfoldable pub build_request : Vars js → List StoredCookie → ChainStep js → Built js
  unfolding build_of
  build_request vars jar step = build_of jar step (draft vars step)
