-- ===== src/Multistep/Chain.antt =====
-- What the loop of runner/multistep.ts reads, records and passes on, and the extraction of variables.
use synthwatch.Prelude.{ℕ, Option, none, some, Bool, List, [], ◌∷◌, if◌then◌else◌}
use synthwatch.Text.{Text}
use synthwatch.JsonPath.{JsValues, json_path}
use synthwatch.Assertions.{ResponseFacets}
use synthwatch.HttpCheck.{WebRuntime}
use synthwatch.Multistep.Template.{Vars}
use synthwatch.Multistep.Cookies.{StoredCookie}
use synthwatch.Multistep.Request.{
  Url, ExtractRule, ChainStep, StepError, ChainRequest, body_not_json, nothing_at,
}

-- MAX_CHAIN_MS
abbrev pub max_chain_ms : ℕ
max_chain_ms = 180000

-- The verdict of a chain, and the status of a row of `run_steps`.
pub data ChainVerdict : Type 0 where
  passed failed errored : ChainVerdict

module _ (js : JsValues) where
  -- What `fetch` and `res.text()` give. `url` is empty where the response has none.
  pub record Response : Type 0 where
    pub status : ℕ
    pub response_time_ms : ℕ
    pub header : Text → Option (Option Text)
    pub text : Text
    pub size_bytes : ℕ
    pub set_cookies : List Text
    pub url : Text

  pub data Answer : Type 0 where
    answered : Response → Answer
    aborted : Answer
    threw : Answer

  -- What the chain takes from its surroundings. `send` also gives the milliseconds that have passed.
  pub record Surroundings : Type 0 where
    pub web : WebRuntime
    pub inherited : Text → Option js.Value
    pub parse_url : Text → Option Url
    pub send : ℕ → ChainRequest js → ℕ → Answer × ℕ
    -- the text of an error, and of the number of a step
    pub message : StepError js → Text
    pub decimal : ℕ → Text
    -- `makeRedactor(check.redact_patterns)`
    pub redactor : Text → Text

  -- A row of `run_steps`.
  pub record StepRow : Type 0 where
    pub run_id : ℕ
    pub step_index : ℕ
    pub name : Text
    pub status : ChainVerdict
    pub duration_ms : ℕ
    pub error_message : Option Text

  -- `MultistepResult`
  pub record MultistepResult : Type 0 where
    pub verdict : ChainVerdict
    pub duration_ms : ℕ
    pub failed_step : Option Text
    pub error : Option (StepError js)

  -- A request, and the host of the response, if one came.
  pub record Exchange : Type 0 where
    pub request : ChainRequest js
    pub response_host : Option Text

  pub record Trail : Type 0 where
    pub rows : List StepRow
    pub sent : List Exchange
    pub result : MultistepResult

  pub record ChainState : Type 0 where
    pub vars : Vars js
    pub cookies : List StoredCookie
    pub now : ℕ

  -- The columns of `checks` that a chain reads.
  pub record ChainCheck : Type 0 where
    pub sensitive : Bool
    pub timeout_ms : ℕ
    pub steps : List (ChainStep js)

  pub data Extracted : Type 0 where
    extracted : Vars js → Extracted
    not_extracted : StepError js → Extracted

  -- The loop over the rules of a step.
  unfoldable pub extract_rules : js.Value → List ExtractRule → Vars js → Extracted
  extract_rules parsed [] vars = extracted vars
  extract_rules parsed (rule ∷ rules) vars =
      let value = json_path js parsed rule.json_path in
      if js.is_undefined value
      then not_extracted (nothing_at rule)
      else extract_rules parsed rules ((rule.var, value) ∷ vars)

  extract_parsed : Option js.Value → List ExtractRule → Vars js → Extracted
  unfolding extract_rules
  extract_parsed none rules vars = not_extracted body_not_json
  extract_parsed (some parsed) rules vars = extract_rules parsed rules vars

  -- `if (step.extract?.length)`
  unfoldable pub extract_vars : Text → List ExtractRule → Vars js → Extracted
  unfolding extract_parsed
  extract_vars text [] vars = extracted vars
  extract_vars text (rule ∷ rules) vars = extract_parsed (js.json_parse text) (rule ∷ rules) vars

  unfoldable pub facets_of : Response → ResponseFacets js
  facets_of r = record {
    status = r.status;
    response_time_ms = r.response_time_ms;
    header = r.header;
    body = some r.text;
    size_bytes = some r.size_bytes;
  }

  or_host : Text → Option Url → Text
  or_host host none = host
  or_host host (some u) = u.hostname

  or_url : Text → Text → Text
  or_url [] url = url
  or_url (c ∷ cs) url = c ∷ cs

  -- `res.url || urlR.value`, and its host, or that of the request.
  unfoldable pub response_host : (Text → Option Url) → ChainRequest js → Response → Text
  unfolding or_host or_url
  response_host parse_url request r = or_host request.host (parse_url (or_url r.url request.url))
