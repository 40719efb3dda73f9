-- ===== src/EnvDomain.antt =====
-- runner/envDomainMap.ts: the environment of a monitor. The URL parser and the lower-casing of the
-- language are parameters.
use synthwatch.Prelude.{
  ℕ, String, Option, none, some, Bool, ◌||◌, List, [], ◌∷◌, if◌then◌else◌, str_eq, is_some,
}
use synthwatch.SpecPath.{codes, same_codes, strip_prefix, strip_suffix}

-- `new URL(…).hostname.toLowerCase()` of a target, with `https://` put before a bare host, over code
-- points; nothing when the URL does not parse.
pub record UrlParser : Type 0 where
  pub hostname : String → Option (List ℕ)
  pub to_lower_case : String → String

pub record EnvDomainRule : Type 0 where
  pub pattern : String
  pub environment : String

-- `hostOfTarget`
pub host_of_target : UrlParser → Option String → List ℕ
host_of_target u none = []
host_of_target u (some t) =
    if str_eq t "" then [] else elim (u.hostname t) [ none ↦ [] | some h ↦ h ]

-- `matchesPattern`
pub matches_pattern : UrlParser → List ℕ → String → Bool
matches_pattern u host pattern =
    let p = codes (u.to_lower_case pattern) in
    elim (strip_prefix (codes "*.") p) [
      | some suffix ↦ same_codes host suffix || is_some (strip_suffix (b'.' ∷ suffix) host)
      | none ↦ same_codes host p
    ]

-- The loop of `inferFromDomain`: the first rule that matches.
pub first_match : UrlParser → List ℕ → List EnvDomainRule → Option String
first_match u host [] = none
first_match u host (r ∷ rs) =
    if matches_pattern u host r.pattern then some r.environment else first_match u host rs

-- `inferFromDomain`
pub infer_from_domain : UrlParser → Option String → List EnvDomainRule → Option String
infer_from_domain u target rules = elim (host_of_target u target) [
  | [] ↦ none
  | c ∷ cs ↦ first_match u (c ∷ cs) rules
]

-- `resolveEnvironment`: the manifest, else the inference, else prod.
unfoldable pub resolve_environment :
    UrlParser → Option String → Option String → List EnvDomainRule → String
unfolding infer_from_domain first_match matches_pattern host_of_target
resolve_environment u (some env) target rules = env
resolve_environment u none target rules = elim (infer_from_domain u target rules) [
  | some env ↦ env
  | none ↦ "prod"
]
