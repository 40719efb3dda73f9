-- ===== src/Multistep/Cookies.antt =====
-- The cookie jar of runner/multistep.ts: `parseSetCookie`, `cookieMatches` and the update of the jar.
use synthwatch.Prelude.{
  Option, none, some, Bool, true, false, ◌&&◌, ◌||◌, List, [], ◌∷◌, ◌++◌, if◌then◌else◌, ◌==◌, not,
  filter,
}
use synthwatch.SpecPath.{codes, same_codes}
use synthwatch.Text.{Text, trim, split, cut, ends_with}

-- `StoredCookie`
pub record StoredCookie : Type 0 where
  pub name : Text
  pub value : Text
  pub domain : Text
  pub host_only : Bool
  pub secure : Bool

-- The three variables of the loop over the attributes.
pub record CookieScope : Type 0 where
  pub domain : Text
  pub host_only : Bool
  pub secure : Bool

abbrev pub same_bool : Bool → Bool → Bool
same_bool true b = b
same_bool false b = not b

abbrev drop_dot : Text → Text
drop_dot [] = []
drop_dot (c ∷ cs) = if c == b'.' then cs else c ∷ cs

abbrev pub or_nothing : Option Text → Text
or_nothing none = []
or_nothing (some t) = t

-- `host === d || host.endsWith('.' + d)`
unfoldable pub belongs : Text → Text → Bool
unfolding same_codes ends_with
belongs host d = same_codes host d || ends_with host (b'.' ∷ d)

-- A non-empty domain to which the host belongs is taken.
unfoldable pub narrow : Text → Text → CookieScope → CookieScope
unfolding belongs
narrow host [] scope = scope
narrow host (c ∷ d) scope =
    if belongs host (c ∷ d) then record scope { domain = c ∷ d; host_only = false } else scope

module _ (lower : Text → Text) where
  -- `key === 'domain' && val`
  unfoldable pub domain_attribute : Text → Text → CookieScope → CookieScope
  unfolding narrow
  domain_attribute host [] scope = scope
  domain_attribute host (c ∷ val) scope = narrow host (drop_dot (lower (c ∷ val))) scope

  unfoldable pub attribute : Text → Text → CookieScope → CookieScope
  unfolding domain_attribute
  attribute host attr scope =
      let (k, v) = cut b'=' attr in
      let key = lower (trim k) in
      if same_codes key (codes "secure")
      then record scope { secure = true }
      else if same_codes key (codes "domain")
      then domain_attribute host (trim (or_nothing v)) scope
      else scope

  unfoldable pub attributes : Text → List Text → CookieScope → CookieScope
  attributes host [] scope = scope
  attributes host (attr ∷ attrs) scope = attributes host attrs (attribute host attr scope)

  -- The cookie of a name and a value.
  unfoldable pub scoped_cookie : Text → Text → Text → List Text → StoredCookie
  unfolding attributes
  scoped_cookie name value host attrs =
      let scope =
        attributes host attrs (record { domain = lower host; host_only = true; secure = false }) in
      record {
        name = trim name;
        value = trim value;
        domain = scope.domain;
        host_only = scope.host_only;
        secure = scope.secure;
      }

  -- `eq <= 0`
  unfoldable pub named_cookie : Text × Option Text → Text → List Text → Option StoredCookie
  unfolding scoped_cookie
  named_cookie (n, none) host attrs = none
  named_cookie ([], some value) host attrs = none
  named_cookie (c ∷ n, some value) host attrs = some (scoped_cookie (c ∷ n) value host attrs)

  unfoldable pub cookie_of_parts : List Text → Text → Option StoredCookie
  unfolding named_cookie
  cookie_of_parts [] host = none
  cookie_of_parts (first ∷ attrs) host = named_cookie (cut b'=' first) host attrs

  -- `parseSetCookie`
  unfoldable pub parse_set_cookie : Text → Text → Option StoredCookie
  unfolding cookie_of_parts
  parse_set_cookie set_cookie response_host = cookie_of_parts (split b';' set_cookie) response_host

  -- `cookieMatches`
  unfoldable pub cookie_matches : Text → Bool → StoredCookie → Bool
  unfolding belongs
  cookie_matches req_host is_https c =
      if c.secure && not is_https
      then false
      else if c.host_only
      then same_codes req_host c.domain
      else belongs req_host c.domain

  pub same_key : StoredCookie → StoredCookie → Bool
  same_key x c =
      same_codes x.name c.name
      && (same_codes x.domain c.domain && same_bool x.host_only c.host_only)

  -- The one that it replaces, or the end of the jar.
  unfoldable pub put_cookie : StoredCookie → List StoredCookie → List StoredCookie
  unfolding same_key
  put_cookie c [] = c ∷ []
  put_cookie c (x ∷ jar) = if same_key x c then c ∷ jar else x ∷ put_cookie c jar

  unfoldable pub put_parsed : Option StoredCookie → List StoredCookie → List StoredCookie
  unfolding put_cookie
  put_parsed none jar = jar
  put_parsed (some c) jar = put_cookie c jar

  -- The loop over the Set-Cookie headers of a response.
  unfoldable pub store_cookies : Text → List Text → List StoredCookie → List StoredCookie
  unfolding put_parsed parse_set_cookie
  store_cookies host [] jar = jar
  store_cookies host (s ∷ rest) jar =
      store_cookies host rest (put_parsed (parse_set_cookie s host) jar)

  -- `cookies.filter(…)`
  unfoldable pub matched_cookies : Text → Bool → List StoredCookie → List StoredCookie
  unfolding cookie_matches
  matched_cookies req_host is_https jar = filter (cookie_matches req_host is_https) jar

-- `map((c) => `${c.name}=${c.value}`).join('; ')`
unfoldable pub cookie_header : List StoredCookie → Text
cookie_header [] = []
cookie_header (c ∷ []) = c.name ++ b'=' ∷ c.value
cookie_header (c ∷ (d ∷ jar)) =
    (c.name ++ b'=' ∷ c.value) ++ b';' ∷ (b' ' ∷ cookie_header (d ∷ jar))
