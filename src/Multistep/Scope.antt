-- ===== src/Multistep/Scope.antt =====
-- Which requests of a chain of runner/multistep.ts carry which cookies.
use synthwatch.Prelude.{
  Option, none, some, Bool, true, false, ◌&&◌, ◌||◌, List, [], ◌∷◌, ◌≡◌, ◌≢◌, ◌⊎◌, inl, inr, All,
  Bool-cases, refl, sym, ap, ◌∙◌, arith, if◌then◌else◌, not, if-elim,
}
use synthwatch.SpecPath.{codes, same_codes}
use synthwatch.Text.{Text, trim, cut, EndsWith, ends_with, same_codes_eq}
use synthwatch.Multistep.Cookies.{
  StoredCookie, CookieScope, belongs, narrow, domain_attribute, attribute, attributes,
  scoped_cookie, named_cookie, cookie_of_parts, parse_set_cookie, cookie_matches, or_nothing,
  same_key, put_cookie, put_parsed, store_cookies, matched_cookies,
}

ends_with-EndsWith : (cs suf : Text) → ends_with cs suf ≡ true → EndsWith cs suf
unfolding ends_with
ends_with-EndsWith [] suf h = ([], sym (same_codes_eq suf [] h))
ends_with-EndsWith (c ∷ cs) suf h = elim (Bool-cases (same_codes suf (c ∷ cs))) [
  | inl e ↦ ([], sym (same_codes_eq suf (c ∷ cs) e))
  | inr e ↦ let (pre, k) = ends_with-EndsWith cs suf (other e h) in (c ∷ pre, ap (λ zs. c ∷ zs) k)
]
  where
    other : {a b : Bool} → a ≡ false → (a || b) ≡ true → b ≡ true
    other e h = ground arith

-- A host is the domain, or ends in a dot and the domain.
abbrev pub Within : Text → Text → Type 0
Within host d = (host ≡ d) ⊎ EndsWith host (b'.' ∷ d)

belongs-Within : (host d : Text) → belongs host d ≡ true → Within host d
unfolding belongs
belongs-Within host d h = elim (Bool-cases (same_codes host d)) [
  | inl e ↦ inl (same_codes_eq host d e)
  | inr e ↦ inr (ends_with-EndsWith host (b'.' ∷ d) (other e h))
]
  where
    other : {a b : Bool} → a ≡ false → (a || b) ≡ true → b ≡ true
    other e h = ground arith

module _ (lower : Text → Text) where
  -- The scope that a response of this host can give to a cookie.
  abbrev pub Granted : Text → Bool → Text → Type 0
  Granted host true domain = domain ≡ lower host
  Granted host false domain = (domain ≢ []) × Within host domain

  abbrev IsScope : Text → CookieScope → Type 0
  IsScope host scope = Granted host scope.host_only scope.domain

  narrow-IsScope :
      (host d : Text) (scope : CookieScope)
      → IsScope host scope
      → IsScope host (narrow host d scope)
  unfolding narrow
  narrow-IsScope host [] scope h = h
  narrow-IsScope host (c ∷ d) scope h =
      if-elim (IsScope host) (belongs host (c ∷ d)) _ _
        (λ e. ((λ k. cc), belongs-Within host (c ∷ d) e)) (λ e. h)

  attribute-IsScope :
      (host attr : Text) (scope : CookieScope)
      → IsScope host scope
      → IsScope host (attribute lower host attr scope)
  unfolding attribute
  attribute-IsScope host attr scope h =
      let key = lower (trim (cut b'=' attr).0) in
      choose (same_codes key (codes "secure")) (same_codes key (codes "domain"))
        (trim (or_nothing (cut b'=' attr).1))
    where
      domain_attribute-IsScope : (v : Text) → IsScope host (domain_attribute lower host v scope)
      domain_attribute-IsScope [] = unfold domain_attribute in h
      domain_attribute-IsScope (c ∷ v) = unfold domain_attribute in narrow-IsScope host _ scope h

      choose :
          (a b : Bool) (v : Text)
          → IsScope host (
              if a
              then record scope { secure = true }
              else if b
              then domain_attribute lower host v scope
              else scope)
      choose true b v = h
      choose false true v = domain_attribute-IsScope v
      choose false false v = h

  attributes-IsScope :
      (host : Text) (attrs : List Text) (scope : CookieScope)
      → IsScope host scope
      → IsScope host (attributes lower host attrs scope)
  unfolding attributes
  attributes-IsScope host [] scope h = h
  attributes-IsScope host (a ∷ attrs) scope h =
      attributes-IsScope host attrs (attribute lower host a scope)
        (attribute-IsScope host a scope h)

  -- The cookie came from one of the hosts.
  abbrev pub CameFrom : List Text → StoredCookie → Type 0
  CameFrom [] c = ⊥
  CameFrom (host ∷ hosts) c = Granted host c.host_only c.domain ⊎ CameFrom hosts c

  abbrev pub IsJar : List Text → List StoredCookie → Type 0
  IsJar hosts = All (CameFrom hosts)

  -- The parsed cookie, if there is one.
  abbrev IfCame : List Text → Option StoredCookie → Type 0
  IfCame hosts none = Unit {0}
  IfCame hosts (some c) = CameFrom hosts c

  cookie_of_parts-IfCame :
      (parts : List Text) (host : Text) (hosts : List Text)
      → IfCame (host ∷ hosts) (cookie_of_parts lower parts host)
  unfolding cookie_of_parts scoped_cookie
  cookie_of_parts-IfCame [] host hosts = tt
  cookie_of_parts-IfCame (first ∷ attrs) host hosts = named _
    where
      named : (p : Text × Option Text) → IfCame (host ∷ hosts) (named_cookie lower p host attrs)
      named (n, none) = unfold named_cookie in tt
      named ([], some value) = unfold named_cookie in tt
      named (c ∷ n, some value) = unfold named_cookie in inl (attributes-IsScope host attrs _ refl)

  put_cookie-IsJar :
      (hosts : List Text) (c : StoredCookie) (jar : List StoredCookie)
      → CameFrom hosts c
      → IsJar hosts jar
      → IsJar hosts (put_cookie lower c jar)
  unfolding put_cookie
  put_cookie-IsJar hosts c [] h k = (h, tt)
  put_cookie-IsJar hosts c (x ∷ jar) h k =
      choose (same_key lower x c) (put_cookie lower c jar) (put_cookie-IsJar hosts c jar h k.1)
    where
      choose :
          (b : Bool) (rest : List StoredCookie)
          → IsJar hosts rest
          → IsJar hosts (if b then c ∷ jar else x ∷ rest)
      choose true rest r = (h, k.1)
      choose false rest r = (k.0, r)

  put_parsed-IsJar :
      (hosts : List Text) (o : Option StoredCookie) (jar : List StoredCookie)
      → IfCame hosts o
      → IsJar hosts jar
      → IsJar hosts (put_parsed lower o jar)
  unfolding put_parsed
  put_parsed-IsJar hosts none jar h k = k
  put_parsed-IsJar hosts (some c) jar h k = put_cookie-IsJar hosts c jar h k

  pub weaken-IsJar :
      (host : Text) (hosts : List Text) (jar : List StoredCookie)
      → IsJar hosts jar
      → IsJar (host ∷ hosts) jar
  weaken-IsJar host hosts [] h = tt
  weaken-IsJar host hosts (c ∷ jar) h = (inr h.0, weaken-IsJar host hosts jar h.1)

  pub store_cookies-IsJar :
      (host : Text) (hosts : List Text) (list : List Text) (jar : List StoredCookie)
      → IsJar (host ∷ hosts) jar
      → IsJar (host ∷ hosts) (store_cookies lower host list jar)
  unfolding store_cookies parse_set_cookie
  store_cookies-IsJar host hosts [] jar h = h
  store_cookies-IsJar host hosts (s ∷ list) jar h =
      store_cookies-IsJar host hosts list _
        (put_parsed-IsJar (host ∷ hosts) _ jar (cookie_of_parts-IfCame _ host hosts) h)

  -- A host that may get the cookie back, by the host that has set it.
  abbrev pub Shares : Text → Text → StoredCookie → Type 0
  Shares req_host host c =
      (req_host ≡ lower host) ⊎ ((c.domain ≢ []) × Within host c.domain × Within req_host c.domain)

  abbrev pub Earned : Text → List Text → StoredCookie → Type 0
  Earned req_host [] c = ⊥
  Earned req_host (host ∷ hosts) c = Shares req_host host c ⊎ Earned req_host hosts c

  -- The cookie may go with a request to this host.
  abbrev pub MayCarry : List Text → Text → Bool → StoredCookie → Type 0
  MayCarry hosts req_host is_https c = ((not c.secure || is_https) ≡ true) × Earned req_host hosts c

  cookie_matches-Earned :
      (hosts : List Text) (req_host : Text) (c : StoredCookie)
      → (if c.host_only then same_codes req_host c.domain else belongs req_host c.domain) ≡ true
      → CameFrom hosts c
      → Earned req_host hosts c
  cookie_matches-Earned [] req_host c m h = h
  cookie_matches-Earned (host ∷ hosts) req_host c m (inr h) =
      inr (cookie_matches-Earned hosts req_host c m h)
  cookie_matches-Earned (host ∷ hosts) req_host c m (inl h) = inl (shared c.host_only c.domain m h)
    where
      shared :
          (b : Bool) (d : Text)
          → (if b then same_codes req_host d else belongs req_host d) ≡ true
          → Granted host b d
          → (req_host ≡ lower host) ⊎ ((d ≢ []) × Within host d × Within req_host d)
      shared true d k g = inl (same_codes_eq req_host d k ∙ g)
      shared false d k g = inr (g.0, g.1, belongs-Within req_host d k)

  cookie_matches-MayCarry :
      (hosts : List Text) (req_host : Text) (is_https : Bool) (c : StoredCookie)
      → cookie_matches lower req_host is_https c ≡ true
      → CameFrom hosts c
      → MayCarry hosts req_host is_https c
  unfolding cookie_matches
  cookie_matches-MayCarry hosts req_host is_https c m h = (
    secure_only c.secure is_https _ m,
    cookie_matches-Earned hosts req_host c (insecure (c.secure && not is_https) _ m) h,
  )
    where
      secure_only : (s b x : Bool) → (if s && not b then false else x) ≡ true → (not s || b) ≡ true
      secure_only s b x k = ground arith

      insecure : (s x : Bool) → (if s then false else x) ≡ true → x ≡ true
      insecure s x k = ground arith

  -- What a jar gives to a request.
  pub matched_cookies-MayCarry :
      (hosts : List Text) (req_host : Text) (is_https : Bool) (jar : List StoredCookie)
      → IsJar hosts jar
      → All (MayCarry hosts req_host is_https) (matched_cookies lower req_host is_https jar)
  unfolding matched_cookies
  matched_cookies-MayCarry hosts req_host is_https [] h = tt
  matched_cookies-MayCarry hosts req_host is_https (c ∷ jar) h =
      let rest = matched_cookies-MayCarry hosts req_host is_https jar h.1 in
      if-elim (All (MayCarry hosts req_host is_https)) (cookie_matches lower req_host is_https c) _
        _ (λ m. (cookie_matches-MayCarry hosts req_host is_https c m h.0, rest)) (λ m. rest)
