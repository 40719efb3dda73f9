-- ===== src/Multistep/Carried.antt =====
-- The cookies of every request that a chain of runner/multistep.ts sends.
use synthwatch.Prelude.{
  ℕ, suc, Option, none, some, Bool, true, false, List, [], ◌∷◌, ◌++◌, inl, inr, All, if◌then◌else◌,
  subst, sym, append-nil,
}
use synthwatch.SpecPath.{codes}
use synthwatch.Text.{Text}
use synthwatch.JsonPath.{JsValues}
use synthwatch.HttpCheck.{
  Headers, AuthHeader, no_header, with_header, auth_error, set_header, has_header,
}
use synthwatch.Multistep.Cookies.{StoredCookie, cookie_header}
use synthwatch.Multistep.Request.{
  Url, ChainStep, ChainRequest, StepError, Built, built, refused, Draft, build_request, cookied,
  with_url, with_auth, complete, build_of,
}
use synthwatch.Multistep.Scope.{
  MayCarry, IsJar, weaken-IsJar, store_cookies-IsJar, matched_cookies-MayCarry,
}
use synthwatch.Multistep.Outcome.{Progress, Jar, run_step_lem}
use synthwatch.Multistep.Chain.{Surroundings, ChainCheck, ChainState, Exchange}
use synthwatch.Multistep.{stop, pass_step, run_steps, run_chain, run_multistep_chain}

module _ (js : JsValues) (world : Surroundings js) where
  open world use {web, inherited, parse_url}

  -- The cookies of a request, by the hosts that have answered before it.
  abbrev pub CarriesOnly : List Text → ChainRequest js → Type 0
  CarriesOnly hosts r = All (MayCarry web.lower hosts r.host r.is_https) r.carried

  abbrev IfBuilt : List Text → Built js → Type 0
  IfBuilt hosts (refused e) = Unit {0}
  IfBuilt hosts (built r) = CarriesOnly hosts r

  module _ (hosts : List Text) where
    cookied-IfBuilt :
        (jar : List StoredCookie) (r : ChainRequest js)
        → All (MayCarry web.lower hosts r.host r.is_https) jar
        → CarriesOnly hosts r
        → IfBuilt hosts (cookied js web inherited parse_url jar r)
    unfolding cookied
    cookied-IfBuilt [] r h k = k
    cookied-IfBuilt (c ∷ jar) r h k =
        choose (has_header web (codes "cookie") r.headers)
          (set_header web (codes "cookie") (cookie_header (c ∷ jar)) r.headers)
      where
        choose :
            (b : Bool) (o : Option Headers)
            → IfBuilt hosts (
                if b then built r else elim o [
                  | none ↦ refused StepError.build_failed
                  | some hs ↦ built (record r { headers = hs; carried = c ∷ jar })
                ])
        choose true o = k
        choose false none = tt
        choose false (some hs) = h

    module _ (jar : List StoredCookie) (h : IsJar web.lower hosts jar) where
      with_url-IfBuilt :
          (method : Text) (d : Draft js) (hs : Headers) (u : Option Url)
          → IfBuilt hosts (with_url js web inherited parse_url jar method d hs u)
      unfolding with_url
      with_url-IfBuilt method d hs none = tt
      with_url-IfBuilt method d hs (some u) =
          cookied-IfBuilt _ _ (matched_cookies-MayCarry web.lower hosts u.hostname u.is_https jar h)
            tt

      with_auth-IfBuilt :
          (method : Text) (d : Draft js) (a : AuthHeader)
          → IfBuilt hosts (with_auth js web inherited parse_url jar method d a)
      unfolding with_auth
      with_auth-IfBuilt method d no_header = with_url-IfBuilt method d d.headers (parse_url d.url)
      with_auth-IfBuilt method d auth_error = tt
      with_auth-IfBuilt method d (with_header k v) = set (set_header web k v d.headers)
        where
          set :
              (o : Option Headers)
              → IfBuilt hosts (elim o [
                | none ↦ refused StepError.build_failed
                | some hs ↦ with_url js web inherited parse_url jar method d hs (parse_url d.url)
              ])
          set none = tt
          set (some hs) = with_url-IfBuilt method d hs (parse_url d.url)

      complete-IfBuilt :
          (step : ChainStep js) (d : Draft js) (missing : List Text)
          → IfBuilt hosts (complete js web inherited parse_url jar step d missing)
      unfolding complete
      complete-IfBuilt step d [] = with_auth-IfBuilt _ d _
      complete-IfBuilt step d (m ∷ missing) = tt

      build_of-IfBuilt :
          (step : ChainStep js) (o : Option (Draft js))
          → IfBuilt hosts (build_of js web inherited parse_url jar step o)
      unfolding build_of
      build_of-IfBuilt step none = tt
      build_of-IfBuilt step (some d) = complete-IfBuilt step d d.missing

  abbrev pub also : Option Text → List Text → List Text
  also none hosts = hosts
  also (some host) hosts = host ∷ hosts

  -- Each request of the list, in order.
  abbrev pub Carries : List Text → List (Exchange js) → Type 0
  Carries hosts [] = Unit
  Carries hosts (x ∷ xs) = CarriesOnly hosts x.request × Carries (also x.response_host hosts) xs

  module _ (run_id : ℕ) (check : ChainCheck js) (start : ℕ) where
    Jar-IsJar :
        (hosts : List Text) (i : ℕ) (step : ChainStep js) (s : ChainState js) (o : Option Text)
        (jar : List StoredCookie)
        → IsJar web.lower hosts s.cookies
        → Jar js world run_id check start i step s o jar
        → IsJar web.lower (also o hosts) jar
    Jar-IsJar hosts i step s none jar h k = subst (IsJar web.lower hosts) (sym k) h
    Jar-IsJar hosts i step s (some host) jar h k =
        subst (IsJar web.lower (host ∷ hosts)) (sym k.1) (
          store_cookies-IsJar web.lower host hosts k.0 s.cookies
            (weaken-IsJar web.lower host hosts s.cookies h))

    module _ (i : ℕ) (step : ChainStep js) (s s' : ChainState js) (sent : List (Exchange js)) where
      built_request :
          (hosts : List Text)
          → IsJar web.lower hosts s.cookies
          → IfBuilt hosts (build_request js web inherited parse_url s.vars s.cookies step)
      unfolding build_request
      built_request hosts h = build_of-IfBuilt hosts s.cookies h step _

      -- The requests of a step, and then those after it.
      Progress-Carries :
          (hosts : List Text) (rest : List (Exchange js))
          → IsJar web.lower hosts s.cookies
          → Progress js world run_id check start i step s s' sent
          → ((hosts' : List Text) → IsJar web.lower hosts' s'.cookies → Carries hosts' rest)
          → Carries hosts (sent ++ rest)
      Progress-Carries hosts rest h (inl p) next =
          rw (p.0) (next hosts (subst (IsJar web.lower hosts) (sym (p.1)) h))
      Progress-Carries hosts rest h (inr p) next = rw p.one (
        subst (IfBuilt hosts) p.was_built (built_request hosts h),
        next (also p.host hosts) (Jar-IsJar hosts i step s p.host s'.cookies h p.jar),
      )

    run_steps-Carries :
        (i : ℕ) (steps : List (ChainStep js)) (s : ChainState js) (hosts : List Text)
        → IsJar web.lower hosts s.cookies
        → Carries hosts (run_steps js world run_id check start i steps s).sent
    unfolding run_steps pass_step stop
    run_steps-Carries i [] s hosts h = tt
    run_steps-Carries i (step ∷ steps) s hosts h =
        elim (run_step_lem js world run_id check start i step s
          (run_steps js world run_id check start (suc i) steps)) [
            | inl p ↦ rw p.same (
                Progress-Carries i step s p.state p.sent hosts _ h p.progress
                  (run_steps-Carries (suc i) steps p.state))
            | inr p ↦ rw p.same (
                subst (Carries hosts) (append-nil p.sent)
                  (Progress-Carries i step s p.state p.sent hosts [] h p.progress (λ hosts' k. tt)))
          ]

-- No cookie leaks: whatever the network answers, each cookie that a request of a chain carries was set by a
-- host that has answered an earlier request of the chain, and that host is the request's own, or the two
-- belong to one domain, not empty, that the cookie is scoped to; and a secure cookie is only carried over
-- https.
pub run_multistep_chain-Carries :
    (js : JsValues) (world : Surroundings js) (run_id : ℕ) (check : ChainCheck js) (start : ℕ)
    → Carries js world [] (run_multistep_chain js world run_id check start).sent
unfolding run_multistep_chain run_chain
run_multistep_chain-Carries js world run_id check start = chain check.steps
  where
    chain :
        (steps : List (ChainStep js))
        → Carries js world [] (run_chain js world run_id check start steps).sent
    chain [] = tt
    chain (step ∷ steps) = run_steps-Carries js world run_id check start 0 (step ∷ steps) _ [] tt
