-- ===== src/SpecCache/Probe.antt =====
-- The orphan probe of runner/specfetch/specCache.ts against the runtime resolution.
use synthwatch.Prelude.{
  ℕ, String, Option, none, some, Bool, true, false, ◌≡◌, refl, arith, Bool-cases, inl, inr, subst,
  some_inj,
}
use synthwatch.SpecPath.{is_valid_spec_path}
use synthwatch.SpecCache.{
  SpecCacheRow, ConditionalFetch, unchanged, fetched, fetch_threw, Compiled, compiled,
  compile_threw, compiled_200, cache_304, fallback_last_good, Why, fetch_failed, refetch_failed,
  compile_failed, still_304, SpecResolution, runnable, infra_error, SpecProbe, probe_runnable,
  not_runnable, Store, Deps, row_etag, degrade_or_infra_error, after_compile, compile_and_store,
  after_refetch, after_fetch, get_compiled_spec, probe_compiled, probe_compile, probe_refetch,
  probe_fetch, probe_spec,
}

-- The current source of the spec runs: neither a fallback nor an infra error.
abbrev pub is_current : SpecResolution → Bool
is_current (runnable _ compiled_200 _ _) = true
is_current (runnable _ cache_304 _ _) = true
is_current (runnable _ fallback_last_good _ _) = false
is_current (infra_error _) = false

abbrev pub is_runnable : SpecProbe → Bool
is_runnable probe_runnable = true
is_runnable (not_runnable _) = false

-- The two outcomes agree, and so do the two stores.
abbrev Agree : Store × SpecProbe → Store × SpecResolution → Type 0
Agree p r = (p.0 ≡ r.0) × (is_runnable p.1 ≡ is_current r.1)

degrade_not_current :
    (existing : Option SpecCacheRow) (why : Why)
    → false ≡ is_current (degrade_or_infra_error existing why)
unfolding degrade_or_infra_error
degrade_not_current existing why = ground arith

module _ (deps : Deps) (now : ℕ) (path : String) where
  compile-Agree :
      (existing : Option SpecCacheRow) (source : String) (etag : Option String) (store : Store)
      (c : Compiled)
      → Agree
          (probe_compiled deps now path source etag store c)
          (after_compile deps now path existing source etag store c)
  unfolding probe_compiled after_compile
  compile-Agree existing source etag store (compiled js) = (refl, refl)
  compile-Agree existing source etag store (compile_threw e) =
      (refl, degrade_not_current existing (compile_failed e))

  refetch-Agree :
      (existing : Option SpecCacheRow) (f : ConditionalFetch) (store : Store)
      → Agree (probe_refetch deps now path f store) (after_refetch deps now path existing f store)
  unfolding probe_refetch after_refetch probe_compile compile_and_store
  refetch-Agree existing (fetch_threw e) store =
      (refl, degrade_not_current existing (refetch_failed e))
  refetch-Agree existing unchanged store = (refl, degrade_not_current existing still_304)
  refetch-Agree existing (fetched source etag) store =
      compile-Agree existing source etag store (deps.compile source)

  fetch-Agree :
      (existing : Option SpecCacheRow) (f : ConditionalFetch) (store : Store)
      → Agree
          (probe_fetch deps now path existing f store)
          (after_fetch deps now path existing f store)
  unfolding probe_fetch after_fetch probe_compile compile_and_store
  fetch-Agree existing (fetch_threw e) store = (refl, degrade_not_current existing (fetch_failed e))
  fetch-Agree (some row) unchanged store = (refl, refl)
  fetch-Agree none unchanged store = refetch-Agree none (deps.fetcher 1 path none) store
  fetch-Agree existing (fetched source etag) store =
      compile-Agree existing source etag store (deps.compile source)

  -- Against the same answers the probe and the runtime resolution leave the same store, and the probe
  -- says runnable exactly when the resolution runs the current source, not a fallback.
  pub probe_spec_agrees :
      (store : Store) {p : Store × SpecProbe} {r : Store × SpecResolution}
      → probe_spec deps now path store ≡ some p
      → get_compiled_spec deps now path store ≡ some r
      → (p.0 ≡ r.0) × (is_runnable p.1 ≡ is_current r.1)
  unfolding probe_spec get_compiled_spec
  probe_spec_agrees store {p} {r} e e' = elim (Bool-cases (is_valid_spec_path path)) [
    | inl y ↦
        let f = deps.fetcher 0 path (row_etag (store path)) in
        let same_p : probe_fetch deps now path (store path) f store ≡ p = some_inj (rw y at e) in
        let same_r : after_fetch deps now path (store path) f store ≡ r = some_inj (rw y at e') in
        subst (λ q. Agree q r) same_p
          (subst (λ q. Agree (probe_fetch deps now path (store path) f store) q) same_r
            (fetch-Agree (store path) f store))
    | inr n ↦ absurd (ground (arith, n, e))
  ]
