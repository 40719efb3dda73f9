-- ===== src/SpecCache/Fallback.antt =====
-- What a failure to fetch or to compile does in runner/specfetch/specCache.ts.
use synthwatch.Prelude.{
  ℕ, String, Option, none, some, Bool, true, false, ◌≡◌, ◌≢◌, ◌⊎◌, refl, arith, str_eq, eq_iff, inl,
  inr, Bool-cases, subst, some_inj, some_inj,
}
use synthwatch.SpecPath.{is_valid_spec_path}
use synthwatch.SpecCache.{
  fresh_row, SpecCacheRow, SpecCacheUpsert, ConditionalFetch, unchanged, fetched, fetch_threw,
  Compiled, compiled, compile_threw, compiled_200, fallback_last_good, Why, fetch_failed,
  refetch_failed, compile_failed, still_304, SpecResolution, runnable, infra_error, Store, Deps,
  upsert, last_good, row_etag, degrade_or_infra_error, compile_and_store, after_compile,
  after_refetch, after_fetch, get_compiled_spec,
}

abbrev pub is_infra : SpecResolution → Bool
is_infra (infra_error _) = true
is_infra (runnable _ _ _ _) = false

abbrev pub is_fallback : SpecResolution → Bool
is_fallback (runnable _ fallback_last_good _ _) = true
is_fallback _ = false

degrade_safe :
    (existing : Option SpecCacheRow) (why : Why) (js : String)
    → last_good existing ≡ some js
    → is_infra (degrade_or_infra_error existing why) ≡ false
unfolding degrade_or_infra_error
degrade_safe existing why js h = ground arith

module _ (deps : Deps) (now : ℕ) (path : String) where
  -- With a last-known-good in hand no branch of a resolution ends in an infra error.
  compile_and_store_safe :
      (existing : Option SpecCacheRow) (source : String) (etag : Option String) (store : Store)
      (js : String) (c : Compiled)
      → last_good existing ≡ some js
      → is_infra (after_compile deps now path existing source etag store c).1 ≡ false
  unfolding after_compile
  compile_and_store_safe existing source etag store js (compiled x) h = refl
  compile_and_store_safe existing source etag store js (compile_threw e) h =
      degrade_safe existing (compile_failed e) js h

  after_refetch_safe :
      (existing : Option SpecCacheRow) (f : ConditionalFetch) (store : Store) (js : String)
      → last_good existing ≡ some js
      → is_infra (after_refetch deps now path existing f store).1 ≡ false
  unfolding after_refetch compile_and_store
  after_refetch_safe existing (fetch_threw e) store js h =
      degrade_safe existing (refetch_failed e) js h
  after_refetch_safe existing unchanged store js h = degrade_safe existing still_304 js h
  after_refetch_safe existing (fetched source etag) store js h =
      compile_and_store_safe existing source etag store js (deps.compile source) h

  after_fetch_safe :
      (existing : Option SpecCacheRow) (f : ConditionalFetch) (store : Store) (js : String)
      → last_good existing ≡ some js
      → is_infra (after_fetch deps now path existing f store).1 ≡ false
  unfolding after_fetch compile_and_store
  after_fetch_safe existing (fetch_threw e) store js h = degrade_safe existing (fetch_failed e) js h
  after_fetch_safe (some row) unchanged store js h = refl
  after_fetch_safe none unchanged store js h = after_refetch_safe none _ store js h
  after_fetch_safe existing (fetched source etag) store js h =
      compile_and_store_safe existing source etag store js (deps.compile source) h

  -- With a last-known-good for the path, whatever the fetches and the compiler answer or throw, a
  -- resolution that passes the guard on the path is runnable.
  pub get_compiled_spec_never_infra :
      (store : Store) (js : String) {store' : Store} {r : SpecResolution}
      → last_good (store path) ≡ some js
      → get_compiled_spec deps now path store ≡ some (store', r)
      → is_infra r ≡ false
  unfolding get_compiled_spec
  get_compiled_spec_never_infra store js h e = ground (
    arith,
    after_fetch_safe (store path) (deps.fetcher 0 path (row_etag (store path))) store js h,
  )

  -- What a resolution leaves in the store at the path: the row as it was, or a fresh compile that is
  -- the last-known-good from now on.
  abbrev pub Kept : Store → Store → SpecResolution → Type 0
  Kept store store' r =
      (store' ≡ store)
      ⊎ ((source : String) × (etag : Option String) × (js : String) × (deps.compile source
            ≡ compiled js)
          × (r ≡ runnable js compiled_200 etag (some now))
          × (store' ≡ upsert now (fresh_row deps now path source etag js) store))

  compile_and_store-Kept :
      (existing : Option SpecCacheRow) (source : String) (etag : Option String) (store : Store)
      (c : Compiled)
      → deps.compile source ≡ c
      → let out = after_compile deps now path existing source etag store c in Kept store out.0 out.1
  unfolding after_compile
  compile_and_store-Kept existing source etag store (compiled js) e =
      inr (source, etag, js, e, refl, refl)
  compile_and_store-Kept existing source etag store (compile_threw x) e = inl refl

  after_refetch-Kept :
      (existing : Option SpecCacheRow) (f : ConditionalFetch) (store : Store)
      → let out = after_refetch deps now path existing f store in Kept store out.0 out.1
  unfolding after_refetch compile_and_store
  after_refetch-Kept existing (fetch_threw e) store = inl refl
  after_refetch-Kept existing unchanged store = inl refl
  after_refetch-Kept existing (fetched source etag) store =
      compile_and_store-Kept existing source etag store (deps.compile source) refl

  after_fetch-Kept :
      (existing : Option SpecCacheRow) (f : ConditionalFetch) (store : Store)
      → let out = after_fetch deps now path existing f store in Kept store out.0 out.1
  unfolding after_fetch compile_and_store
  after_fetch-Kept existing (fetch_threw e) store = inl refl
  after_fetch-Kept (some row) unchanged store = inl refl
  after_fetch-Kept none unchanged store = after_refetch-Kept none (deps.fetcher 1 path none) store
  after_fetch-Kept existing (fetched source etag) store =
      compile_and_store-Kept existing source etag store (deps.compile source) refl

  -- A resolution writes the store only when it returns a fresh compile, and then it writes that compile
  -- under the path; every other outcome leaves the whole store as it was.
  pub get_compiled_spec-Kept :
      (store : Store) {store' : Store} {r : SpecResolution}
      → get_compiled_spec deps now path store ≡ some (store', r)
      → Kept store store' r
  unfolding get_compiled_spec
  get_compiled_spec-Kept store {store'} {r} e = elim (Bool-cases (is_valid_spec_path path)) [
    | inl y ↦
        let out =
          after_fetch deps now path (store path) (deps.fetcher 0 path (row_etag (store path)))
            store in
        let same : out ≡ (store', r) = some_inj (rw y at e) in
        subst (λ (p : Store × SpecResolution). Kept store p.0 p.1) same
          (after_fetch-Kept (store path) (deps.fetcher 0 path (row_etag (store path))) store)
    | inr n ↦ absurd (ground (arith, n, e))
  ]

upsert-last_good :
    (now : ℕ) (row : SpecCacheUpsert) (store : Store) (path js : String)
    → row.compiled_js ≢ ""
    → last_good (store path) ≡ some js
    → (js' : String) × (last_good (upsert now row store path) ≡ some js')
unfolding upsert last_good
upsert-last_good now row store path js ne h = elim (Bool-cases (str_eq path row.spec_path)) [
  | inl e ↦ (row.compiled_js, ground (arith, e, eq_iff row.compiled_js ""))
  | inr e ↦ (js, ground (arith, e))
]

-- If no compile is empty, a resolution of any path never loses the last-known-good of a path.
pub get_compiled_spec-last_good :
    (deps : Deps) (now : ℕ) (path other js : String) (store : Store) {store' : Store}
    {r : SpecResolution}
    → ((source x : String) → deps.compile source ≡ compiled x → x ≢ "")
    → last_good (store other) ≡ some js
    → get_compiled_spec deps now path store ≡ some (store', r)
    → (js' : String) × (last_good (store' other) ≡ some js')
get_compiled_spec-last_good deps now path other js store {store'} {r} ne h e =
    elim (get_compiled_spec-Kept deps now path store e) [
      | inl same ↦ (js, rw same h)
      | inr (source, etag, x, c, res, up) ↦ rw up (
          upsert-last_good now (fresh_row deps now path source etag x) store other js
            (ne source x c) h)
    ]
