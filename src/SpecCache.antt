-- ===== src/SpecCache.antt =====
-- runner/specfetch/specCache.ts: a compiled spec, with graceful degradation. The injected
-- dependencies (the conditional fetch, the compiler, the hash) are the parameters; the store is the
-- table `spec_cache` as pgSpecCacheStore writes it. The compiler's second argument, the
-- file's name for its messages, is left out. The two fetches of one resolution are told apart
-- by their number, since the remote side may change between them.
pub mod Fallback
pub mod Probe
use synthwatch.Prelude.{ℕ, String, Option, none, some, [], if◌then◌else◌, str_eq}
use synthwatch.SpecPath.{is_valid_spec_path}

-- A row of `spec_cache`.
pub record SpecCacheRow : Type 0 where
  pub spec_path : String
  pub etag : Option String
  pub source_sha : Option String
  pub compiled_js : String
  pub fetched_at : ℕ
  pub last_good_compiled_js : Option String
  pub last_good_at : Option ℕ

pub record SpecCacheUpsert : Type 0 where
  pub spec_path : String
  pub etag : Option String
  pub source_sha : String
  pub compiled_js : String

-- A thrown error carries its message.
pub data ConditionalFetch : Type 0 where
  unchanged : ConditionalFetch
  fetched : String → Option String → ConditionalFetch
  fetch_threw : String → ConditionalFetch

pub data Compiled : Type 0 where
  compiled : String → Compiled
  compile_threw : String → Compiled

pub data SpecOrigin : Type 0 where
  compiled_200 cache_304 fallback_last_good : SpecOrigin

-- Why a spec could not be obtained, by the step that failed.
pub data Why : Type 0 where
  fetch_failed refetch_failed compile_failed : String → Why
  still_304 : Why

pub data SpecResolution : Type 0 where
  runnable : String → SpecOrigin → Option String → Option ℕ → SpecResolution
  infra_error : Why → SpecResolution

pub data SpecProbe : Type 0 where
  probe_runnable : SpecProbe
  not_runnable : Why → SpecProbe

-- `spec_cache`, by its primary key.
abbrev pub Store : Type 0
Store = String → Option SpecCacheRow

pub record Deps : Type 0 where
  pub fetcher : ℕ → String → Option String → ConditionalFetch
  pub compile : String → Compiled
  pub hash : String → String

-- `pgSpecCacheStore.upsert`: the fresh compile becomes the last-known-good too.
pub upsert : ℕ → SpecCacheUpsert → Store → Store
upsert now row store path =
    if str_eq path row.spec_path
    then some (record {
      spec_path = row.spec_path;
      etag = row.etag;
      source_sha = some row.source_sha;
      compiled_js = row.compiled_js;
      fetched_at = now;
      last_good_compiled_js = some row.compiled_js;
      last_good_at = some now;
    })
    else store path

-- `existing?.last_good_compiled_js` as a condition: the empty text is falsy.
pub last_good : Option SpecCacheRow → Option String
last_good none = none
last_good (some row) = elim row.last_good_compiled_js [
  | none ↦ none
  | some js ↦ if str_eq js "" then none else some js
]

abbrev pub row_etag : Option SpecCacheRow → Option String
row_etag none = none
row_etag (some row) = row.etag

abbrev pub row_last_good_at : Option SpecCacheRow → Option ℕ
row_last_good_at none = none
row_last_good_at (some row) = row.last_good_at

-- `degradeOrInfraError`
pub degrade_or_infra_error : Option SpecCacheRow → Why → SpecResolution
degrade_or_infra_error existing why = elim (last_good existing) [
  | none ↦ infra_error why
  | some js ↦ runnable js fallback_last_good (row_etag existing) (row_last_good_at existing)
]

module _ (deps : Deps) (now : ℕ) (path : String) where
  abbrev pub fresh_row : String → Option String → String → SpecCacheUpsert
  fresh_row source etag js = record {
    spec_path = path;
    etag = etag;
    source_sha = deps.hash source;
    compiled_js = js;
  }

  pub after_compile :
      Option SpecCacheRow → String → Option String → Store → Compiled → Store × SpecResolution
  after_compile existing source etag store (compile_threw e) =
      (store, degrade_or_infra_error existing (compile_failed e))
  after_compile existing source etag store (compiled js) =
      (upsert now (fresh_row source etag js) store, runnable js compiled_200 etag (some now))

  -- The 200 branch: compile, then persist.
  pub compile_and_store :
      Option SpecCacheRow → String → Option String → Store → Store × SpecResolution
  compile_and_store existing source etag store =
      after_compile existing source etag store (deps.compile source)

  -- The answer of the forced unconditional fetch.
  pub after_refetch : Option SpecCacheRow → ConditionalFetch → Store → Store × SpecResolution
  after_refetch existing (fetch_threw e) store =
      (store, degrade_or_infra_error existing (refetch_failed e))
  after_refetch existing unchanged store = (store, degrade_or_infra_error existing still_304)
  after_refetch existing (fetched source etag) store = compile_and_store existing source etag store

  -- The answer of the conditional fetch.
  pub after_fetch : Option SpecCacheRow → ConditionalFetch → Store → Store × SpecResolution
  after_fetch existing (fetch_threw e) store =
      (store, degrade_or_infra_error existing (fetch_failed e))
  after_fetch (some row) unchanged store =
      (store, runnable row.compiled_js cache_304 row.etag (some row.fetched_at))
  after_fetch none unchanged store = after_refetch none (deps.fetcher 1 path none) store
  after_fetch existing (fetched source etag) store = compile_and_store existing source etag store

  -- `getCompiledSpec`; `none` is the throw of assertValidSpecPath.
  pub get_compiled_spec : Store → Option (Store × SpecResolution)
  get_compiled_spec store =
      if is_valid_spec_path path
      then some (after_fetch (store path) (deps.fetcher 0 path (row_etag (store path))) store)
      else none

  pub probe_compiled : String → Option String → Store → Compiled → Store × SpecProbe
  probe_compiled source etag store (compile_threw e) = (store, not_runnable (compile_failed e))
  probe_compiled source etag store (compiled js) =
      (upsert now (fresh_row source etag js) store, probe_runnable)

  pub probe_compile : String → Option String → Store → Store × SpecProbe
  probe_compile source etag store = probe_compiled source etag store (deps.compile source)

  pub probe_refetch : ConditionalFetch → Store → Store × SpecProbe
  probe_refetch (fetch_threw e) store = (store, not_runnable (refetch_failed e))
  probe_refetch unchanged store = (store, not_runnable still_304)
  probe_refetch (fetched source etag) store = probe_compile source etag store

  pub probe_fetch : Option SpecCacheRow → ConditionalFetch → Store → Store × SpecProbe
  probe_fetch existing (fetch_threw e) store = (store, not_runnable (fetch_failed e))
  probe_fetch (some row) unchanged store = (store, probe_runnable)
  probe_fetch none unchanged store = probe_refetch (deps.fetcher 1 path none) store
  probe_fetch existing (fetched source etag) store = probe_compile source etag store

  -- `probeSpec`; `none` is the throw of assertValidSpecPath.
  pub probe_spec : Store → Option (Store × SpecProbe)
  probe_spec store =
      if is_valid_spec_path path
      then some (probe_fetch (store path) (deps.fetcher 0 path (row_etag (store path))) store)
      else none

-- What a run of the model computes with.
unfoldable pub spec_cache_code : Unit {0}
unfolding get_compiled_spec after_fetch after_refetch compile_and_store after_compile
    degrade_or_infra_error last_good upsert probe_spec probe_fetch probe_refetch probe_compile
    probe_compiled is_valid_spec_path
spec_cache_code = tt
