-- ===== src/Tests/Specs.antt =====
-- The theorems on runner/specfetch/specCache.ts at a fetch that fails and at one that compiles.
use synthwatch.Prelude.{
  String, none, some, true, false, ◌≡◌, ◌≢◌, refl, if◌then◌else◌, str_eq, eq_iff, ap, ◌∙◌,
}
use synthwatch.SpecCache.{
  fetched, fetch_threw, Compiled, compiled, compile_threw, Store, Deps, runnable, compiled_200,
  fallback_last_good, get_compiled_spec, probe_spec, last_good, upsert, fresh_row, spec_cache_code,
  probe_runnable,
}
use synthwatch.SpecCache.Fallback.{is_infra, get_compiled_spec_never_infra}

abbrev home : String
home = "monitors/home.spec.ts"

abbrev down_deps : Deps
down_deps = record {
  fetcher = λ k path etag. fetch_threw "offline";
  compile = λ source. compiled "js";
  hash = λ source. source;
}

abbrev up_deps : Deps
up_deps = record {
  fetcher = λ k path etag. fetched "source" (some "v2");
  compile = λ source. compiled "js";
  hash = λ source. source;
}

abbrev cached : Store
cached path =
    if str_eq path home
    then some (record {
      spec_path = home;
      etag = some "v1";
      source_sha = none;
      compiled_js = "old";
      fetched_at = 10;
      last_good_compiled_js = some "old";
      last_good_at = some 10;
    })
    else none

cached_text : last_good (cached home) ≡ some "old"
unfolding spec_cache_code
cached_text = refl

offline_home :
    get_compiled_spec down_deps 20 home cached
    ≡ some (cached, runnable "old" fallback_last_good (some "v1") (some 10))
unfolding spec_cache_code
offline_home = refl

get_compiled_spec_never_infra_example :
    is_infra (runnable "old" fallback_last_good (some "v1") (some 10)) ≡ false
get_compiled_spec_never_infra_example =
    get_compiled_spec_never_infra down_deps 20 home cached "old" cached_text offline_home

abbrev stored : Store
stored = upsert 20 (fresh_row up_deps 20 home "source" (some "v2") "js") cached

online_home :
    get_compiled_spec up_deps 20 home cached
    ≡ some (stored, runnable "js" compiled_200 (some "v2") (some 20))
unfolding spec_cache_code
online_home = refl

probed_home : probe_spec up_deps 20 home cached ≡ some (stored, probe_runnable)
unfolding spec_cache_code
probed_home = refl

js_of : Compiled → String
js_of (compiled js) = js
js_of (compile_threw e) = "js"

js_is_not_empty : (source x : String) → up_deps.compile source ≡ compiled x → x ≢ ""
unfolding js_of
js_is_not_empty source x e =
    λ z. let h : str_eq "js" "" ≡ true = (eq_iff "js" "").1 (ap js_of e ∙ z) in cc
