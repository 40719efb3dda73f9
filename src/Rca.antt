-- ===== src/Rca.antt =====
-- runner/rca.ts: the root-cause analysis of a failure that has opened an incident. The tables, the answer of
-- the model (after `JSON.parse`), the host of a URL and the two sentences on a failure of the runner are
-- arguments, and the query of the cache does not throw. A fact of a deterministic result stands for the
-- text that the source renders from it.
pub mod Facts
pub mod Cites
pub mod Result
pub mod Runner
pub mod Failure
pub mod Signature
pub mod Resolved
pub mod Grounded
pub mod Gather
pub mod Privacy
use synthwatch.Prelude.{
  ℕ, ◌+◌, Option, none, some, Bool, true, false, ◌&&◌, List, [], ◌∷◌, ◌++◌, if◌then◌else◌, leb, ltb,
  ◌==◌, not, take, map,
}
use synthwatch.SpecPath.{same_codes}
use synthwatch.Text.{Text}
use synthwatch.Rca.Facts.{RcaFacts, cite_index}
use synthwatch.Rca.Cites.{validate_cites}
use synthwatch.Rca.Result.{
  Classification, Confidence, said, RcaResult, evidence_thin, deterministic_result,
  infra_deterministic_result,
}
use synthwatch.Rca.Runner.{is_deterministic_infra_error}
use synthwatch.Rca.Failure.{signature_of}

-- `rcaScreenshotUrls`
unfoldable pub rca_screenshot_urls : Bool → Option Text → Option Text → Option Text × Option Text
rca_screenshot_urls sensitive failure_url baseline_url =
    if sensitive then (none, none) else (failure_url, baseline_url)

-- What the model has answered, read as JSON; an enumerated value off the list is `none`.
pub record ModelAnswer : Type 0 where
  pub classification : Option Classification
  pub confidence : Option Confidence
  pub observed : List Text
  pub inferred : List Text

-- `parseResult`; `none` for an answer that is no JSON.
unfoldable pub parse_result : Option ModelAnswer → Text → Option RcaResult
parse_result none signature = none
parse_result (some a) signature = elim a.classification [
  | none ↦ none
  | some cl ↦ elim a.confidence [
    | none ↦ none
    | some co ↦ some (record {
      classification = cl;
      confidence = co;
      observed = map said (take 6 a.observed);
      inferred = take 6 a.inferred;
      signature = signature;
      from_model = true;
      cached = false;
    })
  ]
]

-- The rows of `incidents` that the cache reads.
pub record RcaRow : Type 0 where
  pub check_id : ℕ
  pub opened_at : ℕ
  pub rca : Option RcaResult

abbrev newer : RcaRow → Option RcaRow → RcaRow
newer r none = r
newer r (some s) = if leb s.opened_at r.opened_at then r else s

is_cache_hit : ℕ → ℕ → Text → RcaRow → Bool
is_cache_hit since check_id signature r =
    r.check_id == check_id
    && (ltb since r.opened_at
        && elim r.rca [ none ↦ false | some x ↦ same_codes signature x.signature ])

latest : (RcaRow → Bool) → List RcaRow → Option RcaRow
latest p [] = none
latest p (r ∷ rows) = if p r then some (newer r (latest p rows)) else latest p rows

abbrev rca_of : Option RcaRow → Option RcaResult
rca_of none = none
rca_of (some r) = r.rca

-- `cacheLookup`, for what was opened since an instant.
unfoldable pub cache_lookup : List RcaRow → ℕ → ℕ → Text → Option RcaResult
unfolding is_cache_hit latest
cache_lookup rows since check_id signature =
    rca_of (latest (is_cache_hit since check_id signature) rows)

-- What a run of the analysis gives, with the downloads that it has tried.
pub record RcaRun : Type 0 where
  pub result : Option RcaResult
  pub downloads : List Text

-- The columns of the check, the run and its row that are read besides the facts.
pub record RcaInput : Type 0 where
  pub check_id : ℕ
  pub check_id_text : Text
  pub sensitive : Bool
  pub baseline_screenshot_url : Option Text
  pub error_message : Option Text
  pub failed_step : Option Text

-- The facts from the tables, and the failure screenshot of the run.
pub record Gathered : Type 0 where
  pub facts : RcaFacts
  pub screenshot_url : Option Text

abbrev listed : Option Text → List Text
listed none = []
listed (some u) = u ∷ []

-- `gatherContext`: the URLs that are downloaded.
unfoldable pub context_downloads : RcaInput → Gathered → List Text
unfolding rca_screenshot_urls
context_downloads input g =
    let urls = rca_screenshot_urls input.sensitive g.screenshot_url input.baseline_screenshot_url in
    listed urls.0 ++ listed urls.1

-- The facts-only fallback, for an answer that cites what is not there.
unfoldable pub check_cites : RcaFacts → Text → List Text → RcaResult → RcaResult
unfolding validate_cites deterministic_result cite_index
check_cites f signature observed result = elim (validate_cites observed (cite_index f)) [
  | [] ↦ result
  | _ ∷ _ ↦ deterministic_result f signature
]

-- The sentences of the model, which are those that its citations are checked for.
abbrev pub sentences_of : Option ModelAnswer → List Text
sentences_of none = []
sentences_of (some a) = take 6 a.observed

unfoldable pub judge_answer :
    RcaFacts → Text → Option ModelAnswer → Option RcaResult → Option RcaResult
unfolding check_cites
judge_answer f signature answer none = none
judge_answer f signature answer (some result) =
    some (check_cites f signature (sentences_of answer) result)

module _ (infra_sentences : List Text) where
  -- After the facts have been gathered, or an exception; `answer` is the model's, if it gave one.
  unfoldable pub analyse : RcaInput → Text → Option Gathered → Option (Option ModelAnswer) → RcaRun
  unfolding evidence_thin deterministic_result context_downloads judge_answer parse_result
  analyse input signature none answer = record { result = none; downloads = [] }
  analyse input signature (some g) answer = record {
    result =
        if evidence_thin g.facts
        then some (deterministic_result g.facts signature)
        else elim answer [
          | none ↦ none
          | some a ↦ judge_answer g.facts signature a (parse_result a signature)
        ];
    downloads = context_downloads input g;
  }

  -- After the look into the cache.
  unfoldable pub after_cache :
      RcaInput → Text → Option RcaResult → Option Gathered → Option (Option ModelAnswer) → RcaRun
  unfolding is_deterministic_infra_error infra_deterministic_result analyse
  after_cache input signature (some c) gathered answer = record {
    result = some (record c { cached = true });
    downloads = [];
  }
  after_cache input signature none gathered answer =
      if is_deterministic_infra_error input.error_message
      then record {
        result = some (infra_deterministic_result input.error_message infra_sentences signature);
        downloads = [];
      }
      else analyse input signature gathered answer

  -- `runRca`
  unfoldable pub run_rca :
      Bool → List RcaRow → ℕ → RcaInput → Option Gathered → Option (Option ModelAnswer) → RcaRun
  unfolding signature_of cache_lookup after_cache
  run_rca enabled rows since input gathered answer =
      let signature = signature_of input.check_id_text input.error_message input.failed_step in
      if not enabled
      then record { result = none; downloads = [] }
      else after_cache input signature (cache_lookup rows since input.check_id signature) gathered
          answer
