-- ===== src/Rca/Grounded.antt =====
-- What a result of runner/rca.ts rests on, and what is sent for it.
use synthwatch.Prelude.{
  ℕ, Option, none, some, Bool, true, false, List, [], ◌∷◌, ◌≡◌, ◌⊎◌, inl, inr, All, map, refl,
  if-elim, not, take,
}
use synthwatch.Text.{Text}
use synthwatch.Rca.Result.{
  Classification, low, RcaResult, said, fact, evidence_thin, deterministic_result, fact_tokens,
  infra_deterministic_result,
}
use synthwatch.Rca.Runner.{is_deterministic_infra_error}
use synthwatch.Rca.Facts.{RcaFacts, cite_index}
use synthwatch.Rca.{
  RcaRow, RcaInput, RcaRun, Gathered, ModelAnswer, parse_result, sentences_of, check_cites,
  judge_answer, cache_lookup, analyse, after_cache, run_rca,
}
use synthwatch.Rca.Cites.{Violation, validate_cites}
use synthwatch.Rca.Failure.{signature_of}
use synthwatch.Rca.Resolved.{IsResolved, validate_cites-IsResolved}

-- The facts alone, with no cause.
abbrev pub IsFactsOnly : RcaFacts → RcaResult → Type 0
IsFactsOnly f r = (r.observed ≡ map fact (fact_tokens f)) × (r.inferred ≡ []) × (r.confidence ≡ low)

-- The sentences of the model, each of them resolved.
abbrev pub IsGrounded : RcaFacts → List Text → RcaResult → Type 0
IsGrounded f sentences r =
    (r.observed ≡ map said sentences) × All (IsResolved (cite_index f)) sentences

abbrev pub IfGiven : (RcaResult → Type 0) → Option RcaResult → Type 0
IfGiven P none = Unit {0}
IfGiven P (some r) = P r

deterministic_result-IsFactsOnly :
    (f : RcaFacts) (signature : Text) → IsFactsOnly f (deterministic_result f signature)
unfolding deterministic_result
deterministic_result-IsFactsOnly f signature = (refl, refl, refl)

check_cites_lem :
    (f : RcaFacts) (signature : Text) (sentences : List Text) (r : RcaResult)
    → r.observed ≡ map said sentences
    → IsFactsOnly f (check_cites f signature sentences r)
      ⊎ IsGrounded f sentences (check_cites f signature sentences r)
unfolding check_cites
check_cites_lem f signature sentences r h = go (validate_cites sentences (cite_index f)) refl
  where
    go :
        (vs : List Violation)
        → validate_cites sentences (cite_index f) ≡ vs
        → (let x : RcaResult = elim vs [ [] ↦ r | _ ∷ _ ↦ deterministic_result f signature ] in
            IsFactsOnly f x ⊎ IsGrounded f sentences x)
    go [] e = inr (h, validate_cites-IsResolved (cite_index f) sentences e)
    go (v ∷ vs) e = inl (deterministic_result-IsFactsOnly f signature)

-- What an uncached result of a check whose error is not the runner's rests on.
abbrev pub RestsOn : Option Gathered → Option (Option ModelAnswer) → RcaResult → Type 0
RestsOn none answer r = ⊥
RestsOn (some g) none r = IsFactsOnly g.facts r
RestsOn (some g) (some a) r = IsFactsOnly g.facts r ⊎ IsGrounded g.facts (sentences_of a) r

parse_result-observed :
    (a : Option ModelAnswer) (signature : Text)
    → IfGiven (λ r. r.observed ≡ map said (sentences_of a)) (parse_result a signature)
unfolding parse_result
parse_result-observed none signature = tt
parse_result-observed (some a) signature = go a.classification a.confidence
  where
    go :
        (cl : Option Classification) (co : Option _)
        → IfGiven
            (λ r. r.observed ≡ map said (take 6 a.observed))
            (elim cl [
              | none ↦ none
              | some cl ↦ elim co [
                | none ↦ none
                | some co ↦ some (record {
                  classification = cl;
                  confidence = co;
                  observed = map said (take 6 a.observed);
                  inferred = take 6 a.inferred;
                  signature = signature;
                  from_model = true;
                  cached = false;
                })
              ]
            ])
    go none co = tt
    go (some cl) none = tt
    go (some cl) (some co) = refl

judge_answer-RestsOn :
    (g : Gathered) (signature : Text) (a : Option ModelAnswer) (o : Option RcaResult)
    → IfGiven (λ r. r.observed ≡ map said (sentences_of a)) o
    → IfGiven (RestsOn (some g) (some a)) (judge_answer g.facts signature a o)
unfolding judge_answer
judge_answer-RestsOn g signature a none h = tt
judge_answer-RestsOn g signature a (some r) h =
    check_cites_lem g.facts signature (sentences_of a) r h

module _ (infra_sentences : List Text) (input : RcaInput) (signature : Text) where
  analyse-RestsOn :
      (gathered : Option Gathered) (answer : Option (Option ModelAnswer))
      → IfGiven
          (RestsOn gathered answer)
          (analyse infra_sentences input signature gathered answer).result
  unfolding analyse
  analyse-RestsOn none answer = tt
  analyse-RestsOn (some g) none =
      if-elim (IfGiven (RestsOn (some g) none)) (evidence_thin g.facts) _ none
        (λ e. deterministic_result-IsFactsOnly g.facts signature) (λ e. tt)
  analyse-RestsOn (some g) (some a) =
      if-elim (IfGiven (RestsOn (some g) (some a))) (evidence_thin g.facts)
        (some (deterministic_result g.facts signature))
        (judge_answer g.facts signature a (parse_result a signature))
        (λ e. inl (deterministic_result-IsFactsOnly g.facts signature))
        (λ e. judge_answer-RestsOn g signature a _ (parse_result-observed a signature))

  -- From the cache, of the runner's own failure, or on the facts of this failure.
  abbrev pub Rests : Option Gathered → Option (Option ModelAnswer) → RcaResult → Type 0
  Rests gathered answer r =
      (r.cached ≡ true)
      ⊎ (((is_deterministic_infra_error input.error_message ≡ true)
            × (r ≡ infra_deterministic_result input.error_message infra_sentences signature))
          ⊎ RestsOn gathered answer r)

  widen :
      (gathered : Option Gathered) (answer : Option (Option ModelAnswer)) (o : Option RcaResult)
      → IfGiven (RestsOn gathered answer) o
      → IfGiven (Rests gathered answer) o
  widen gathered answer none h = tt
  widen gathered answer (some r) h = inr (inr h)

  after_cache-Rests :
      (hit : Option RcaResult) (gathered : Option Gathered) (answer : Option (Option ModelAnswer))
      → IfGiven
          (Rests gathered answer)
          (after_cache infra_sentences input signature hit gathered answer).result
  unfolding after_cache
  after_cache-Rests (some c) gathered answer = inl refl
  after_cache-Rests none gathered answer =
      if-elim (λ (x : RcaRun). IfGiven (Rests gathered answer) x.result)
        (is_deterministic_infra_error input.error_message) _
        (analyse infra_sentences input signature gathered answer) (λ e. inr (inl (e, refl)))
        (λ e. widen gathered answer _ (analyse-RestsOn gathered answer))

-- No invented evidence: whatever the model answers and the tables hold, a result of the analysis is one of
-- the cache, or the fixed one of a failure of the runner itself, or it rests on the facts that were gathered
-- for this failure: it is either facts alone, with no inferred cause and low confidence, or it observes the
-- sentences of the model, each of which cites at least one token and only tokens of the closed set of these
-- facts.
pub run_rca-Rests :
    (infra_sentences : List Text) (enabled : Bool) (rows : List RcaRow) (since : ℕ)
    (input : RcaInput) (gathered : Option Gathered) (answer : Option (Option ModelAnswer))
    → IfGiven
        (Rests infra_sentences input
          (signature_of input.check_id_text input.error_message input.failed_step)
          gathered
          answer)
        (run_rca infra_sentences enabled rows since input gathered answer).result
unfolding run_rca
run_rca-Rests sentences enabled rows since input gathered answer =
    let signature = signature_of input.check_id_text input.error_message input.failed_step in
    if-elim (λ (x : RcaRun). IfGiven (Rests sentences input signature gathered answer) x.result)
      (not enabled) (record { result = none; downloads = [] })
      (after_cache sentences input signature (cache_lookup rows since input.check_id signature)
        gathered answer)
      (λ e. tt) (λ e. after_cache-Rests sentences input signature _ gathered answer)
