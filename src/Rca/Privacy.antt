-- ===== src/Rca/Privacy.antt =====
-- What the analysis of runner/rca.ts does not see of a sensitive check.
use synthwatch.Prelude.{
  ℕ, zero, suc, ◌≡◌, refl, sym, ap, ◌∙◌, Option, none, some, Bool, true, false, List, [], ◌∷◌, map,
  filter, take, length, if◌then◌else◌,
}
use synthwatch.Text.{Text}
use synthwatch.Types.{Kind}
use synthwatch.Rca.Facts.{
  ConsoleMessage, StepFact, RcaFacts, first_party_console_of, third_party_count_of, console_fact,
  first_party_console_cap, is_first_party_error, is_third_party_error,
}
use synthwatch.Rca.{
  RcaRow, RcaInput, Gathered, ModelAnswer, context_downloads, rca_screenshot_urls, after_cache,
  analyse, run_rca, cache_lookup,
}
use synthwatch.Rca.Result.{RcaResult}
use synthwatch.Rca.Failure.{signature_of}
use synthwatch.Rca.Gather.{
  TraceSignals, FailedRun, messages_of, failed_of, gather_facts, run_rca_on,
}

-- Each message of the console, with any other text.
abbrev pub reword : (ConsoleMessage → Text) → ConsoleMessage → ConsoleMessage
reword f m = record m { text = f m }

abbrev pub reword_signals : (ConsoleMessage → Text) → Option TraceSignals → Option TraceSignals
reword_signals f none = none
reword_signals f (some ts) = some (record ts { messages = map (reword f) ts.messages })

-- The run, as if the page had written and shown something else.
abbrev pub disguise : (ConsoleMessage → Text) → Option Text → FailedRun → FailedRun
disguise f screenshot run = record run {
  screenshot_url = screenshot;
  trace_signals = reword_signals f run.trace_signals;
}

console-reword :
    (f : ConsoleMessage → Text) (n : ℕ) (ms : List ConsoleMessage)
    → map (console_fact true) (take n (filter is_first_party_error (map (reword f) ms)))
      ≡ map (console_fact true) (take n (filter is_first_party_error ms))
console-reword f zero ms = refl
console-reword f (suc n) [] = refl
console-reword f (suc n) (m ∷ ms) =
    choose (is_first_party_error m) (console-reword f n ms) (console-reword f (suc n) ms)
  where
    choose :
        (b : Bool)
        → map (console_fact true) (take n (filter is_first_party_error (map (reword f) ms)))
          ≡ map (console_fact true) (take n (filter is_first_party_error ms))
        → map (console_fact true) (take (suc n) (filter is_first_party_error (map (reword f) ms)))
          ≡ map (console_fact true) (take (suc n) (filter is_first_party_error ms))
        → map (console_fact true) (
            take (suc n) (
              if b
              then reword f m ∷ filter is_first_party_error (map (reword f) ms)
              else filter is_first_party_error (map (reword f) ms)))
          ≡ map (console_fact true) (
              take
                (suc n)
                (if b then m ∷ filter is_first_party_error ms else filter is_first_party_error ms))
    choose true e k = ap (λ fs. console_fact true m ∷ fs) e
    choose false e k = k

count-reword :
    (f : ConsoleMessage → Text) (ms : List ConsoleMessage)
    → length (filter is_third_party_error (map (reword f) ms))
      ≡ length (filter is_third_party_error ms)
count-reword f [] = refl
count-reword f (m ∷ ms) = choose (is_third_party_error m) (count-reword f ms)
  where
    choose :
        (b : Bool)
        → length (filter is_third_party_error (map (reword f) ms))
          ≡ length (filter is_third_party_error ms)
        → length (
            if b
            then reword f m ∷ filter is_third_party_error (map (reword f) ms)
            else filter is_third_party_error (map (reword f) ms))
          ≡ length
              (if b then m ∷ filter is_third_party_error ms else filter is_third_party_error ms)
    choose true e = ap suc e
    choose false e = e

messages-reword :
    (f : ConsoleMessage → Text) (o : Option TraceSignals)
    → messages_of (reword_signals f o) ≡ map (reword f) (messages_of o)
messages-reword f none = refl
messages-reword f (some ts) = refl

failed-reword :
    (f : ConsoleMessage → Text) (o : Option TraceSignals)
    → failed_of (reword_signals f o) ≡ failed_of o
failed-reword f none = refl
failed-reword f (some ts) = refl

-- The facts of a sensitive check do not depend on the texts of the console.
facts-disguise :
    (host_of_url : Text → Text) (kind : Kind) (input : RcaInput) (run : FailedRun)
    (steps : List StepFact) (recent : List Text) (f : ConsoleMessage → Text)
    (screenshot baseline : Option Text)
    → input.sensitive ≡ true
    → (gather_facts host_of_url kind
        (record input { baseline_screenshot_url = baseline })
        (disguise f screenshot run)
        steps
        recent).facts
      ≡ (gather_facts host_of_url kind input run steps recent).facts
unfolding gather_facts first_party_console_of third_party_count_of
facts-disguise host_of_url kind input run steps recent f screenshot baseline h =
    let ms = messages_of run.trace_signals in
    rw
      (
        h,
        messages-reword f run.trace_signals,
        failed-reword f run.trace_signals,
        console-reword f first_party_console_cap ms,
        count-reword f ms,
      )
      refl

-- Without screenshots a result depends on the facts alone.
after_cache-facts :
    (infra_sentences : List Text) (input : RcaInput) (signature : Text) (hit : Option RcaResult)
    (facts : RcaFacts) (screenshot screenshot' baseline : Option Text)
    (answer : Option (Option ModelAnswer))
    → input.sensitive ≡ true
    → after_cache infra_sentences
        (record input { baseline_screenshot_url = baseline })
        signature
        hit
        (some (record { facts = facts; screenshot_url = screenshot' }))
        answer
      ≡ after_cache infra_sentences input signature hit
          (some (record { facts = facts; screenshot_url = screenshot }))
          answer
unfolding after_cache analyse context_downloads rca_screenshot_urls
after_cache-facts sentences input signature (some c) facts s s' b answer h = refl
after_cache-facts sentences input signature none facts s s' b answer h = rw h refl

no_downloads :
    (input : RcaInput) (g : Gathered) → input.sensitive ≡ true → context_downloads input g ≡ []
unfolding context_downloads rca_screenshot_urls
no_downloads input g h = rw h refl

run_rca_on-facts :
    (infra_sentences : List Text) (model : RcaFacts → List Text → Option (Option ModelAnswer))
    (enabled : Bool) (rows : List RcaRow) (since : ℕ) (input : RcaInput) (facts : RcaFacts)
    (screenshot screenshot' baseline : Option Text)
    → input.sensitive ≡ true
    → run_rca_on infra_sentences model enabled rows since
        (record input { baseline_screenshot_url = baseline })
        (record { facts = facts; screenshot_url = screenshot' })
      ≡ run_rca_on infra_sentences model enabled rows since input
          (record { facts = facts; screenshot_url = screenshot })
unfolding run_rca_on run_rca
run_rca_on-facts sentences model false rows since input facts s s' b h = refl
run_rca_on-facts sentences model true rows since input facts s s' b h =
    let signature = signature_of input.check_id_text input.error_message input.failed_step in
    let hit = cache_lookup rows since input.check_id signature in
    let input' : RcaInput = record input { baseline_screenshot_url = b } in
    let g : Gathered = record { facts = facts; screenshot_url = s } in
    let g' : Gathered = record { facts = facts; screenshot_url = s' } in
    ap (λ urls. after_cache sentences input' signature hit (some g') (model facts urls))
      (no_downloads input' g' h)
    ∙ after_cache-facts sentences input signature hit facts s s' b (model facts []) h
    ∙ ap (λ urls. after_cache sentences input signature hit (some g) (model facts urls))
        (sym (no_downloads input g h))

-- Privacy: for a sensitive check the analysis does not depend on what the page wrote to its console, nor on a
-- screenshot. Whatever the tables hold and whatever the model makes of what it is sent, another text of each
-- message, another screenshot of the failure and another baseline give the same result and the same downloads.
pub run_rca_on_sensitive :
    (host_of_url : Text → Text) (infra_sentences : List Text)
    (model : RcaFacts → List Text → Option (Option ModelAnswer)) (enabled : Bool)
    (rows : List RcaRow) (since : ℕ) (kind : Kind) (input : RcaInput) (run : FailedRun)
    (steps : List StepFact) (recent : List Text) (f : ConsoleMessage → Text)
    (screenshot baseline : Option Text)
    → input.sensitive ≡ true
    → let input' : RcaInput = record input { baseline_screenshot_url = baseline } in
      run_rca_on infra_sentences model enabled rows since input'
        (gather_facts host_of_url kind input' (disguise f screenshot run) steps recent)
      ≡ run_rca_on infra_sentences model enabled rows since input
          (gather_facts host_of_url kind input run steps recent)
unfolding gather_facts
run_rca_on_sensitive host sentences model enabled rows since kind input run steps recent f s b h =
    ap
      (λ facts.
        run_rca_on sentences model enabled rows since (record input { baseline_screenshot_url = b })
          (record { facts = facts; screenshot_url = s }))
      (facts-disguise host kind input run steps recent f s b h)
    ∙ run_rca_on-facts sentences model enabled rows since input
        (gather_facts host kind input run steps recent).facts run.screenshot_url s b h
