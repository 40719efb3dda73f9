-- ===== src/Rca/Facts.antt =====
-- The facts of a failure, of runner/rca.ts, and the closed set of what they let a sentence cite.
use synthwatch.Prelude.{
  ℕ, Option, none, some, Bool, true, false, ◌&&◌, List, [], ◌∷◌, ◌++◌, if◌then◌else◌, not, take,
  length, filter, map, is_some,
}
use synthwatch.SpecPath.{codes}
use synthwatch.Text.{Text}
use synthwatch.Types.{Kind}

-- A message of the console, as trace signals hold it.
pub record ConsoleMessage : Type 0 where
  pub is_site : Bool
  pub is_error_class : Bool
  pub source_host : Text
  pub text : Text

pub record ConsoleFact : Type 0 where
  pub source_host : Text
  pub text : Text

pub data StepStatus : Type 0 where
  step_pass step_fail step_error : StepStatus

pub record StepFact : Type 0 where
  pub name : Text
  pub status : StepStatus

-- FIRST_PARTY_CONSOLE_CAP and NET_FAILED_CAP
abbrev pub first_party_console_cap : ℕ
first_party_console_cap = 10

abbrev pub net_failed_cap : ℕ
net_failed_cap = 8

-- The fields of `RcaFacts` that the code reads.
pub record RcaFacts : Type 0 where
  pub kind : Kind
  pub http_status : Option ℕ
  pub duration_ms : Option ℕ
  pub failed_step : Option Text
  pub error_message : Option Text
  pub steps : List StepFact
  pub recent : List Text
  pub first_party_console : List ConsoleFact
  pub third_party_console_error_count : ℕ
  pub net_failed : List Text

abbrev pub console_fact : Bool → ConsoleMessage → ConsoleFact
console_fact sensitive m = record {
  source_host = m.source_host;
  text = if sensitive then [] else take 160 m.text;
}

abbrev pub is_first_party_error : ConsoleMessage → Bool
is_first_party_error m = m.is_site && m.is_error_class

abbrev pub is_third_party_error : ConsoleMessage → Bool
is_third_party_error m = not m.is_site && m.is_error_class

-- `extractTraceFacts`
unfoldable pub first_party_console_of : List ConsoleMessage → Bool → List ConsoleFact
first_party_console_of messages sensitive =
    map (console_fact sensitive)
      (take first_party_console_cap (filter is_first_party_error messages))

unfoldable pub third_party_count_of : List ConsoleMessage → ℕ
third_party_count_of messages = length (filter is_third_party_error messages)

unfoldable pub net_failed_of : (Text → Text) → List Text → List Text
net_failed_of host_of_url failed = map host_of_url (take net_failed_cap failed)

-- A value of JavaScript that is a string, as a condition.
abbrev pub is_given : Option Text → Bool
is_given none = false
is_given (some []) = false
is_given (some (_ ∷ _)) = true

abbrev pub is_cons {ℓ} : {A : Type ℓ} → List A → Bool
is_cons [] = false
is_cons (_ ∷ _) = true

abbrev pub only_if : Bool → Text → List Text
only_if true t = t ∷ []
only_if false t = []

abbrev hosts_cited : Text → List Text → List Text
hosts_cited prefix [] = []
hosts_cited prefix ([] ∷ hosts) = hosts_cited prefix hosts
hosts_cited prefix ((c ∷ host) ∷ hosts) = (prefix ++ c ∷ host) ∷ hosts_cited prefix hosts

abbrev pub console_host : ConsoleFact → Text
console_host f = f.source_host

-- The closed set of tokens of `renderFactPack`.
unfoldable pub cite_index : RcaFacts → List Text
cite_index f =
    codes "locations"
    ∷ (only_if (is_given f.error_message) (codes "error_message")
        ++ (only_if (is_given f.failed_step) (codes "failed_step")
            ++ (only_if (is_some f.http_status) (codes "http_status")
                ++ (only_if (is_some f.duration_ms) (codes "duration")
                    ++ (only_if (is_cons f.recent) (codes "history")
                        ++ (only_if (is_cons f.steps) (codes "run_steps")
                            ++ (map (λ (s : StepFact). codes "step:" ++ s.name) f.steps
                                ++ (hosts_cited (codes "console:")
                                      (map console_host f.first_party_console)
                                    ++ hosts_cited (codes "network:") f.net_failed))))))))
