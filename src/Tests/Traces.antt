-- ===== src/Tests/Traces.antt =====
-- The theorems on runner/traceRedact.ts and runner/loginCredentials.ts at a small trace and at one login.
use synthwatch.Prelude.{
  none, some, true, false, List, [], ◌∷◌, ◌≡◌, ◌⊎◌, any, refl, if◌then◌else◌, ◌==◌,
}
use synthwatch.SpecPath.{codes}
use synthwatch.Text.{Text, has_text}
use synthwatch.TraceRedact.Entries.{Codec, classify_entry}
use synthwatch.TraceRedact.{ZipEvent, entry, zip_error, chunks, build_redacted_trace_zip, is_text}
use synthwatch.TraceRedact.Regions.{scrub_encoded_regions, scrub_trace_text, scrub_run}
use synthwatch.TraceRedact.Scrub.{separators, scrub_encoded_regions-separators}
use synthwatch.TraceRedact.Kept.{OnlyKept, build_redacted_trace_zip-OnlyKept}
use synthwatch.TraceRedact.Verdict.{Ends, breaks, build_redacted_trace_zip-Ends}
use synthwatch.LoginCredentials.{
  Credentials, Env, publish, clear_login_credentials, credential_env_key,
}
use synthwatch.LoginCredentials.Restore.{env_keys, clear_login_credentials-publish}

-- A codec that knows one escape, `%41` for `a`.
abbrev unescape : Text → Text
unescape [] = []
unescape (c ∷ []) = c ∷ []
unescape (c ∷ (d ∷ [])) = c ∷ (d ∷ [])
unescape (c ∷ (d ∷ (e ∷ cs))) = b'a' ∷ cs

abbrev codec : Codec
codec = record {
  decode_uri = λ t. some (unescape t);
  encode_uri_char = λ c. [];
  is_control = λ c. false;
  is_utf8 = λ bytes. true;
  utf8_decode = λ bytes. bytes;
  utf8_encode = λ t. t;
  structural = [];
}

-- Every letter `a` is a secret.
abbrev redact : Text → Text
redact [] = []
redact (c ∷ cs) = (if c == b'a' then b'*' else c) ∷ redact cs

abbrev events : List ZipEvent
events =
    entry (codes "trace.trace") (chunks (codes "pass" ∷ []))
    ∷ (entry (codes "resources/1.png") (chunks ((137 ∷ []) ∷ []))
        ∷ (entry (codes "resources/2.dat") (chunks (codes "{a}" ∷ [])) ∷ []))

-- The image is dropped, and the other two are scrubbed.
zip_test :
    (build_redacted_trace_zip codec redact false (some events)).file
    ≡ some ((codes "trace.trace", codes "p*ss") ∷ ((codes "resources/2.dat", codes "{*}") ∷ []))
unfolding build_redacted_trace_zip is_text scrub_trace_text classify_entry scrub_run
zip_test = refl

build_redacted_trace_zip-OnlyKept_example :
    OnlyKept codec redact false events
      (build_redacted_trace_zip codec redact false (some events)).file
build_redacted_trace_zip-OnlyKept_example =
    build_redacted_trace_zip-OnlyKept codec redact false events

build_redacted_trace_zip-Ends_example :
    Ends codec redact (build_redacted_trace_zip codec redact false (some (zip_error ∷ events)))
    × ((any (breaks codec redact false) (zip_error ∷ events) ≡ false)
        ⊎ ((build_redacted_trace_zip codec redact false (some (zip_error ∷ events))).resolved
            ≡ false))
build_redacted_trace_zip-Ends_example =
    build_redacted_trace_zip-Ends codec redact false (zip_error ∷ events)

scrub_encoded_regions-separators_example :
    separators (scrub_encoded_regions codec redact (codes "go \"%41b\" now"))
    ≡ separators (codes "go \"%41b\" now")
scrub_encoded_regions-separators_example =
    scrub_encoded_regions-separators codec redact (λ c. refl) (codes "go \"%41b\" now")

abbrev login : Credentials
login = (codes "username", codes "ann") ∷ ((codes "password", codes "pw") ∷ [])

abbrev env : Env
env k = none

clear_login_credentials-publish_example :
    clear_login_credentials
      (λ t. t)
      (λ t. t)
      (publish (λ t. t) (λ t. t) login env).0
      (publish (λ t. t) (λ t. t) login env).1
      (codes "SW_CRED_password")
    ≡ (if has_text (codes "SW_CRED_password") (env_keys (λ t. t) (λ t. t) login)
        then env (codes "SW_CRED_password")
        else (publish (λ t. t) (λ t. t) login env).1 (codes "SW_CRED_password"))
unfolding has_text credential_env_key
clear_login_credentials-publish_example =
    clear_login_credentials-publish (λ t. t) (λ t. t) login env
      (publish (λ t. t) (λ t. t) login env).1 (refl, (refl, tt)) (codes "SW_CRED_password")
