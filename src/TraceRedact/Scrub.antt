-- ===== src/TraceRedact/Scrub.antt =====
-- The scrub of the percent-encoded runs of a text, of runner/traceRedact.ts.
use synthwatch.Prelude.{
  ℕ, ◌/◌, ◌%◌, ◌<◌, Option, none, some, Bool, true, false, [], ◌∷◌, ◌++◌, ◌≡◌, inl, inr, Bool-cases,
  filter, refl, ap, ◌∙◌, arith, ltb, ltb→lt, if◌then◌else◌, if-elim,
}
use synthwatch.Text.{Text, is_space}
use synthwatch.SpecPath.{same_codes}
use synthwatch.TraceRedact.Regions.{
  has_pct_escape, is_separator, must_escape, hex_digit, escape_char, encode_minimal,
  scrub_plain_text, decode_deep, rescrub, scrub_run, flush, scrub_from, scrub_encoded_regions,
}
use synthwatch.TraceRedact.Entries.{Codec}

-- The quotes, backslashes and white space of a text, in order.
abbrev pub separators : Text → Text
separators = filter is_separator

separators-append : (xs ys : Text) → separators (xs ++ ys) ≡ separators xs ++ separators ys
separators-append [] ys = refl
separators-append (x ∷ xs) ys = choose (is_separator x) (separators-append xs ys)
  where
    choose :
        (b : Bool)
        → separators (xs ++ ys) ≡ separators xs ++ separators ys
        → (if b then x ∷ separators (xs ++ ys) else separators (xs ++ ys))
          ≡ (if b then x ∷ separators xs else separators xs) ++ separators ys
    choose true e = ap (λ zs. x ∷ zs) e
    choose false e = e

-- A text of one run.
abbrev IsRun : Text → Type 0
IsRun run = separators run ≡ []

hex_digit-is_separator : (d : ℕ) → d < 16 → is_separator (hex_digit d) ≡ false
unfolding is_separator is_space
hex_digit-is_separator d h = ground arith

percent-is_separator : is_separator b'%' ≡ false
unfolding is_separator is_space
percent-is_separator = refl

must_escape-is_separator :
    (codec : Codec) (redact : Text → Text) (c : ℕ)
    → must_escape codec redact c ≡ false
    → is_separator c ≡ false
unfolding must_escape is_separator
must_escape-is_separator codec redact c h = ground arith

module _ (codec : Codec) (redact : Text → Text) where
  -- `encodeURIComponent` of one character emits no quote, backslash or white space.
  abbrev pub EncodesPlainly : Type 0
  EncodesPlainly = (c : ℕ) → separators (codec.encode_uri_char c) ≡ []

  module _ (plainly : EncodesPlainly) where
    escape_char-IsRun : (c : ℕ) → IsRun (escape_char codec redact c)
    unfolding escape_char
    escape_char-IsRun c = elim (Bool-cases (ltb c 0x80)) [
      | inl e ↦
          rw
            (
              e,
              percent-is_separator,
              hex_digit-is_separator (c / 16) (high c e),
              hex_digit-is_separator (c % 16) (omega arith),
            )
            refl
      | inr e ↦ rw e (plainly c)
    ]
      where
        high : (c : ℕ) → ltb c 0x80 ≡ true → c / 16 < 16
        high c e = let k : c < 0x80 = ltb→lt c 0x80 e in omega arith

    encode_minimal-IsRun : (t : Text) → IsRun (encode_minimal codec redact t)
    unfolding encode_minimal
    encode_minimal-IsRun [] = refl
    encode_minimal-IsRun (c ∷ cs) =
        separators-append
          (if must_escape codec redact c then escape_char codec redact c else c ∷ []) _
        ∙ ap (λ z. z ++ separators (encode_minimal codec redact cs)) (one c)
        ∙ encode_minimal-IsRun cs
      where
        one :
            (c : ℕ)
            → IsRun (if must_escape codec redact c then escape_char codec redact c else c ∷ [])
        one c =
            if-elim IsRun (must_escape codec redact c) (escape_char codec redact c) (c ∷ [])
              (λ e. escape_char-IsRun c) (λ e. rw (must_escape-is_separator codec redact c e) refl)

    rescrub-IsRun : (run : Text) (o : Option Text) → IsRun run → IsRun (rescrub codec redact run o)
    unfolding rescrub
    rescrub-IsRun run none h = h
    rescrub-IsRun run (some decoded) h =
        if-elim IsRun (same_codes (scrub_plain_text codec redact decoded) decoded) run
          (encode_minimal codec redact (scrub_plain_text codec redact decoded)) (λ e. h)
          (λ e. encode_minimal-IsRun (scrub_plain_text codec redact decoded))

    scrub_run-IsRun : (run : Text) → IsRun run → IsRun (scrub_run codec redact run)
    unfolding scrub_run
    scrub_run-IsRun run h =
        if-elim IsRun (has_pct_escape run) (rescrub codec redact run (decode_deep codec redact run))
          run (λ e. rescrub-IsRun run (decode_deep codec redact run) h) (λ e. h)

    flush-IsRun : (run : Text) → IsRun run → IsRun (flush codec redact run)
    flush-IsRun [] h = refl
    flush-IsRun (c ∷ run) h = scrub_run-IsRun (c ∷ run) h

    scrub_from-separators :
        (run t : Text) → IsRun run → separators (scrub_from codec redact run t) ≡ separators t
    unfolding scrub_from
    scrub_from-separators run [] h = flush-IsRun run h
    scrub_from-separators run (c ∷ cs) h = elim (Bool-cases (is_separator c)) [
      | inl e ↦ rw e (
          separators-append (flush codec redact run) (c ∷ scrub_from codec redact [] cs)
          ∙ ap (λ z. z ++ separators (c ∷ scrub_from codec redact [] cs)) (flush-IsRun run h)
          ∙ kept e (scrub_from-separators [] cs refl))
      | inr e ↦ rw e (scrub_from-separators (run ++ c ∷ []) cs (grown e))
    ]
      where
        kept :
            is_separator c ≡ true
            → separators (scrub_from codec redact [] cs) ≡ separators cs
            → separators (c ∷ scrub_from codec redact [] cs) ≡ c ∷ separators cs
        kept e k = rw e (ap (λ z. c ∷ z) k)

        grown : is_separator c ≡ false → IsRun (run ++ c ∷ [])
        grown e =
            separators-append run (c ∷ []) ∙ ap (λ z. z ++ separators (c ∷ [])) h ∙ (rw e refl)

-- The structure of a line survives: whatever the redactor and the rules do to the decoded runs, the quotes,
-- backslashes and white space of a text are the same, in the same order, after the scrub of its encoded
-- regions, so that a string of the JSON line ends where it did; where `encodeURIComponent` emits none of
-- them.
pub scrub_encoded_regions-separators :
    (codec : Codec) (redact : Text → Text)
    → EncodesPlainly codec redact
    → (t : Text) → separators (scrub_encoded_regions codec redact t) ≡ separators t
unfolding scrub_encoded_regions
scrub_encoded_regions-separators codec redact plainly t =
    scrub_from-separators codec redact plainly [] t refl
