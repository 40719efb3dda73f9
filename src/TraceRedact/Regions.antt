-- ===== src/TraceRedact/Regions.antt =====
-- The scrub of a text, of runner/traceRedact.ts: its structural rules, and its percent-encoded runs.
use synthwatch.Prelude.{
  ℕ, zero, suc, ◌+◌, ◌-◌, ◌/◌, ◌%◌, Option, none, some, Bool, false, ◌&&◌, ◌||◌, List, [], ◌∷◌,
  ◌++◌, if◌then◌else◌, leb, ltb, ◌==◌,
}
use synthwatch.SpecPath.{same_codes}
use synthwatch.Text.{Text, is_space, is_digit}
use synthwatch.TraceRedact.Entries.{Codec}

-- MAX_DECODE_PASSES
abbrev pub max_decode_passes : ℕ
max_decode_passes = 3

-- %[0-9A-Fa-f]{2}
abbrev is_hex : ℕ → Bool
unfolding is_digit
is_hex c = is_digit c || (leb b'A' c && leb c b'F' || leb b'a' c && leb c b'f')

unfoldable pub has_pct_escape : Text → Bool
unfolding is_digit
has_pct_escape [] = false
has_pct_escape (c ∷ []) = false
has_pct_escape (c ∷ (d ∷ [])) = false
has_pct_escape (c ∷ (d ∷ (e ∷ cs))) =
    c == b'%' && (is_hex d && is_hex e) || has_pct_escape (d ∷ (e ∷ cs))

-- What ENCODED_RUN does not match.
unfoldable pub is_separator : ℕ → Bool
unfolding is_space
is_separator c = c == b'"' || (c == 92 || is_space c)

-- One digit of `toString(16).toUpperCase()`.
abbrev pub hex_digit : ℕ → ℕ
hex_digit d = if ltb d 10 then b'0' + d else b'A' + (d - 10)

module _ (codec : Codec) (redact : Text → Text) where
  open codec use {decode_uri, encode_uri_char, is_control, structural}

  unfoldable pub apply_rules : List (Text → Text) → Text → Text
  apply_rules [] text = text
  apply_rules (rule ∷ rules) text = apply_rules rules (rule text)

  -- `scrubPlainText`
  unfoldable pub scrub_plain_text : Text → Text
  unfolding apply_rules
  scrub_plain_text text = apply_rules structural (redact text)

  -- The loop of `decodeDeep` after its first pass.
  unfoldable pub decode_on : ℕ → Text → Text
  unfolding same_codes
  decode_on zero cur = cur
  decode_on (suc n) cur = elim (decode_uri cur) [
    | none ↦ cur
    | some next ↦ let rest = decode_on n next in if same_codes next cur then cur else rest
  ]

  -- `decodeDeep`
  unfoldable pub decode_deep : Text → Option Text
  unfolding decode_on
  decode_deep run = elim (decode_uri run) [
    | none ↦ none
    | some next ↦ some (if same_codes next run then run else decode_on (max_decode_passes - 1) next)
  ]

  -- [%"\\\s\p{Cc}]
  unfoldable pub must_escape : ℕ → Bool
  unfolding is_space
  must_escape c = c == b'%' || (c == b'"' || (c == 92 || (is_space c || is_control c)))

  unfoldable pub escape_char : ℕ → Text
  escape_char c =
      if ltb c 0x80
      then b'%' ∷ (hex_digit (c / 16) ∷ (hex_digit (c % 16) ∷ []))
      else encode_uri_char c

  -- `encodeMinimal`
  unfoldable pub encode_minimal : Text → Text
  unfolding must_escape escape_char
  encode_minimal [] = []
  encode_minimal (c ∷ cs) = (if must_escape c then escape_char c else c ∷ []) ++ encode_minimal cs

  -- The replacement of one run.
  unfoldable pub rescrub : Text → Option Text → Text
  unfolding encode_minimal
  rescrub run none = run
  rescrub run (some decoded) =
      if same_codes (scrub_plain_text decoded) decoded
      then run
      else encode_minimal (scrub_plain_text decoded)

  unfoldable pub scrub_run : Text → Text
  unfolding has_pct_escape rescrub decode_deep
  scrub_run run = if has_pct_escape run then rescrub run (decode_deep run) else run

  abbrev pub flush : Text → Text
  flush [] = []
  flush (c ∷ run) = scrub_run (c ∷ run)

  -- The text, with what has been read of the run at hand.
  unfoldable pub scrub_from : Text → Text → Text
  unfolding is_separator
  scrub_from run [] = flush run
  scrub_from run (c ∷ cs) =
      let more = scrub_from (run ++ c ∷ []) cs in
      let after = flush run ++ c ∷ scrub_from [] cs in if is_separator c then after else more

  -- `scrubEncodedRegions`
  unfoldable pub scrub_encoded_regions : Text → Text
  unfolding scrub_from
  scrub_encoded_regions text = scrub_from [] text

  -- `scrubTraceText`
  unfoldable pub scrub_trace_text : Text → Text
  unfolding scrub_encoded_regions scrub_plain_text
  scrub_trace_text text = scrub_encoded_regions (scrub_plain_text text)
