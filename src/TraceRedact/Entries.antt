-- ===== src/TraceRedact/Entries.antt =====
-- What an entry of a trace zip is, by its name or by its first bytes, of runner/traceRedact.ts.
use synthwatch.Prelude.{
  ℕ, ◌+◌, ◌-◌, Option, Bool, false, ◌&&◌, ◌||◌, List, [], ◌∷◌, if◌then◌else◌, leb, ◌==◌, not,
  length, take, any, String,
}
use synthwatch.SpecPath.{codes}
use synthwatch.Text.{Text, ends_with, trim_start}

abbrev pub Bytes : Type 0
Bytes = List ℕ

-- SNIFF_BYTES
abbrev pub sniff_bytes : ℕ
sniff_bytes = 512

-- What the module takes from the runtime; a throw is `none`.
pub record Codec : Type 0 where
  pub decode_uri : Text → Option Text
  pub encode_uri_char : ℕ → Text
  -- \p{Cc}
  pub is_control : ℕ → Bool
  -- `new TextDecoder('utf-8', { fatal: true })`
  pub is_utf8 : Bytes → Bool
  pub utf8_decode : Bytes → Text
  pub utf8_encode : Text → Bytes
  -- STRUCTURAL
  pub structural : List (Text → Text)

-- The letters that the flag `i` identifies, in lower case.
unfoldable pub fold_case : ℕ → ℕ
fold_case c = if leb b'A' c && leb c b'Z' then c + 32 else c

unfoldable pub map_text : (ℕ → ℕ) → Text → Text
map_text f [] = []
map_text f (c ∷ cs) = f c ∷ map_text f cs

-- /\.(…)$/i
unfoldable pub has_extension : Text → List String → Bool
unfolding fold_case map_text ends_with
has_extension entry_name [] = false
has_extension entry_name (ext ∷ exts) =
    ends_with (map_text fold_case entry_name) (b'.' ∷ codes ext) || has_extension entry_name exts

-- TEXT_ENTRY, SNIFF_ENTRY and IMAGE_ENTRY
abbrev pub text_extensions : List String
text_extensions =
    "trace" ∷ "network" ∷ "stacks" ∷ "htm" ∷ "html" ∷ "js" ∷ "mjs" ∷ "css" ∷ "json" ∷ "txt" ∷ "svg"
    ∷ "xml" ∷ "csv" ∷ "map" ∷ []

abbrev pub sniff_extensions : List String
sniff_extensions = "dat" ∷ []

abbrev pub image_extensions : List String
image_extensions = "jpg" ∷ "jpeg" ∷ "png" ∷ "webp" ∷ "gif" ∷ "avif" ∷ []

pub data EntryClass : Type 0 where
  scrub sniff discard : EntryClass

-- `classifyEntry`
unfoldable pub classify_entry : Text → EntryClass
unfolding has_extension
classify_entry entry_name =
    if has_extension entry_name text_extensions
    then scrub
    else if has_extension entry_name sniff_extensions
    then sniff
    else discard

-- The text begins like a JSON document.
abbrev pub opens_json : Text → Bool
opens_json [] = false
opens_json (c ∷ cs) = c == b'{' || c == b'['

abbrev drop_bom : Text → Text
drop_bom [] = []
drop_bom (c ∷ cs) = if c == 0xfeff then cs else c ∷ cs

module _ (codec : Codec) where
  open codec use {is_control, is_utf8, utf8_decode}

  -- `looksLikeRedactableText`
  unfoldable pub looks_like_redactable_text : Bytes → Bool
  unfolding trim_start
  looks_like_redactable_text prefix =
      let head = take sniff_bytes prefix in
      let safe = if length head == sniff_bytes then take (length head - 3) head else head in
      not (length prefix == 0)
      && (not (any (λ b. b == 0) head)
          && (is_utf8 safe && opens_json (trim_start (drop_bom (utf8_decode safe)))))
