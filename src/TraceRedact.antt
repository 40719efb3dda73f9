-- ===== src/TraceRedact.antt =====
-- runner/traceRedact.ts: the redacted copy of a trace zip. The redactor of the monitor, the structural rules
-- (each as its `replace`), the URI and UTF-8 codecs and the bytes of the zip are arguments. A walk is the
-- sequence of its events, as `lazyEntries` delivers them.
pub mod Entries
pub mod Regions
pub mod Scrub
pub mod Kept
pub mod Verdict
use synthwatch.Prelude.{
  ◌+◌, ◌/◌, Option, none, some, Bool, true, false, ◌&&◌, ◌||◌, List, [], ◌∷◌, ◌++◌, if◌then◌else◌,
  not,
}
use synthwatch.Text.{Text, ends_with}
use synthwatch.TraceRedact.Entries.{
  Bytes, Codec, has_extension, image_extensions, EntryClass, scrub, sniff, discard, classify_entry,
  looks_like_redactable_text,
}
use synthwatch.TraceRedact.Regions.{scrub_trace_text}

unfoldable pub concat : List Bytes → Bytes
concat [] = []
concat (c ∷ cs) = c ++ concat cs

abbrev pub ends_in_slash : Text → Bool
unfolding ends_with
ends_in_slash entry_name = ends_with entry_name (b'/' ∷ [])

unfoldable pub is_image : Bool → Text → Bool
unfolding has_extension
is_image keep_images entry_name = keep_images && has_extension entry_name image_extensions

abbrev pub is_discard : EntryClass → Bool
is_discard discard = true
is_discard _ = false

-- What `openReadStream` gives for an entry: the chunks, if they were read to the end.
pub data EntryStream : Type 0 where
  not_opened : EntryStream
  broken : EntryStream
  chunks : List Bytes → EntryStream

pub data ZipEvent : Type 0 where
  entry : Text → EntryStream → ZipEvent
  zip_error : ZipEvent
  write_error : ZipEvent

-- What has been written, and `sawTrace`.
pub record Output : Type 0 where
  pub files : List (Text × Bytes)
  pub saw_trace : Bool

-- What the promise resolves to, and the file at `destPath`.
pub record Redaction : Type 0 where
  pub resolved : Bool
  pub file : Option (List (Text × Bytes))

abbrev pub empty_output : Output
empty_output = record { files = []; saw_trace = false }

module _ (codec : Codec) (redact : Text → Text) where
  open codec use {utf8_decode, utf8_encode}

  -- The verdict on the first chunk, of an entry that is classified by content.
  unfoldable pub is_text : EntryClass → List Bytes → Bool
  unfolding looks_like_redactable_text
  is_text sniff [] = false
  is_text sniff (c ∷ cs) = looks_like_redactable_text codec c
  is_text scrub cs = true
  is_text discard cs = true

  -- The bytes that are kept of an entry: an image as it is, a text scrubbed.
  unfoldable pub content : Bool → Bytes → Bytes
  unfolding scrub_trace_text
  content true raw = raw
  content false raw = utf8_encode (scrub_trace_text codec redact (utf8_decode raw))

  unfoldable pub add_file : Bool → Text → Bytes → Output → Output
  unfolding content has_extension
  add_file image entry_name raw out = record {
    files = out.files ++ (entry_name, content image raw) ∷ [];
    saw_trace = out.saw_trace || has_extension entry_name ("trace" ∷ []);
  }

  unfoldable pub read_entry : Bool → EntryClass → Text → EntryStream → Output → Option Output
  unfolding is_text add_file concat
  read_entry image cls entry_name not_opened out = none
  read_entry image cls entry_name broken out = none
  read_entry image cls entry_name (chunks cs) out =
      some (if is_text cls cs then add_file image entry_name (concat cs) out else out)

  -- The handler of `entry`.
  unfoldable pub on_entry : Bool → Text → EntryStream → Output → Option Output
  unfolding read_entry is_image
  on_entry keep_images entry_name stream out =
      let image = is_image keep_images entry_name in
      let cls = classify_entry entry_name in
      if ends_in_slash entry_name
      then some out
      else if is_discard cls && not image
      then some out
      else read_entry image cls entry_name stream out

  -- The handler of an event; `none` is `fail`.
  unfoldable pub on_event : Bool → ZipEvent → Output → Option Output
  unfolding on_entry
  on_event keep_images zip_error out = none
  on_event keep_images write_error out = none
  on_event keep_images (entry entry_name stream) out = on_entry keep_images entry_name stream out

  unfoldable pub walk_zip : Bool → List ZipEvent → Output → Option Output
  walk_zip keep_images [] out = some out
  walk_zip keep_images (e ∷ events) out = elim (on_event keep_images e out) [
    | none ↦ none
    | some out' ↦ walk_zip keep_images events out'
  ]

  unfoldable pub finish_zip : Option Output → Redaction
  finish_zip none = record { resolved = false; file = none }
  finish_zip (some out) =
      if out.saw_trace
      then record { resolved = true; file = some out.files }
      else record { resolved = false; file = none }

  -- `buildRedactedTraceZip`; the zip may not open.
  unfoldable pub build_redacted_trace_zip : Bool → Option (List ZipEvent) → Redaction
  unfolding walk_zip on_event finish_zip
  build_redacted_trace_zip keep_images none = record { resolved = false; file = none }
  build_redacted_trace_zip keep_images (some events) =
      finish_zip (walk_zip keep_images events empty_output)
