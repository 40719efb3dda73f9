-- ===== src/TraceRedact/Kept.antt =====
-- What the redacted zip of runner/traceRedact.ts keeps of the entries of the raw one.
use synthwatch.Prelude.{
  Option, none, some, Bool, true, false, ◌&&◌, List, [], ◌∷◌, ◌++◌, ◌≡◌, ◌⊎◌, inl, inr, All, not,
  refl, sym, ap, ◌∙◌, if◌then◌else◌, if-elim, subst, append-nil, append_assoc,
}
use synthwatch.Text.{Text}
use synthwatch.TraceRedact.Entries.{Bytes, Codec, EntryClass, scrub, sniff, discard, classify_entry}
use synthwatch.TraceRedact.{
  EntryStream, not_opened, broken, chunks, ZipEvent, entry, zip_error, write_error, Output,
  Redaction, is_discard, is_image, ends_in_slash, is_text, concat, add_file, read_entry, on_entry,
  on_event, walk_zip, finish_zip, empty_output, build_redacted_trace_zip, content,
}
use synthwatch.TraceRedact.Regions.{scrub_trace_text}

module _ (codec : Codec) (redact : Text → Text) where
  -- The text of an entry, scrubbed; an entry without a name that says what it is looks like JSON.
  abbrev pub IsScrubbed : Text → List Bytes → Bytes → Type 0
  IsScrubbed entry_name cs bytes =
      (bytes ≡ codec.utf8_encode (scrub_trace_text codec redact (codec.utf8_decode (concat cs))))
      × ((classify_entry entry_name ≡ scrub)
          ⊎ ((classify_entry entry_name ≡ sniff) × (is_text codec redact sniff cs ≡ true)))

  -- An image, as it was, if they are kept.
  abbrev pub IsImage : Bool → Text → List Bytes → Bytes → Type 0
  IsImage keep_images entry_name cs bytes =
      (is_image keep_images entry_name ≡ true) × (bytes ≡ concat cs)

  -- The file comes of an entry of this name that was read to its end.
  abbrev pub ComesOf : Bool → ZipEvent → Text × Bytes → Type 0
  ComesOf keep_images (entry entry_name (chunks cs)) file =
      (file.0 ≡ entry_name)
      × (IsImage keep_images entry_name cs file.1 ⊎ IsScrubbed entry_name cs file.1)
  ComesOf keep_images (entry entry_name stream) file = ⊥
  ComesOf keep_images zip_error file = ⊥
  ComesOf keep_images write_error file = ⊥

  -- The file comes of one of the events.
  abbrev pub ComesOfOne : Bool → List ZipEvent → Text × Bytes → Type 0
  ComesOfOne keep_images [] file = ⊥
  ComesOfOne keep_images (e ∷ events) file =
      ComesOf keep_images e file ⊎ ComesOfOne keep_images events file

  abbrev Grows : Bool → ZipEvent → Output → Option Output → Type 0
  Grows k e out none = Unit {0}
  Grows k e out (some out') =
      (out'.files ≡ out.files)
      ⊎ ((file : Text × Bytes) × (out'.files ≡ out.files ++ file ∷ []) × ComesOf k e file)

  -- The bytes that are written for an entry that is not skipped.
  content-ComesOf :
      (k : Bool) (n : Text) (cs : List Bytes) (image : Bool) (cls : EntryClass)
      → is_image k n ≡ image
      → classify_entry n ≡ cls
      → (is_discard cls && not image) ≡ false
      → is_text codec redact cls cs ≡ true
      → ComesOf k (entry n (chunks cs)) (n, content codec redact image (concat cs))
  unfolding content
  content-ComesOf k n cs true cls i c d h = (refl, inl (i, refl))
  content-ComesOf k n cs false scrub i c d h = (refl, inr (refl, inl c))
  content-ComesOf k n cs false sniff i c d h = (refl, inr (refl, inr (c, h)))
  content-ComesOf k n cs false discard i c d h = cc

  read_entry-Grows :
      (k : Bool) (n : Text) (s : EntryStream) (out : Output)
      → (is_discard (classify_entry n) && not (is_image k n)) ≡ false
      → Grows k (entry n s) out (read_entry codec redact (is_image k n) (classify_entry n) n s out)
  unfolding read_entry
  read_entry-Grows k n not_opened out d = tt
  read_entry-Grows k n broken out d = tt
  read_entry-Grows k n (chunks cs) out d =
      choose (is_text codec redact (classify_entry n) cs)
        (content-ComesOf k n cs (is_image k n) (classify_entry n) refl refl d)
    where
      file : Text × Bytes
      file = (n, content codec redact (is_image k n) (concat cs))

      choose :
          (b : Bool)
          → (b ≡ true → ComesOf k (entry n (chunks cs)) file)
          → Grows k
              (entry n (chunks cs))
              out
              (some (if b then add_file codec redact (is_image k n) n (concat cs) out else out))
      choose true c = inr (file, (unfold add_file in refl), c refl)
      choose false c = inl refl

  on_event-Grows :
      (k : Bool) (e : ZipEvent) (out : Output) → Grows k e out (on_event codec redact k e out)
  unfolding on_event on_entry
  on_event-Grows k zip_error out = tt
  on_event-Grows k write_error out = tt
  on_event-Grows k (entry n s) out =
      choose (ends_in_slash n) (is_discard (classify_entry n) && not (is_image k n))
        (read_entry-Grows k n s out)
    where
      choose :
          (a d : Bool)
          → (d ≡ false
              → Grows k
                  (entry n s)
                  out
                  (read_entry codec redact (is_image k n) (classify_entry n) n s out))
          → Grows k (entry n s) out (
              if a
              then some out
              else if d
              then some out
              else read_entry codec redact (is_image k n) (classify_entry n) n s out)
      choose true d g = inl refl
      choose false true g = inl refl
      choose false false g = g refl

  -- What the walk over the events adds.
  abbrev Adds : Bool → List ZipEvent → Output → Option Output → Type 0
  Adds k events out none = Unit {0}
  Adds k events out (some out') =
      (new : List (Text × Bytes)) × (out'.files ≡ out.files ++ new) × All (ComesOfOne k events) new

  later_events :
      (k : Bool) (e : ZipEvent) (events : List ZipEvent) (new : List (Text × Bytes))
      → All (ComesOfOne k events) new
      → All (ComesOfOne k (e ∷ events)) new
  later_events k e events [] h = tt
  later_events k e events (x ∷ new) h = (inr h.0, later_events k e events new h.1)

  Adds-later :
      (k : Bool) (e : ZipEvent) (events : List ZipEvent) (out mid : Output) (o : Option Output)
      → Grows k e out (some mid)
      → Adds k events mid o
      → Adds k (e ∷ events) out o
  Adds-later k e events out mid none g h = tt
  Adds-later k e events out mid (some out') (inl g) (new, h, all_new) =
      (new, h ∙ ap (λ z. z ++ new) g, later_events k e events new all_new)
  Adds-later k e events out mid (some out') (inr (file, g, c)) (new, h, all_new) = (
    file ∷ new,
    h ∙ ap (λ z. z ++ new) g ∙ append_assoc out.files (file ∷ []) new,
    (inl c, later_events k e events new all_new),
  )

  walk_zip-Adds :
      (k : Bool) (events : List ZipEvent) (out : Output)
      → Adds k events out (walk_zip codec redact k events out)
  unfolding walk_zip
  walk_zip-Adds k [] out = ([], sym (append-nil out.files), tt)
  walk_zip-Adds k (e ∷ events) out =
      go (on_event codec redact k e out) (on_event-Grows k e out) (walk_zip-Adds k events)
    where
      go :
          (o : Option Output)
          → Grows k e out o
          → ((mid : Output) → Adds k events mid (walk_zip codec redact k events mid))
          → Adds k
              (e ∷ events)
              out
              (elim o [ none ↦ none | some mid ↦ walk_zip codec redact k events mid ])
      go none g ih = tt
      go (some mid) g ih = Adds-later k e events out mid _ g (ih mid)

  abbrev pub OnlyKept : Bool → List ZipEvent → Option (List (Text × Bytes)) → Type 0
  OnlyKept k events none = Unit {0}
  OnlyKept k events (some files) = All (ComesOfOne k events) files

  finish_zip-OnlyKept :
      (k : Bool) (events : List ZipEvent) (o : Option Output)
      → Adds k events empty_output o
      → OnlyKept k events (finish_zip codec redact o).file
  unfolding finish_zip
  finish_zip-OnlyKept k events none h = tt
  finish_zip-OnlyKept k events (some out) (new, e, h) =
      if-elim (λ (r : Redaction). OnlyKept k events r.file) out.saw_trace
        (record { resolved = true; file = some out.files })
        (record { resolved = false; file = none })
        (λ s. subst (All (ComesOfOne k events)) (sym e) h) (λ s. tt)

-- Nothing raw is kept: whatever the zip holds, each file of the redacted zip comes of an entry of the same
-- name that was read to its end, and its bytes are the scrub of that entry's text, where the name says that
-- it is a text, or says nothing and its first chunk looks like JSON; or they are those of an image, as they
-- were, where the caller keeps images. Without that no byte is kept unscrubbed.
pub build_redacted_trace_zip-OnlyKept :
    (codec : Codec) (redact : Text → Text) (keep_images : Bool) (events : List ZipEvent)
    → OnlyKept codec redact keep_images events
        (build_redacted_trace_zip codec redact keep_images (some events)).file
unfolding build_redacted_trace_zip
build_redacted_trace_zip-OnlyKept codec redact k events =
    finish_zip-OnlyKept codec redact k events _ (walk_zip-Adds codec redact k events empty_output)
