-- ===== src/TraceRedact/Verdict.antt =====
-- When `buildRedactedTraceZip` of runner/traceRedact.ts succeeds, and what it leaves at its path.
use synthwatch.Prelude.{
  Option, none, some, Bool, true, false, ◌&&◌, ◌||◌, List, [], ◌∷◌, ◌≡◌, ◌⊎◌, inl, inr, any,
  any-append, Bool-cases, not, refl, sym, ap, ◌∙◌, arith, if◌then◌else◌, if-elim,
}
use synthwatch.Text.{Text}
use synthwatch.TraceRedact.Entries.{Bytes, Codec, EntryClass, has_extension, classify_entry}
use synthwatch.TraceRedact.{
  EntryStream, not_opened, broken, chunks, ZipEvent, entry, zip_error, write_error, Output,
  Redaction, is_discard, is_image, ends_in_slash, is_text, concat, add_file, read_entry, on_entry,
  on_event, walk_zip, finish_zip, empty_output, build_redacted_trace_zip, content,
}

abbrev pub is_trace : Text × Bytes → Bool
is_trace file = has_extension file.0 ("trace" ∷ [])

-- An entry that the walk passes over without a read.
abbrev pub skips : Bool → Text → Bool
skips keep_images entry_name =
    ends_in_slash entry_name
    || is_discard (classify_entry entry_name) && not (is_image keep_images entry_name)

module _ (codec : Codec) (redact : Text → Text) where
  abbrev is_readable : EntryStream → Bool
  is_readable not_opened = false
  is_readable broken = false
  is_readable (chunks cs) = true

  -- An event at which the walk cannot go on.
  abbrev pub breaks : Bool → ZipEvent → Bool
  breaks keep_images zip_error = true
  breaks keep_images write_error = true
  breaks keep_images (entry entry_name stream) =
      not (skips keep_images entry_name) && not (is_readable stream)

  on_entry-none :
      (a d : Bool) (image : Bool) (cls : EntryClass) (n : Text) (s : EntryStream) (out : Output)
      → (not (a || d) && not (is_readable s)) ≡ true
      → (if a then some out else if d then some out else read_entry codec redact image cls n s out)
        ≡ none
  unfolding read_entry
  on_entry-none a d image cls n not_opened out h = ground arith
  on_entry-none a d image cls n broken out h = ground arith
  on_entry-none a d image cls n (chunks cs) out h = ground arith

  on_event-none :
      (keep_images : Bool) (e : ZipEvent) (out : Output)
      → breaks keep_images e ≡ true
      → on_event codec redact keep_images e out ≡ none
  unfolding on_event on_entry
  on_event-none k zip_error out h = refl
  on_event-none k write_error out h = refl
  on_event-none k (entry n s) out h =
      on_entry-none (ends_in_slash n) (is_discard (classify_entry n) && not (is_image k n))
        (is_image k n) (classify_entry n) n s out h

  walk_zip-none :
      (k : Bool) (events : List (ZipEvent)) (out : Output)
      → any (breaks k) events ≡ true
      → walk_zip codec redact k events out ≡ none
  unfolding walk_zip
  walk_zip-none k [] out h = cc
  walk_zip-none k (e ∷ events) out h = elim (Bool-cases (breaks k e)) [
    | inl b ↦ rw (on_event-none k e out b, walk_zip) refl
    | inr b ↦
        go (on_event codec redact k e out)
          (λ out'. walk_zip-none k events out' (later (breaks k e) _ b h))
  ]
    where
      go :
          (o : Option (Output))
          → ((out' : Output) → walk_zip codec redact k events out' ≡ none)
          → elim o [ none ↦ none | some out' ↦ walk_zip codec redact k events out' ] ≡ none
      go none ih = refl
      go (some out') ih = ih out'

      later : (a b : Bool) → a ≡ false → (a || b) ≡ true → b ≡ true
      later a b e k = ground arith

  -- `sawTrace` is whether a trace has been written.
  abbrev HasSeen : Output → Type 0
  HasSeen out = out.saw_trace ≡ any is_trace out.files

  IfSeen : Option (Output) → Type 0
  IfSeen none = Unit {0}
  IfSeen (some out) = HasSeen out

  add_file-HasSeen :
      (image : Bool) (n : Text) (raw : Bytes) (out : Output)
      → HasSeen out
      → HasSeen (add_file codec redact image n raw out)
  unfolding add_file
  add_file-HasSeen image n raw out h =
      ap (λ b. b || has_extension n ("trace" ∷ [])) h
      ∙ ap (λ b. any is_trace out.files || b) (or_false _)
      ∙ sym (any-append is_trace out.files ((n, content codec redact image raw) ∷ []))
    where
      or_false : (b : Bool) → b ≡ (b || false)
      or_false true = refl
      or_false false = refl

  read_entry-IfSeen :
      (image : Bool) (cls : EntryClass) (n : Text) (s : EntryStream) (out : Output)
      → HasSeen out
      → IfSeen (read_entry codec redact image cls n s out)
  unfolding read_entry IfSeen
  read_entry-IfSeen image cls n not_opened out h = tt
  read_entry-IfSeen image cls n broken out h = tt
  read_entry-IfSeen image cls n (chunks cs) out h =
      if-elim HasSeen (is_text codec redact cls cs) (add_file codec redact image n (concat cs) out)
        out (λ e. add_file-HasSeen image n (concat cs) out h) (λ e. h)

  on_event-IfSeen :
      (k : Bool) (e : ZipEvent) (out : Output)
      → HasSeen out
      → IfSeen (on_event codec redact k e out)
  unfolding on_event on_entry
  on_event-IfSeen k zip_error out h = unfold IfSeen in tt
  on_event-IfSeen k write_error out h = unfold IfSeen in tt
  on_event-IfSeen k (entry n s) out h =
      choose (ends_in_slash n) (is_discard (classify_entry n) && not (is_image k n))
    where
      choose :
          (a d : Bool)
          → IfSeen (
              if a
              then some out
              else if d
              then some out
              else read_entry codec redact (is_image k n) (classify_entry n) n s out)
      choose true d = unfold IfSeen in h
      choose false true = unfold IfSeen in h
      choose false false = read_entry-IfSeen (is_image k n) (classify_entry n) n s out h

  walk_zip-IfSeen :
      (k : Bool) (events : List (ZipEvent)) (out : Output)
      → HasSeen out
      → IfSeen (walk_zip codec redact k events out)
  unfolding walk_zip IfSeen
  walk_zip-IfSeen k [] out h = h
  walk_zip-IfSeen k (e ∷ events) out h =
      go (on_event codec redact k e out) (on_event-IfSeen k e out h) (walk_zip-IfSeen k events)
    where
      go :
          (o : Option (Output))
          → IfSeen o
          → ((out' : Output) → HasSeen out' → IfSeen (walk_zip codec redact k events out'))
          → IfSeen (elim o [ none ↦ none | some out' ↦ walk_zip codec redact k events out' ])
      go none h ih = tt
      go (some out') h ih = ih out' h

  abbrev pub Ends : Redaction → Type 0
  Ends r =
      ((r.resolved ≡ true)
        × (files : List (Text × Bytes)) × (r.file ≡ some files)
        × (any is_trace files ≡ true))
      ⊎ ((r.resolved ≡ false) × (r.file ≡ none))

  finish_zip-Ends : (o : Option (Output)) → IfSeen o → Ends (finish_zip codec redact o)
  unfolding finish_zip IfSeen
  finish_zip-Ends none h = inr (refl, refl)
  finish_zip-Ends (some out) h = elim (Bool-cases out.saw_trace) [
    | inl e ↦ rw e (inl (refl, out.files, refl, (sym h ∙ e)))
    | inr e ↦ rw e (inr (refl, refl))
  ]

-- Nothing half-written ships: whatever the zip holds and however its events come, either the promise
-- resolves to true and the file at the path has a trace in it, or it resolves to false and there is no
-- file; and it resolves to false when any event breaks the walk, that is an error of the zip or of the
-- write, or an entry that is to be read and cannot be.
pub build_redacted_trace_zip-Ends :
    (codec : Codec) (redact : Text → Text) (keep_images : Bool) (events : List (ZipEvent))
    → Ends codec redact (build_redacted_trace_zip codec redact keep_images (some events))
      × ((any (breaks codec redact keep_images) events ≡ false)
          ⊎ ((build_redacted_trace_zip codec redact keep_images (some events)).resolved ≡ false))
unfolding build_redacted_trace_zip
build_redacted_trace_zip-Ends codec redact k events = (
  finish_zip-Ends codec redact _ (walk_zip-IfSeen codec redact k events empty_output refl),
  elim (Bool-cases (any (breaks codec redact k) events)) [
    | inl h ↦ inr (
        unfold finish_zip in
        ap (λ o. (finish_zip codec redact o).resolved)
          (walk_zip-none codec redact k events empty_output h))
    | inr h ↦ inl h
  ],
)
