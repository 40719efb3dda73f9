-- ===== src/Narrative/Delivery.antt =====
-- The delivery of the critical findings in the narratives of runner/narrative.ts.
use synthwatch.Prelude.{
  Option, none, some, Bool, true, false, ◌&&◌, ◌||◌, List, [], ◌∷◌, ◌++◌, ◌≡◌, ◌⊎◌, inl, inr, All,
  is_some, refl, sym, ap, ◌∙◌, append-nil, append_assoc, arith, if◌then◌else◌, if-elim,
}
use synthwatch.SpecPath.{strip_prefix}
use synthwatch.Text.{Text, starts_with, includes}
use synthwatch.Narrative.{
  Narrative, Finding, FallbackTexts, DefectCandidate, RepeatGroup, join, prose, undelivered,
  ensure_anomalies_delivered, build_fallback, trimmed, valid_shape, narrate, critical_findings,
}

abbrev pub IsListed : Text → List Text → Type 0
IsListed t [] = ⊥
IsListed t (x ∷ xs) = (t ≡ x) ⊎ IsListed t xs

-- What a reader sees of a finding: its token somewhere in the prose, or its line as a highlight.
abbrev pub IsDelivered : Narrative → Finding → Type 0
IsDelivered n f = (includes (prose n) f.token ≡ true) ⊎ IsListed f.line n.highlights

strip_prefix-append :
    (p cs ds : Text)
    → is_some (strip_prefix p cs) ≡ true
    → is_some (strip_prefix p (cs ++ ds)) ≡ true
unfolding strip_prefix
strip_prefix-append [] cs ds h = refl
strip_prefix-append (x ∷ p) [] ds h = cc
strip_prefix-append (x ∷ p) (c ∷ cs) ds h = ground (arith, strip_prefix-append p cs ds)

includes-append : (cs ds part : Text) → includes cs part ≡ true → includes (cs ++ ds) part ≡ true
unfolding includes starts_with
includes-append [] [] part h = h
includes-append [] (d ∷ ds) part h =
    ap (λ b. b || includes ds part) (strip_prefix-append part [] (d ∷ ds) h)
includes-append (c ∷ cs) ds part h =
    go (is_some (strip_prefix part (c ∷ cs))) (strip_prefix-append part (c ∷ cs) ds)
      (includes-append cs ds part) h
  where
    go :
        (a : Bool) {b a' b' : Bool}
        → (a ≡ true → a' ≡ true)
        → (b ≡ true → b' ≡ true)
        → (a || b) ≡ true
        → (a' || b') ≡ true
    go true f g h = rw (f refl) refl
    go false f g h = ground (arith, g h)

join-append :
    (t : Text) (xs : List Text) (y : Text) (ys : List Text)
    → join (t ∷ (xs ++ y ∷ ys)) ≡ join (t ∷ xs) ++ b' ' ∷ join (y ∷ ys)
unfolding join
join-append t [] y ys = refl
join-append t (x ∷ xs) y ys =
    ap (λ z. t ++ b' ' ∷ z) (join-append x xs y ys)
    ∙ sym (append_assoc t (b' ' ∷ join (x ∷ xs)) (b' ' ∷ join (y ∷ ys)))

-- More highlights, and what was in the prose is still there.
prose-more :
    (n : Narrative) (more : List Text) (part : Text)
    → includes (prose n) part ≡ true
    → includes (prose (record n { highlights = n.highlights ++ more })) part ≡ true
unfolding prose
prose-more n [] part h =
    ap (λ hs. includes (join (n.headline ∷ (n.body ∷ hs))) part) (append-nil n.highlights) ∙ h
prose-more n (y ∷ ys) part h =
    ap (λ t. includes t part) (join-append n.headline (n.body ∷ n.highlights) y ys)
    ∙ includes-append (join (n.headline ∷ (n.body ∷ n.highlights))) (b' ' ∷ join (y ∷ ys)) part h

IsListed-append : (t : Text) (xs ys : List Text) → IsListed t ys → IsListed t (xs ++ ys)
IsListed-append t [] ys h = h
IsListed-append t (x ∷ xs) ys h = inr (IsListed-append t xs ys h)

-- Each finding is in the text, or among the lines.
abbrev Handled : Text → List Text → Finding → Type 0
Handled text lines f = (includes text f.token ≡ true) ⊎ IsListed f.line lines

Handled-more :
    (text line : Text) (lines : List Text) (findings : List Finding)
    → All (Handled text lines) findings
    → All (Handled text (line ∷ lines)) findings
Handled-more text line lines [] h = tt
Handled-more text line lines (f ∷ findings) (inl e, h) =
    (inl e, Handled-more text line lines findings h)
Handled-more text line lines (f ∷ findings) (inr e, h) =
    (inr (inr e), Handled-more text line lines findings h)

undelivered-Handled :
    (text : Text) (findings : List Finding)
    → All (Handled text (undelivered text findings)) findings
unfolding undelivered
undelivered-Handled text [] = tt
undelivered-Handled text (f ∷ findings) =
    choose (includes text f.token) refl (undelivered text findings)
      (undelivered-Handled text findings)
  where
    choose :
        (b : Bool)
        → includes text f.token ≡ b
        → (rest : List Text) → All (Handled text rest) findings
        → All (Handled text (if b then rest else f.line ∷ rest)) (f ∷ findings)
    choose true e rest h = (inl e, h)
    choose false e rest h = (inr (inl refl), Handled-more text f.line rest findings h)

Handled-IsDelivered :
    (n : Narrative) (lines : List Text) (findings : List Finding)
    → All (Handled (prose n) lines) findings
    → All (IsDelivered (record n { highlights = n.highlights ++ lines })) findings
Handled-IsDelivered n lines [] h = tt
Handled-IsDelivered n lines (f ∷ findings) (inl e, h) =
    (inl (prose-more n lines f.token e), Handled-IsDelivered n lines findings h)
Handled-IsDelivered n lines (f ∷ findings) (inr e, h) =
    (inr (IsListed-append f.line n.highlights lines e), Handled-IsDelivered n lines findings h)

ensure-IsDelivered :
    (n : Narrative) (findings : List Finding)
    → All (IsDelivered (ensure_anomalies_delivered n findings)) findings
unfolding ensure_anomalies_delivered
ensure-IsDelivered n findings =
    Handled-IsDelivered n (undelivered (prose n) findings) findings
      (undelivered-Handled (prose n) findings)

-- Each finding of the fact pack is delivered, whichever of the two narratives is published.
pub narrate-All :
    (line_of : DefectCandidate → Text) (groups : List RepeatGroup)
    (candidates : List DefectCandidate) (passes_spot_check : Narrative → Bool)
    (texts : FallbackTexts) (anomalies : List Text) (answer : Option Narrative)
    → All
        (IsDelivered
          (narrate passes_spot_check texts anomalies
            (critical_findings line_of groups candidates)
            answer).0)
        (critical_findings line_of groups candidates)
unfolding narrate
narrate-All line_of groups candidates passes texts anomalies none = ensure-IsDelivered _ _
narrate-All line_of groups candidates passes texts anomalies (some answer) =
    let findings = critical_findings line_of groups candidates in
    if-elim (λ (x : Narrative × Bool). All (IsDelivered x.0) findings)
      (valid_shape answer && passes (trimmed answer))
      (ensure_anomalies_delivered (trimmed answer) findings, true)
      (ensure_anomalies_delivered (build_fallback texts anomalies) findings, false)
      (λ e. ensure-IsDelivered (trimmed answer) findings)
      (λ e. ensure-IsDelivered (build_fallback texts anomalies) findings)
