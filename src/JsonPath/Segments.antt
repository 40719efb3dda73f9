-- ===== src/JsonPath/Segments.antt =====
-- The path expressions that `jsonPath` of runner/assertions.ts documents, and their tokens.
use synthwatch.Prelude.{
  ℕ, Option, none, some, true, List, [], ◌∷◌, ◌++◌, map, ◌==◌, ◌≡◌, not, all, All, refl, sym, ap,
  ◌∙◌, arith, append-nil, append_assoc, and_parts,
}
use synthwatch.Text.{Text, is_digit, is_letter, is_word}
use synthwatch.JsonPath.{
  Reading, is_name_start, is_name_code, open_token, advance, finish, and_then, tokens_from, tokens,
}

-- `.name`, `[0]` and `["key"]`; a name and an index have a first character.
pub data Segment : Type 0 where
  field : ℕ → Text → Segment
  index : ℕ → Text → Segment
  key : Text → Segment

abbrev pub text : Segment → Text
text (field c n) = c ∷ n
text (index c n) = c ∷ n
text (key k) = k

abbrev pub print_segment : Segment → Text
print_segment (field c n) = b'.' ∷ (c ∷ n)
print_segment (index c n) = b'[' ∷ (c ∷ (n ++ b']' ∷ []))
print_segment (key k) = b'[' ∷ (b'"' ∷ (k ++ b'"' ∷ (b']' ∷ [])))

abbrev pub print_path : List Segment → Text
print_path [] = []
print_path (s ∷ ss) = print_segment s ++ print_path ss

-- `$` and the segments.
abbrev pub print : List Segment → Text
print ss = b'$' ∷ print_path ss

-- A segment of the documented form; a key has no double quote.
abbrev pub IsSegment : Segment → Type 0
IsSegment (field c n) = (is_name_start c ≡ true) × (all is_name_code n ≡ true)
IsSegment (index c n) = (is_digit c ≡ true) × (all is_digit n ≡ true)
IsSegment (key k) = all (λ c. not (c == b'"')) k ≡ true

abbrev pub dquote : ℕ
dquote = b'"'

and_then-nil : (o : Option (List Text)) → and_then [] o ≡ o
and_then-nil none = refl
and_then-nil (some ts) = refl

step :
    (r r' : Reading) (c : ℕ) (ts : List Text) (cs : Text)
    → advance r c ≡ some (ts, r')
    → tokens_from r (c ∷ cs) ≡ and_then ts (tokens_from r' cs)
unfolding tokens_from
step r r' c ts cs h = rw (h, tokens_from) refl

-- A step within a token.
step_on :
    (r r' : Reading) (c : ℕ) (cs : Text)
    → advance r c ≡ some ([], r')
    → tokens_from r (c ∷ cs) ≡ tokens_from r' cs
step_on r r' c cs h = step r r' c [] cs h ∙ and_then-nil (tokens_from r' cs)

-- A name ends where the next segment begins, or at the end.
name_ends :
    (t : Text) (ss : List Segment)
    → tokens_from (Reading.name t) (print_path ss)
      ≡ and_then (t ∷ []) (tokens_from Reading.between (print_path ss))
unfolding tokens_from advance finish open_token is_name_code is_word is_letter is_digit
name_ends t [] = refl
name_ends t (field c n ∷ ss) = ap (and_then (t ∷ [])) (sym (and_then-nil _))
name_ends t (index c n ∷ ss) = ap (and_then (t ∷ [])) (sym (and_then-nil _))
name_ends t (key k ∷ ss) = ap (and_then (t ∷ [])) (sym (and_then-nil _))

snoc_shift : (t n : Text) (c : ℕ) → (t ++ c ∷ []) ++ n ≡ t ++ c ∷ n
snoc_shift t n c = append_assoc t (c ∷ []) n

name_runs :
    (t n rest : Text)
    → all is_name_code n ≡ true
    → tokens_from (Reading.name t) (n ++ rest) ≡ tokens_from (Reading.name (t ++ n)) rest
name_runs t [] rest h = rw append-nil refl
name_runs t (c ∷ n) rest h =
    step_on (Reading.name t) (Reading.name (t ++ c ∷ [])) c (n ++ rest) (on (and_parts _ _ h).0)
    ∙ name_runs (t ++ c ∷ []) n rest (and_parts _ _ h).1
    ∙ ap (λ u. tokens_from (Reading.name u) rest) (snoc_shift t n c)
  where
    on : is_name_code c ≡ true → advance (Reading.name t) c ≡ some ([], Reading.name (t ++ c ∷ []))
    on e = unfold advance in rw e refl

digits_run :
    (t n rest : Text)
    → all is_digit n ≡ true
    → tokens_from (Reading.digits t) (n ++ b']' ∷ rest)
      ≡ and_then ((t ++ n) ∷ []) (tokens_from Reading.between rest)
digits_run t [] rest h =
    step (Reading.digits t) Reading.between b']' (t ∷ []) rest (unfold advance is_digit in refl)
    ∙ ap (λ u. and_then (u ∷ []) (tokens_from Reading.between rest)) (sym (append-nil t))
digits_run t (c ∷ n) rest h =
    step_on (Reading.digits t) (Reading.digits (t ++ c ∷ [])) c (n ++ b']' ∷ rest)
      (on (and_parts _ _ h).0)
    ∙ digits_run (t ++ c ∷ []) n rest (and_parts _ _ h).1
    ∙ ap (λ u. and_then (u ∷ []) (tokens_from Reading.between rest)) (snoc_shift t n c)
  where
    on : is_digit c ≡ true → advance (Reading.digits t) c ≡ some ([], Reading.digits (t ++ c ∷ []))
    on e = unfold advance in rw e refl

quoted_runs :
    (t k rest : Text)
    → all (λ c. not (c == dquote)) k ≡ true
    → tokens_from (Reading.quoted dquote t) (k ++ dquote ∷ (b']' ∷ rest))
      ≡ and_then ((t ++ k) ∷ []) (tokens_from Reading.between rest)
quoted_runs t [] rest h =
    step_on (Reading.quoted dquote t) (Reading.closing t) dquote (b']' ∷ rest)
      (unfold advance in refl)
    ∙ step (Reading.closing t) Reading.between b']' (t ∷ []) rest (unfold advance in refl)
    ∙ ap (λ u. and_then (u ∷ []) (tokens_from Reading.between rest)) (sym (append-nil t))
quoted_runs t (c ∷ k) rest h =
    step_on (Reading.quoted dquote t) (Reading.quoted dquote (t ++ c ∷ [])) c
      (k ++ dquote ∷ (b']' ∷ rest)) (on (and_parts _ _ h).0)
    ∙ quoted_runs (t ++ c ∷ []) k rest (and_parts _ _ h).1
    ∙ ap (λ u. and_then (u ∷ []) (tokens_from Reading.between rest)) (snoc_shift t k c)
  where
    on :
        not (c == dquote) ≡ true
        → advance (Reading.quoted dquote t) c ≡ some ([], Reading.quoted dquote (t ++ c ∷ []))
    on e = unfold advance in ground arith

-- One segment, and then the rest.
segment_runs :
    (s : Segment) (ss : List Segment)
    → IsSegment s
    → tokens_from Reading.between (print_segment s ++ print_path ss)
      ≡ and_then (text s ∷ []) (tokens_from Reading.between (print_path ss))
segment_runs (field c n) ss h =
    step_on Reading.between Reading.dot b'.' ((c ∷ n) ++ print_path ss)
      (unfold advance open_token in refl)
    ∙ step_on Reading.dot (Reading.name (c ∷ [])) c (n ++ print_path ss)
        (unfold advance in rw h.0 refl)
    ∙ name_runs (c ∷ []) n (print_path ss) h.1
    ∙ name_ends (c ∷ n) ss
segment_runs (index c n) ss h =
    ap (λ z. tokens_from Reading.between (b'[' ∷ (c ∷ z)))
      (append_assoc n (b']' ∷ []) (print_path ss))
    ∙ step_on Reading.between Reading.bracket b'[' (c ∷ (n ++ b']' ∷ print_path ss))
        (unfold advance open_token in refl)
    ∙ step_on Reading.bracket (Reading.digits (c ∷ [])) c (n ++ b']' ∷ print_path ss)
        (unfold advance in rw h.0 refl)
    ∙ digits_run (c ∷ []) n (print_path ss) h.1
segment_runs (key k) ss h =
    ap (λ z. tokens_from Reading.between (b'[' ∷ (b'"' ∷ z)))
      (append_assoc k (b'"' ∷ (b']' ∷ [])) (print_path ss))
    ∙ step_on Reading.between Reading.bracket b'[' (b'"' ∷ (k ++ b'"' ∷ (b']' ∷ print_path ss)))
        (unfold advance open_token in refl)
    ∙ step_on Reading.bracket (Reading.quoted dquote []) b'"' (k ++ b'"' ∷ (b']' ∷ print_path ss))
        (unfold advance is_digit in refl)
    ∙ quoted_runs [] k (print_path ss) h

pub tokens-print_path :
    (ss : List Segment) → All IsSegment ss → tokens (print_path ss) ≡ some (map text ss)
unfolding tokens
tokens-print_path [] h = refl
tokens-print_path (s ∷ ss) h =
    segment_runs s ss h.0 ∙ ap (and_then (text s ∷ [])) (tokens-print_path ss h.1)
