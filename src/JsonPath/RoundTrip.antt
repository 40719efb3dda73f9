-- ===== src/JsonPath/RoundTrip.antt =====
-- The printed path expressions of runner/assertions.ts, read back by `jsonPath`.
use synthwatch.Prelude.{
  ℕ, true, false, List, [], ◌∷◌, ◌++◌, map, ◌≡◌, all, All, refl, sym, ap, ◌∙◌, arith, append-nil,
  and_parts,
}
use synthwatch.Text.{Text, is_digit, is_letter, is_word, is_space, trim, trim_start, trim_end}
use synthwatch.JsonPath.{
  JsValues, is_name_start, is_name_code, tokens, walk, walk_tokens, json_path, drop_root,
}
use synthwatch.JsonPath.Segments.{
  Segment, field, field, index, index, key, key, text, print_segment, print_path, print, IsSegment,
  tokens-print_path,
}

-- No white space at the end.
abbrev NoTail : Text → Type 0
NoTail cs = trim_end cs ≡ cs

abbrev IsCons : Text → Type 0
IsCons [] = ⊥
IsCons (_ ∷ _) = Unit {0}

before : (c : ℕ) (cs : Text) → NoTail cs → IsCons cs → NoTail (c ∷ cs)
unfolding trim_end
before c [] h k = absurd k
before c (d ∷ cs) h k = rw h refl

IsCons-append : (xs ys : Text) → IsCons ys → IsCons (xs ++ ys)
IsCons-append [] ys h = h
IsCons-append (x ∷ xs) ys h = tt

append-NoTail : (xs ys : Text) → NoTail ys → IsCons ys → NoTail (xs ++ ys)
append-NoTail [] ys h k = h
append-NoTail (x ∷ xs) ys h k =
    before x (xs ++ ys) (append-NoTail xs ys h k) (IsCons-append xs ys k)

name_code-is_space : (c : ℕ) → is_name_code c ≡ true → is_space c ≡ false
unfolding is_name_code is_word is_letter is_digit is_space
name_code-is_space c h = ground arith

name_start-code : (c : ℕ) → is_name_start c ≡ true → is_name_code c ≡ true
unfolding is_name_code is_name_start is_word
name_start-code c h = ground arith

solid-NoTail : (c : ℕ) (cs : Text) → is_space c ≡ false → NoTail cs → NoTail (c ∷ cs)
unfolding trim_end
solid-NoTail c [] h k = rw h refl
solid-NoTail c (d ∷ cs) h k = rw k refl

names-NoTail : (n : Text) → all is_name_code n ≡ true → NoTail n
unfolding trim_end
names-NoTail [] h = refl
names-NoTail (c ∷ n) h =
    solid-NoTail c n (name_code-is_space c (and_parts _ _ h).0) (names-NoTail n (and_parts _ _ h).1)

closing-NoTail : NoTail (b']' ∷ [])
unfolding trim_end is_space
closing-NoTail = refl

segment-NoTail : (s : Segment) → IsSegment s → NoTail (print_segment s)
segment-NoTail (field c n) h =
    before b'.' (c ∷ n)
      (solid-NoTail c n (name_code-is_space c (name_start-code c h.0)) (names-NoTail n h.1)) tt
segment-NoTail (index c n) h = append-NoTail (b'[' ∷ (c ∷ n)) (b']' ∷ []) closing-NoTail tt
segment-NoTail (key k) h =
    append-NoTail (b'[' ∷ (b'"' ∷ k)) (b'"' ∷ (b']' ∷ []))
      (before b'"' (b']' ∷ []) closing-NoTail tt) tt

print_path-NoTail : (ss : List Segment) → All IsSegment ss → NoTail (print_path ss)
unfolding trim_end
print_path-NoTail [] h = refl
print_path-NoTail (s ∷ []) h =
    ap trim_end (append-nil (print_segment s))
    ∙ segment-NoTail s h.0
    ∙ sym (append-nil (print_segment s))
print_path-NoTail (s ∷ (s' ∷ ss)) h =
    append-NoTail (print_segment s) (print_path (s' ∷ ss)) (print_path-NoTail (s' ∷ ss) h.1)
      (IsCons-append' s' (print_path ss))
  where
    IsCons-append' : (s : Segment) (cs : Text) → IsCons (print_segment s ++ cs)
    IsCons-append' (field c n) cs = tt
    IsCons-append' (index c n) cs = tt
    IsCons-append' (key k) cs = tt

trim-print : (ss : List Segment) → All IsSegment ss → trim (print ss) ≡ print ss
unfolding trim trim_start is_space
trim-print ss h =
    solid-NoTail b'$' (print_path ss) (unfold is_space in refl) (print_path-NoTail ss h)

-- The round trip: for a path of documented segments, that is names, indices and double-quoted keys with no
-- double quote in them, `jsonPath` reads the printed expression as the walk along the members that the
-- segments name, from any value.
pub json_path-print :
    (js : JsValues) (root : js.Value) (ss : List Segment)
    → All IsSegment ss
    → json_path js root (print ss) ≡ walk js root (map text ss)
unfolding json_path walk_tokens
json_path-print js root ss h =
    ap (λ cs. walk_tokens js root (tokens (drop_root cs))) (trim-print ss h)
    ∙ ap (walk_tokens js root) (tokens-print_path ss h)
