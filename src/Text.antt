-- ===== src/Text.antt =====
-- Strings as lists of code units, with the methods of `String` and the classes of `RegExp` that several
-- modules of runner/ use.
use synthwatch.Prelude.{
  ℕ, Option, none, some, Bool, true, false, ◌&&◌, ◌||◌, List, [], ◌∷◌, ◌++◌, if◌then◌else◌, leb,
  ◌==◌, is_some, ◌≡◌, arith, refl,
}
use synthwatch.SpecPath.{same_codes, strip_prefix}

abbrev pub Text : Type 0
Text = List ℕ

-- \s, the white space of ECMAScript.
unfoldable pub is_space : ℕ → Bool
is_space c =
    leb 9 c && leb c 13
    || leb 0x2000 c && leb c 0x200a
    || (c == 0x20 || c == 0xa0 || (c == 0x1680 || c == 0x2028 || c == 0x2029))
    || (c == 0x202f || c == 0x205f || (c == 0x3000 || c == 0xfeff))

unfoldable pub is_digit : ℕ → Bool
is_digit c = leb b'0' c && leb c b'9'

-- [A-Za-z]
unfoldable pub is_letter : ℕ → Bool
is_letter c = leb b'A' c && leb c b'Z' || leb b'a' c && leb c b'z'

-- \w
unfoldable pub is_word : ℕ → Bool
unfolding is_letter is_digit
is_word c = is_letter c || (is_digit c || c == b'_')

-- `trimStart`
unfoldable pub trim_start : Text → Text
unfolding is_space
trim_start [] = []
trim_start (c ∷ cs) = if is_space c then trim_start cs else c ∷ cs

-- One character before a text that has been trimmed at its end.
abbrev before_end : ℕ → Text → Text
unfolding is_space
before_end c [] = if is_space c then [] else c ∷ []
before_end c (d ∷ cs) = c ∷ (d ∷ cs)

-- `trimEnd`
unfoldable pub trim_end : Text → Text
unfolding before_end
trim_end [] = []
trim_end (c ∷ cs) = before_end c (trim_end cs)

-- `trim`
unfoldable pub trim : Text → Text
unfolding trim_start trim_end
trim cs = trim_end (trim_start cs)

-- `startsWith`
unfoldable pub starts_with : Text → Text → Bool
unfolding strip_prefix
starts_with cs prefix = is_some (strip_prefix prefix cs)

-- `includes`
unfoldable pub includes : Text → Text → Bool
unfolding starts_with
includes [] part = starts_with [] part
includes (c ∷ cs) part = starts_with (c ∷ cs) part || includes cs part

-- `endsWith`
unfoldable pub ends_with : Text → Text → Bool
unfolding same_codes
ends_with [] suf = same_codes suf []
ends_with (c ∷ cs) suf = same_codes suf (c ∷ cs) || ends_with cs suf

-- What stands before the first `sep`, and what stands after it.
unfoldable pub cut : ℕ → Text → Text × Option Text
cut sep [] = ([], none)
cut sep (c ∷ cs) = let rest = cut sep cs in if c == sep then ([], some cs) else (c ∷ rest.0, rest.1)

abbrev add_first : ℕ → List Text → List Text
add_first c [] = (c ∷ []) ∷ []
add_first c (part ∷ parts) = (c ∷ part) ∷ parts

-- `split` at one character.
unfoldable pub split : ℕ → Text → List Text
split sep [] = [] ∷ []
split sep (c ∷ cs) = let rest = split sep cs in if c == sep then [] ∷ rest else add_first c rest

-- Membership in a list of texts, as of `Set.has`.
unfoldable pub has_text : Text → List Text → Bool
unfolding same_codes
has_text t [] = false
has_text t (x ∷ xs) = same_codes t x || has_text t xs

-- `[...new Set(xs)]`
unfoldable pub distinct_from : List Text → List Text → List Text
unfolding has_text
distinct_from seen [] = []
distinct_from seen (x ∷ xs) =
    let rest = distinct_from (x ∷ seen) xs in
    if has_text x seen then distinct_from seen xs else x ∷ rest

-- A string ends in a suffix.
abbrev pub EndsWith : Text → Text → Type 0
EndsWith cs suf = (pre : Text) × (cs ≡ pre ++ suf)

pub same_codes_eq : (xs ys : Text) → same_codes xs ys ≡ true → xs ≡ ys
unfolding same_codes
same_codes_eq [] [] h = refl
same_codes_eq [] (y ∷ ys) h = cc
same_codes_eq (x ∷ xs) [] h = cc
same_codes_eq (x ∷ xs) (y ∷ ys) h = ground (arith, same_codes_eq xs ys)

pub same_codes_self : (xs : Text) → same_codes xs xs ≡ true
unfolding same_codes
same_codes_self [] = refl
same_codes_self (x ∷ xs) = ground (arith, same_codes_self xs)
