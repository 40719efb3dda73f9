-- ===== src/SecretHeaders/Scope.antt =====
-- Which requests get the secret headers of runner/secretHeaders.ts.
use synthwatch.Prelude.{
  ℕ, ◌≡◌, ◌⊎◌, ◌≢◌, inl, inr, Bool-cases, refl, sym, ap, Option, none, some, Bool, true, false,
  ◌&&◌, ◌||◌, List, [], ◌∷◌, ◌++◌, if◌then◌else◌, not, is_some, arith,
}
use synthwatch.SpecPath.{same_codes, strip_suffix, push}
use synthwatch.Text.{same_codes_eq}
use synthwatch.SecretHeaders.{Headers, is_absent, text_of, is_first_party, first_party_headers}

-- A string ends in a suffix.
abbrev pub EndsIn : List ℕ → List ℕ → Type 0
EndsIn suf xs = (pre : List ℕ) × (xs ≡ pre ++ suf)

whole-EndsIn :
    (suf xs : List ℕ) (b : Bool) (o : Option (List ℕ))
    → same_codes suf xs ≡ b
    → (is_some o ≡ true → EndsIn suf xs)
    → is_some (if b then some [] else o) ≡ true
    → EndsIn suf xs
whole-EndsIn suf xs true o e k h = ([], sym (same_codes_eq suf xs e))
whole-EndsIn suf xs false o e k h = k h

strip_suffix-EndsIn : (suf xs : List ℕ) → is_some (strip_suffix suf xs) ≡ true → EndsIn suf xs
unfolding strip_suffix
strip_suffix-EndsIn suf [] h = whole-EndsIn suf [] (same_codes suf []) none refl (λ k. cc) h
strip_suffix-EndsIn suf (x ∷ xs) h =
    whole-EndsIn suf (x ∷ xs) (same_codes suf (x ∷ xs)) _ refl
      (λ k.
        let (pre, e) = strip_suffix-EndsIn suf xs (unpush x (strip_suffix suf xs) k) in
        (x ∷ pre, ap (λ zs. x ∷ zs) e))
      h
  where
    unpush : (x : ℕ) (o : Option (List ℕ)) → is_some (push x o) ≡ true → is_some o ≡ true
    unpush x none k = k
    unpush x (some zs) k = refl

module _ (lower : List ℕ → List ℕ) (host target : Option (List ℕ)) where
  first_party-EndsIn :
      is_first_party lower host target ≡ true
      → (lower (text_of host) ≡ lower (text_of target))
        ⊎ EndsIn (b'.' ∷ lower (text_of target)) (lower (text_of host))
  unfolding is_first_party
  first_party-EndsIn h =
      elim (Bool-cases (same_codes (lower (text_of host)) (lower (text_of target)))) [
        | inl e ↦ inl (same_codes_eq (lower (text_of host)) (lower (text_of target)) e)
        | inr e ↦ inr (
            strip_suffix-EndsIn (b'.' ∷ lower (text_of target)) (lower (text_of host))
              (suffix_of (not (is_absent host || is_absent target)) _ _ e h))
      ]
    where
      suffix_of : (a b c : Bool) → b ≡ false → (a && (b || c)) ≡ true → c ≡ true
      suffix_of a b c e k = ground arith

-- No leak by a look-alike: whatever `toLowerCase` does, headers are only sent with a request whose host is
-- the target's, or ends in a dot and the target's host, up to case.
pub first_party_headers-EndsIn :
    (lower : List ℕ → List ℕ) (values : Headers) (host target : Option (List ℕ))
    → first_party_headers lower values host target ≢ []
    → (lower (text_of host) ≡ lower (text_of target))
      ⊎ EndsIn (b'.' ∷ lower (text_of target)) (lower (text_of host))
unfolding first_party_headers
first_party_headers-EndsIn lower [] host target h = absurd (h refl)
first_party_headers-EndsIn lower (v ∷ values) host target h =
    elim (Bool-cases (is_first_party lower host target)) [
      | inl y ↦ first_party-EndsIn lower host target y
      | inr n ↦ absurd (h (rw n refl))
    ]
