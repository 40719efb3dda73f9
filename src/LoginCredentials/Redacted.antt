-- ===== src/LoginCredentials/Redacted.antt =====
-- Which values of the credentials of runner/loginCredentials.ts reach the redactors.
use synthwatch.Prelude.{
  Option, Bool, true, false, List, [], ◌∷◌, ◌≡◌, ◌⊎◌, inl, inr, refl, All, if◌then◌else◌, not,
}
use synthwatch.SpecPath.{same_codes}
use synthwatch.Text.{Text, same_codes_eq}
use synthwatch.LoginCredentials.{
  Credentials, KnownValue, generic, username_marked, identifier_cred_role,
  is_username_cleartext_allowed, redactable_from, redactable_cred_values,
}

abbrev pub value_of : KnownValue → Text
value_of (generic v) = v
value_of (username_marked v) = v

-- The value is among those that are to be redacted.
abbrev pub IsRegistered : Text → List KnownValue → Type 0
IsRegistered v [] = ⊥
IsRegistered v (k ∷ known) = (value_of k ≡ v) ⊎ IsRegistered v known

module _ (upper lower : Text → Text) (cleartext : Bool) where
  abbrev pub Covered : List KnownValue → Text × Text → Type 0
  Covered known (role, value) =
      IsRegistered value known
      ⊎ ((lower role ≡ identifier_cred_role upper lower) × (cleartext ≡ true))

  one_more :
      (k : KnownValue) (known : List KnownValue) (rest : Credentials)
      → All (Covered known) rest
      → All (Covered (k ∷ known)) rest
  one_more k known [] h = tt
  one_more k known ((role, value) ∷ rest) (inl r, h) = (inl (inr r), one_more k known rest h)
  one_more k known ((role, value) ∷ rest) (inr r, h) = (inr r, one_more k known rest h)

  redactable_from-Covered :
      (resolved : Credentials)
      → All (Covered (redactable_from upper lower cleartext resolved)) resolved
  unfolding redactable_from
  redactable_from-Covered [] = tt
  redactable_from-Covered ((role, value) ∷ rest) =
      choose (same_codes (lower role) (identifier_cred_role upper lower)) cleartext
        (redactable_from upper lower cleartext rest) refl refl (redactable_from-Covered rest)
    where
      choose :
          (b c : Bool) (out : List KnownValue)
          → same_codes (lower role) (identifier_cred_role upper lower) ≡ b
          → cleartext ≡ c
          → All (Covered out) rest
          → All
              (Covered (
                if not b
                then generic value ∷ out
                else if not c
                then username_marked value ∷ out
                else out))
              ((role, value) ∷ rest)
      choose false c out e k h = (inl (inl refl), one_more (generic value) out rest h)
      choose true false out e k h = (inl (inl refl), one_more (username_marked value) out rest h)
      choose true true out e k h = (inr (same_codes_eq _ _ e, k), h)

-- No credential in the clear by default: each value that a run resolves, and so each that it publishes, is
-- registered with the redactors, but for that of the role `username`, in any case, of a check whose source
-- key is in the reviewed allowance; a check with no source key has all of them registered.
pub redactable_cred_values-Covered :
    (upper lower : Text → Text) (allowance : List Text) (source_key : Option Text)
    (resolved : Credentials)
    → All
        (Covered upper lower
          (is_username_cleartext_allowed upper lower allowance source_key)
          (redactable_cred_values upper lower allowance resolved source_key))
        resolved
unfolding redactable_cred_values
redactable_cred_values-Covered upper lower allowance source_key resolved =
    redactable_from-Covered upper lower
      (is_username_cleartext_allowed upper lower allowance source_key) resolved
