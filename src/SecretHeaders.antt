-- ===== src/SecretHeaders.antt =====
-- runner/secretHeaders.ts: the decryption of a monitor's headers and the hosts that get them. A record of
-- strings is the list of its entries. CRED_ENC_KEY, the host of a request and `toLowerCase` are arguments.
pub mod Scope
pub mod Decryption
use synthwatch.Prelude.{
  ℕ, String, Option, none, some, Bool, true, false, ◌&&◌, ◌||◌, List, [], ◌∷◌, if◌then◌else◌, not,
  is_some,
}
use synthwatch.SpecPath.{same_codes, strip_suffix}
use synthwatch.CredCrypto.{Bytes, NodeCrypto, parse_aes256_key, decrypt_cred_value}

-- `SecretHeaderValues`, or the decrypted values.
abbrev pub Headers : Type 0
Headers = List (String × List ℕ)

-- The rest of `decryptSecretHeaders` after one leaf.
unfoldable pub add_header : String → Option (List ℕ) → Option Headers → Option Headers
add_header header (some value) (some rest) = some ((header, value) ∷ rest)
add_header header _ _ = none

module _ (node : NodeCrypto) where
  unfoldable pub decrypt_all : Bytes → Headers → Option Headers
  unfolding add_header
  decrypt_all key [] = some []
  decrypt_all key ((header, ciphertext) ∷ enc) =
      add_header header (decrypt_cred_value node ciphertext key) (decrypt_all key enc)

  unfoldable pub under_key : Option Bytes → Headers → Option Headers
  unfolding decrypt_all
  under_key none enc = none
  under_key (some key) enc = decrypt_all key enc

  -- `decryptSecretHeaders`
  unfoldable pub decrypt_secret_headers : Option (List ℕ) → Headers → Option Headers
  unfolding under_key
  decrypt_secret_headers cred_enc_key [] = some []
  decrypt_secret_headers cred_enc_key (e ∷ enc) =
      under_key (parse_aes256_key node cred_enc_key) (e ∷ enc)

-- `!x` on a string or null.
abbrev pub is_absent : Option (List ℕ) → Bool
is_absent none = true
is_absent (some []) = true
is_absent (some (_ ∷ _)) = false

abbrev pub text_of : Option (List ℕ) → List ℕ
text_of none = []
text_of (some cs) = cs

module _ (lower : List ℕ → List ℕ) where
  -- `isFirstParty`
  unfoldable pub is_first_party : Option (List ℕ) → Option (List ℕ) → Bool
  is_first_party host target =
      let h = lower (text_of host) in
      let t = lower (text_of target) in
      not (is_absent host || is_absent target)
      && (same_codes h t || is_some (strip_suffix (b'.' ∷ t) h))

  -- `firstPartyHeaders`, by the host of the request.
  unfoldable pub first_party_headers : Headers → Option (List ℕ) → Option (List ℕ) → Headers
  unfolding is_first_party
  first_party_headers [] request_host target_host = []
  first_party_headers (v ∷ values) request_host target_host =
      if not (is_first_party request_host target_host) then [] else v ∷ values
