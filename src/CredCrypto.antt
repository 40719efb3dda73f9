-- ===== src/CredCrypto.antt =====
-- runner/crypto.ts: the envelope of an encrypted credential. A string is the list of its code units and a
-- buffer the list of its bytes. The cipher and the encodings of Node are an argument. A throw is `none`.
pub mod Envelope
pub mod Refusal
use synthwatch.Prelude.{
  ℕ, ◌+◌, ◌-◌, ◌%◌, Option, none, some, Bool, true, false, ◌&&◌, ◌||◌, List, [], ◌∷◌, ◌++◌, length,
  take, drop, all, if◌then◌else◌, ltb, leb, ◌==◌, not,
}
use synthwatch.SpecPath.{same_codes}

abbrev pub Bytes : Type 0
Bytes = List ℕ

-- What the source uses of node:crypto and of Buffer.
pub record NodeCrypto : Type 0 where
  pub seal : Bytes → Bytes → Bytes → Bytes × Bytes
  pub unseal : Bytes → Bytes → Bytes → Bytes → Option Bytes
  pub base64_encode : Bytes → List ℕ
  pub base64_decode : List ℕ → Bytes
  pub utf8_encode : List ℕ → Bytes
  pub utf8_decode : Bytes → List ℕ

-- IV_LEN, TAG_LEN and KEY_LEN
abbrev pub iv_len : ℕ
iv_len = 12

abbrev pub tag_len : ℕ
tag_len = 16

abbrev pub key_len : ℕ
key_len = 32

-- CRED_CRYPTO_VERSION
abbrev pub cred_crypto_version : List ℕ
cred_crypto_version = b'v' ∷ b'1' ∷ []

-- [A-Za-z0-9+/]
abbrev pub is_base64_code : ℕ → Bool
is_base64_code c =
    leb b'A' c && leb c b'Z'
    || leb b'a' c && leb c b'z'
    || (leb b'0' c && leb c b'9' || (c == b'+' || c == b'/'))

-- ={0,2}$
abbrev pub is_padding : List ℕ → Bool
is_padding cs = leb (length cs) 2 && all (λ c. c == b'=') cs

-- [A-Za-z0-9+/]*={0,2}$
unfoldable pub is_base64_rest : List ℕ → Bool
is_base64_rest [] = true
is_base64_rest (c ∷ cs) =
    let rest = is_base64_rest cs in if is_base64_code c then rest else is_padding (c ∷ cs)

-- ^[A-Za-z0-9+/]+={0,2}$
unfoldable pub is_base64_text : List ℕ → Bool
unfolding is_base64_rest
is_base64_text [] = false
is_base64_text (c ∷ cs) = is_base64_code c && is_base64_rest cs

-- What stands before the first `:` and after it.
unfoldable pub split_colon : List ℕ → Option (List ℕ × List ℕ)
split_colon [] = none
split_colon (c ∷ cs) =
    let rest = split_colon cs in
    if c == b':' then some ([], cs) else elim rest [ none ↦ none | some (a, b) ↦ some (c ∷ a, b) ]

module _ (node : NodeCrypto) where
  -- `parseAes256Key`
  unfoldable pub parse_aes256_key : Option (List ℕ) → Option Bytes
  unfolding is_base64_text
  parse_aes256_key none = none
  parse_aes256_key (some raw) =
      if length raw == 0
      then none
      else if not (length raw % 4 == 0) || not (is_base64_text raw)
      then none
      else if length (node.base64_decode raw) == key_len
      then some (node.base64_decode raw)
      else none

  -- `encryptCredValue` with the IV of the call.
  unfoldable pub encrypt_cred_value : List ℕ → Bytes → Bytes → Option (List ℕ)
  encrypt_cred_value plaintext key iv =
      let sealed = node.seal key iv (node.utf8_encode plaintext) in
      if length iv == iv_len
      then some (cred_crypto_version ++ (b':' ∷ node.base64_encode (iv ++ (sealed.0 ++ sealed.1))))
      else none

  -- The envelope of `decryptCredValue`: `subarray` by the two lengths.
  unfoldable pub open_envelope : Bytes → Bytes → Option Bytes
  open_envelope buf key =
      if ltb (length buf) (iv_len + tag_len)
      then none
      else node.unseal key (take iv_len buf)
          (take (length buf - (iv_len + tag_len)) (drop iv_len buf))
          (drop (length buf - tag_len) buf)

  unfoldable pub decode_text : Option Bytes → Option (List ℕ)
  decode_text none = none
  decode_text (some b) = some (node.utf8_decode b)

  unfoldable pub decrypt_parts : Option (List ℕ × List ℕ) → Bytes → Option (List ℕ)
  unfolding open_envelope decode_text same_codes
  decrypt_parts none key = none
  decrypt_parts (some (version, rest)) key =
      if same_codes version cred_crypto_version
      then decode_text (open_envelope (node.base64_decode rest) key)
      else none

  -- `decryptCredValue`
  unfoldable pub decrypt_cred_value : List ℕ → Bytes → Option (List ℕ)
  unfolding decrypt_parts split_colon
  decrypt_cred_value stored key = decrypt_parts (split_colon stored) key
