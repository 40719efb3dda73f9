-- ===== src/Tests/Secrets.antt =====
-- The theorems on runner/crypto.ts and runner/secretHeaders.ts with a toy cipher, which seals by a tag of
-- 16 zeros and encodes by the identity.
use synthwatch.Prelude.{ℕ, zero, suc, some, List, [], ◌∷◌, ◌++◌, ◌≡◌, ◌≢◌, ◌⊎◌, refl}
use synthwatch.SpecPath.{codes, same_codes, strip_suffix}
use synthwatch.CredCrypto.{
  Bytes, NodeCrypto, parse_aes256_key, encrypt_cred_value, decrypt_cred_value, decrypt_parts,
  decode_text, open_envelope, split_colon, is_base64_text,
}
use synthwatch.CredCrypto.Envelope.{IsDocumented, decrypt_cred_value-encrypt_cred_value}
use synthwatch.CredCrypto.Refusal.{IsSealed, decrypt_cred_value-IsSealed}
use synthwatch.SecretHeaders.{
  Headers, add_header, decrypt_all, under_key, decrypt_secret_headers, is_first_party,
  first_party_headers,
}
use synthwatch.SecretHeaders.Scope.{EndsIn, first_party_headers-EndsIn}

abbrev zeros : ℕ → Bytes
zeros zero = []
zeros (suc n) = 0 ∷ zeros n

abbrev toy : NodeCrypto
toy = record {
  seal = λ key iv plain. (plain, zeros 16);
  unseal = λ key iv ct tag. some ct;
  base64_encode = λ b. b;
  base64_decode = λ b. b;
  utf8_encode = λ s. s;
  utf8_decode = λ b. b;
}

documented : IsDocumented toy
documented = record {
  unseal_seal = λ key iv plain hk hi. refl;
  tag_length = λ key iv plain. refl;
  base64 = λ b. refl;
}

decrypt_cred_value-encrypt_cred_value_example :
    (stored : List ℕ) × (encrypt_cred_value toy (codes "secret") (zeros 32) (zeros 12)
      ≡ some stored)
    × (decrypt_cred_value toy stored (zeros 32) ≡ some (codes "secret"))
decrypt_cred_value-encrypt_cred_value_example =
    decrypt_cred_value-encrypt_cred_value toy documented (codes "secret") (zeros 32) (zeros 12) refl
      refl refl

abbrev stored : List ℕ
stored = codes "v1:" ++ (zeros 12 ++ (codes "secret" ++ zeros 16))

decrypts : decrypt_cred_value toy stored (zeros 32) ≡ some (codes "secret")
unfolding decrypt_cred_value decrypt_parts decode_text open_envelope split_colon same_codes
decrypts = refl

decrypt_cred_value-IsSealed_example : IsSealed toy stored (zeros 32) (codes "secret")
decrypt_cred_value-IsSealed_example =
    decrypt_cred_value-IsSealed toy stored (zeros 32) (codes "secret") decrypts

-- 32 characters of the alphabet.
abbrev cred_enc_key : List ℕ
cred_enc_key = codes "AAAAAAAAAAAAAAAAAAAAAAAAAAAAAAAA"

abbrev sealed_headers : Headers
sealed_headers = ("x-token", stored) ∷ []

abbrev open_headers : Headers
open_headers = ("x-token", codes "secret") ∷ []

decrypts_headers : decrypt_secret_headers toy (some cred_enc_key) sealed_headers ≡ some open_headers
unfolding decrypt_secret_headers under_key decrypt_all add_header parse_aes256_key is_base64_text
    decrypt_cred_value decrypt_parts decode_text open_envelope split_colon same_codes
decrypts_headers = refl

is_there : sealed_headers ≢ []
is_there e = cc

abbrev same : List ℕ → List ℕ
same cs = cs

sent :
    first_party_headers same open_headers (some (codes "www.shop.com")) (some (codes "shop.com"))
    ≢ []
unfolding first_party_headers is_first_party same_codes strip_suffix
sent e = cc

first_party_headers-EndsIn_example :
    (codes "www.shop.com" ≡ codes "shop.com") ⊎ EndsIn (codes ".shop.com") (codes "www.shop.com")
first_party_headers-EndsIn_example =
    first_party_headers-EndsIn same open_headers (some (codes "www.shop.com"))
      (some (codes "shop.com")) sent
