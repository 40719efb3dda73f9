-- ===== src/CredCrypto/Envelope.antt =====
-- The round trip of the credential envelope of runner/crypto.ts, and what it refuses.
use synthwatch.Prelude.{
  ℕ, ◌+◌, ◌-◌, ◌≡◌, refl, sym, ap, ◌∙◌, subst, some, false, List, ◌∷◌, ◌++◌, length, take, drop,
  take-append, drop-append, length-append, append_assoc, ltb, arith,
}
use synthwatch.SpecPath.{same_codes}
use synthwatch.CredCrypto.{
  Bytes, NodeCrypto, iv_len, tag_len, key_len, cred_crypto_version, split_colon, encrypt_cred_value,
  open_envelope, decrypt_parts, decode_text, decrypt_cred_value,
}

-- What Node documents of AES-256-GCM with a tag of 16 bytes, and of base64.
pub record IsDocumented (node : NodeCrypto) : Type 0 where
  pub unseal_seal :
      (key iv plain : Bytes)
      → length key ≡ key_len
      → length iv ≡ iv_len
      → node.unseal key iv (node.seal key iv plain).0 (node.seal key iv plain).1 ≡ some plain
  pub tag_length : (key iv plain : Bytes) → length (node.seal key iv plain).1 ≡ tag_len
  pub base64 : (b : Bytes) → node.base64_decode (node.base64_encode b) ≡ b

take_at : (n : ℕ) (xs ys : Bytes) → length xs ≡ n → take n (xs ++ ys) ≡ xs
take_at n xs ys e = subst (λ k. take k (xs ++ ys) ≡ xs) e (take-append xs ys)

drop_at : (n : ℕ) (xs ys : Bytes) → length xs ≡ n → drop n (xs ++ ys) ≡ ys
drop_at n xs ys e = subst (λ k. drop k (xs ++ ys) ≡ ys) e (drop-append xs ys)

size :
    (iv ct tag : Bytes)
    → length iv ≡ iv_len
    → length tag ≡ tag_len
    → length (iv ++ (ct ++ tag)) ≡ iv_len + (length ct + tag_len)
size iv ct tag hi ht = omega (arith, length-append iv (ct ++ tag), length-append ct tag, hi, ht)

long_enough :
    (iv ct tag : Bytes)
    → length iv ≡ iv_len
    → length tag ≡ tag_len
    → ltb (length (iv ++ (ct ++ tag))) (iv_len + tag_len) ≡ false
long_enough iv ct tag hi ht = ground (arith, size iv ct tag hi ht)

tag_at :
    (iv ct tag : Bytes)
    → length iv ≡ iv_len
    → length tag ≡ tag_len
    → drop (length (iv ++ (ct ++ tag)) - tag_len) (iv ++ (ct ++ tag)) ≡ tag
tag_at iv ct tag hi ht =
    ap (drop (length (iv ++ (ct ++ tag)) - tag_len)) (sym (append_assoc iv ct tag))
    ∙ drop_at _ (iv ++ ct) tag (omega (arith, size iv ct tag hi ht, length-append iv ct, hi))

ct_at :
    (iv ct tag : Bytes)
    → length iv ≡ iv_len
    → length tag ≡ tag_len
    → take (length (iv ++ (ct ++ tag)) - (iv_len + tag_len)) (drop iv_len (iv ++ (ct ++ tag))) ≡ ct
ct_at iv ct tag hi ht =
    ap (take (length (iv ++ (ct ++ tag)) - (iv_len + tag_len))) (drop_at iv_len iv (ct ++ tag) hi)
    ∙ take_at _ ct tag (omega (arith, size iv ct tag hi ht))

module _ (node : NodeCrypto) where
  -- The three slices of an envelope.
  open_parts :
      (key iv ct tag : Bytes)
      → length iv ≡ iv_len
      → length tag ≡ tag_len
      → open_envelope node (iv ++ (ct ++ tag)) key ≡ node.unseal key iv ct tag
  unfolding open_envelope
  open_parts key iv ct tag hi ht =
      rw
        (
          long_enough iv ct tag hi ht,
          ct_at iv ct tag hi ht,
          tag_at iv ct tag hi ht,
          take_at iv_len iv (ct ++ tag) hi,
        )
        refl

  -- The round trip: with a key of 32 bytes and an IV of 12, for a text that UTF-8 encodes faithfully, what
  -- `encryptCredValue` stores is decrypted by `decryptCredValue` to the text.
  pub decrypt_cred_value-encrypt_cred_value :
      IsDocumented node
      → (plaintext : List ℕ) (key iv : Bytes) → length key ≡ key_len
      → length iv ≡ iv_len
      → node.utf8_decode (node.utf8_encode plaintext) ≡ plaintext
      → (stored : List ℕ) × (encrypt_cred_value node plaintext key iv ≡ some stored)
        × (decrypt_cred_value node stored key ≡ some plaintext)
  unfolding encrypt_cred_value decrypt_cred_value decrypt_parts split_colon decode_text same_codes
  decrypt_cred_value-encrypt_cred_value doc plaintext key iv hk hi hu =
      let sealed = node.seal key iv (node.utf8_encode plaintext) in
      let buf = iv ++ (sealed.0 ++ sealed.1) in
      (
        cred_crypto_version ++ (b':' ∷ node.base64_encode buf),
        ground arith,
        ap (λ b. decode_text node (open_envelope node b key)) (doc.base64 buf)
            ∙ ap (decode_text node) (
                open_parts key iv sealed.0 sealed.1 hi
                  (doc.tag_length key iv (node.utf8_encode plaintext))
                ∙ doc.unseal_seal key iv (node.utf8_encode plaintext) hk hi)
            ∙ ap some hu,
      )
