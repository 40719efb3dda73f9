-- ===== src/SecretHeaders/Decryption.antt =====
-- The decryption of the headers of runner/secretHeaders.ts as a whole.
use synthwatch.Prelude.{ℕ, String, ◌≡◌, ◌≢◌, subst, refl, Option, none, some, List, [], ◌∷◌, length}
use synthwatch.CredCrypto.{Bytes, NodeCrypto, key_len, parse_aes256_key, decrypt_cred_value}
use synthwatch.CredCrypto.Refusal.{some_inj, parse_aes256_key-length}
use synthwatch.SecretHeaders.{Headers, add_header, decrypt_all, under_key, decrypt_secret_headers}

module _ (node : NodeCrypto) where
  -- Each header of `enc`, in order, with the text that its ciphertext decrypts to.
  abbrev pub AreDecrypted : Bytes → Headers → Headers → Type 0
  AreDecrypted key [] [] = Unit {0}
  AreDecrypted key [] (_ ∷ _) = ⊥
  AreDecrypted key (_ ∷ _) [] = ⊥
  AreDecrypted key ((h, c) ∷ enc) ((h', p) ∷ out) =
      (h ≡ h') × (decrypt_cred_value node c key ≡ some p) × AreDecrypted key enc out

  -- One more leaf.
  add-AreDecrypted :
      (key : Bytes) (h : String) (c : List ℕ) (enc out : Headers) (o : Option (List ℕ))
      (r : Option Headers)
      → decrypt_cred_value node c key ≡ o
      → ((rest : Headers) → r ≡ some rest → AreDecrypted key enc rest)
      → add_header h o r ≡ some out
      → AreDecrypted key ((h, c) ∷ enc) out
  unfolding add_header
  add-AreDecrypted key h c enc out none none d k e = cc
  add-AreDecrypted key h c enc out none (some rest) d k e = cc
  add-AreDecrypted key h c enc out (some p) none d k e = cc
  add-AreDecrypted key h c enc out (some p) (some rest) d k e =
      subst (AreDecrypted key ((h, c) ∷ enc)) (some_inj ((h, p) ∷ rest) out e)
        (refl, d, k rest refl)

  decrypt_all-AreDecrypted :
      (key : Bytes) (enc out : Headers)
      → decrypt_all node key enc ≡ some out
      → AreDecrypted key enc out
  unfolding decrypt_all
  decrypt_all-AreDecrypted key [] out h = subst (AreDecrypted key []) (some_inj [] out h) tt
  decrypt_all-AreDecrypted key ((header, c) ∷ enc) out h =
      add-AreDecrypted key header c enc out (decrypt_cred_value node c key)
        (decrypt_all node key enc) refl (λ rest e. decrypt_all-AreDecrypted key enc rest e) h

  -- All or nothing: when the headers of a monitor are decrypted, CRED_ENC_KEY gave a key of 32 bytes and
  -- every leaf was decrypted under it, in order and under its own name; one leaf that does not decrypt, or
  -- an unusable key, and the run has no headers at all.
  pub decrypt_secret_headers-AreDecrypted :
      (cred_enc_key : Option (List ℕ)) (enc out : Headers)
      → enc ≢ []
      → decrypt_secret_headers node cred_enc_key enc ≡ some out
      → (key : Bytes) × (parse_aes256_key node cred_enc_key ≡ some key)
        × (length key ≡ key_len)
        × AreDecrypted key enc out
  unfolding decrypt_secret_headers under_key
  decrypt_secret_headers-AreDecrypted raw [] out n h = absurd (n refl)
  decrypt_secret_headers-AreDecrypted raw (e ∷ enc) out n h =
      found (parse_aes256_key node raw) refl h
    where
      found :
          (k : Option Bytes)
          → parse_aes256_key node raw ≡ k
          → under_key node k (e ∷ enc) ≡ some out
          → (key : Bytes) × (parse_aes256_key node raw ≡ some key)
            × (length key ≡ key_len)
            × AreDecrypted key (e ∷ enc) out
      found none p t = cc
      found (some key) p t = (
        key,
        p,
        parse_aes256_key-length node raw key p,
        decrypt_all-AreDecrypted key (e ∷ enc) out t,
      )
