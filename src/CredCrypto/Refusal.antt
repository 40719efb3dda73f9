-- ===== src/CredCrypto/Refusal.antt =====
-- What `decryptCredValue` of runner/crypto.ts accepts.
use synthwatch.Prelude.{
  ℕ, zero, suc, ◌+◌, ◌-◌, ◌≤◌, ◌≡◌, ◌||◌, ◌%◌, refl, sym, ap, ◌∙◌, Option, none, some, Bool, true,
  false, List, [], ◌∷◌, ◌++◌, length, take, drop, if◌then◌else◌, ltb, ◌==◌, not, arith, is_some,
}
use synthwatch.Text.{same_codes_eq}
use synthwatch.SpecPath.{same_codes}
use synthwatch.CredCrypto.{
  Bytes, NodeCrypto, iv_len, tag_len, key_len, cred_crypto_version, split_colon, is_base64_text,
  parse_aes256_key, open_envelope, decrypt_parts, decode_text, decrypt_cred_value,
}

take-drop : (n : ℕ) (xs : Bytes) → take n xs ++ drop n xs ≡ xs
take-drop zero xs = refl
take-drop (suc n) [] = refl
take-drop (suc n) (x ∷ xs) = ap (λ ys. x ∷ ys) (take-drop n xs)

drop_nil : (k : ℕ) → drop {A = ℕ} k [] ≡ []
drop_nil zero = refl
drop_nil (suc k) = refl

drop-drop : (m n : ℕ) (xs : Bytes) → drop m (drop n xs) ≡ drop (n + m) xs
drop-drop m zero xs = ap (λ k. drop k xs) (omega arith)
drop-drop m (suc n) [] = drop_nil m ∙ sym (drop_nil (suc n + m))
drop-drop m (suc n) (x ∷ xs) =
    drop-drop m n xs ∙ ap (λ k. drop k (x ∷ xs)) {x = suc (n + m)} {y = suc n + m} (omega arith)

length-take : (n : ℕ) (xs : Bytes) → n ≤ length xs → length (take n xs) ≡ n
length-take zero xs h = refl
length-take (suc n) [] h = omega arith
length-take (suc n) (x ∷ xs) h = omega (arith, length-take n xs)

length-drop : (n : ℕ) (xs : Bytes) → length (drop n xs) ≡ length xs - n
length-drop zero xs = omega arith
length-drop (suc n) [] = omega arith
length-drop (suc n) (x ∷ xs) = omega (arith, length-drop n xs)

pub same_number : (x y : ℕ) → (x == y) ≡ true → x ≡ y
same_number x y h = ground arith

-- The text of which two parts were split.
glue : Option (List ℕ × List ℕ) → List ℕ
glue none = []
glue (some (a, b)) = a ++ (b':' ∷ b)

abbrev extend : ℕ → List ℕ → Bool → Option (List ℕ × List ℕ) → Option (List ℕ × List ℕ)
extend c cs b o =
    if b then some ([], cs) else elim o [ none ↦ none | some (a, b) ↦ some (c ∷ a, b) ]

extend-glue :
    (c : ℕ) (cs : List ℕ) (b : Bool) (o : Option (List ℕ × List ℕ))
    → (b ≡ true → c ≡ b':')
    → (is_some o ≡ true → cs ≡ glue o)
    → is_some (extend c cs b o) ≡ true
    → c ∷ cs ≡ glue (extend c cs b o)
unfolding glue
extend-glue c cs true o e k h = ap (λ z. z ∷ cs) (e refl)
extend-glue c cs false none e k h = cc
extend-glue c cs false (some (a, r)) e k h = ap (λ zs. c ∷ zs) (k refl)

split_colon-glue : (s : List ℕ) → is_some (split_colon s) ≡ true → s ≡ glue (split_colon s)
unfolding split_colon
split_colon-glue [] h = cc
split_colon-glue (c ∷ cs) h =
    extend-glue c cs (c == b':') (split_colon cs) (same_number c b':') (split_colon-glue cs) h

abbrev parts : List ℕ → List ℕ → Option (List ℕ × List ℕ)
parts a b = some (a, b)

split_colon_sound : (s a b : List ℕ) → split_colon s ≡ parts a b → s ≡ a ++ (b':' ∷ b)
unfolding glue
split_colon_sound s a b h = split_colon-glue s (ap is_some h) ∙ ap glue h

pub if_none :
    {A : Type 0} (b : Bool) (o : Option A) (x : A)
    → (if b then none else o) ≡ some x
    → (b ≡ false) × (o ≡ some x)
if_none true o x h = cc
if_none false o x h = (refl, h)

pub if_some :
    {A : Type 0} (b : Bool) (o : Option A) (x : A)
    → (if b then o else none) ≡ some x
    → (b ≡ true) × (o ≡ some x)
if_some true o x h = (refl, h)
if_some false o x h = cc

pub some_inj : {A : Type 0} (x y : A) → some x ≡ some y → x ≡ y
some_inj x y h = ap (λ o. elim o [ none ↦ x | some z ↦ z ]) h

-- An envelope that is long enough is an IV, a ciphertext and a tag.
slices :
    (buf : Bytes)
    → iv_len + tag_len ≤ length buf
    → take iv_len buf
        ++ (take (length buf - (iv_len + tag_len)) (drop iv_len buf)
            ++ drop (length buf - tag_len) buf)
      ≡ buf
slices buf h =
    let n = length buf - (iv_len + tag_len) in
    ap (λ t. take iv_len buf ++ (take n (drop iv_len buf) ++ t))
      (ap (λ k. drop k buf) {x = length buf - tag_len} {y = iv_len + n} (omega arith)
        ∙ sym (drop-drop n iv_len buf))
    ∙ ap (λ t. take iv_len buf ++ t) (take-drop n (drop iv_len buf))
    ∙ take-drop iv_len buf

at_least : (n : ℕ) → ltb n (iv_len + tag_len) ≡ false → iv_len + tag_len ≤ n
at_least n h = ground arith

module _ (node : NodeCrypto) where
  -- What a stored value is that decrypts to `plaintext` under `key`.
  pub record IsSealed (stored : List ℕ) (key : Bytes) (plaintext : List ℕ) : Type 0 where
    pub rest : List ℕ
    pub iv : Bytes
    pub ct : Bytes
    pub tag : Bytes
    pub plain : Bytes
    pub versioned : stored ≡ cred_crypto_version ++ (b':' ∷ rest)
    pub envelope : node.base64_decode rest ≡ iv ++ (ct ++ tag)
    pub iv_length : length iv ≡ iv_len
    pub tag_length : length tag ≡ tag_len
    pub authentic : node.unseal key iv ct tag ≡ some plain
    pub text : node.utf8_decode plain ≡ plaintext

  from_plain :
      (stored rest : List ℕ) (key : Bytes) (plaintext : List ℕ)
      → stored ≡ cred_crypto_version ++ (b':' ∷ rest)
      → (o : Option Bytes) → open_envelope node (node.base64_decode rest) key ≡ o
      → decode_text node o ≡ some plaintext
      → IsSealed stored key plaintext
  unfolding open_envelope decode_text
  from_plain stored rest key plaintext v none e h = cc
  from_plain stored rest key plaintext v (some plain) e h =
      let buf = node.base64_decode rest in
      let (long, authentic) = if_none (ltb (length buf) (iv_len + tag_len)) _ plain e in
      let enough = at_least (length buf) long in
      record {
        rest = rest;
        iv = take iv_len buf;
        ct = take (length buf - (iv_len + tag_len)) (drop iv_len buf);
        tag = drop (length buf - tag_len) buf;
        plain = plain;
        versioned = v;
        envelope = sym (slices buf enough);
        iv_length = length-take iv_len buf (omega (arith, enough));
        tag_length = length-drop (length buf - tag_len) buf ∙ omega (arith, enough);
        authentic = authentic;
        text = some_inj (node.utf8_decode plain) plaintext h;
      }

  from_parts :
      (stored : List ℕ) (key : Bytes) (plaintext : List ℕ) (o : Option (List ℕ × List ℕ))
      → split_colon stored ≡ o
      → decrypt_parts node o key ≡ some plaintext
      → IsSealed stored key plaintext
  unfolding decrypt_parts
  from_parts stored key plaintext none e h = cc
  from_parts stored key plaintext (some (version, rest)) e h =
      let (same, opened) = if_some (same_codes version cred_crypto_version) _ plaintext h in
      from_plain stored rest key plaintext
        (split_colon_sound stored version rest e
          ∙ ap (λ v. v ++ (b':' ∷ rest)) (same_codes_eq version cred_crypto_version same))
        (open_envelope node (node.base64_decode rest) key) refl opened

  -- Fail closed: whatever Node answers, a stored value that `decryptCredValue` decrypts has the version
  -- prefix, and its envelope is an IV of 12 bytes, a ciphertext and a tag of 16, which the cipher has
  -- authenticated to the very bytes of the text.
  pub decrypt_cred_value-IsSealed :
      (stored : List ℕ) (key : Bytes) (plaintext : List ℕ)
      → decrypt_cred_value node stored key ≡ some plaintext
      → IsSealed stored key plaintext
  unfolding decrypt_cred_value
  decrypt_cred_value-IsSealed stored key plaintext h =
      from_parts stored key plaintext (split_colon stored) refl h

  -- A key that is parsed has 32 bytes.
  pub parse_aes256_key-length :
      (raw : Option (List ℕ)) (key : Bytes)
      → parse_aes256_key node raw ≡ some key
      → length key ≡ key_len
  unfolding parse_aes256_key
  parse_aes256_key-length none key h = cc
  parse_aes256_key-length (some raw) key h =
      let (a, h2) = if_none (length raw == 0) _ key h in
      let (b, h3) = if_none (not (length raw % 4 == 0) || not (is_base64_text raw)) _ key h2 in
      let (c, h4) = if_some (length (node.base64_decode raw) == key_len) _ key h3 in
      ap length (sym (some_inj (node.base64_decode raw) key h4))
      ∙ same_number (length (node.base64_decode raw)) key_len c
