-- ===== src/LoginCredentials.antt =====
-- runner/loginCredentials.ts: the login credentials of a monitor, decrypted, published to the environment of
-- the process for one run, and cleared. A record is the list of its entries; the environment is a function.
-- The case functions of strings, Node's crypto and the reviewed allowance of source keys are arguments.
pub mod Restore
pub mod Redacted
use synthwatch.Prelude.{
  ℕ, String, Option, none, some, Bool, false, List, [], ◌∷◌, ◌++◌, if◌then◌else◌, not,
}
use synthwatch.SpecPath.{codes, same_codes}
use synthwatch.Text.{Text, has_text}
use synthwatch.CredCrypto.{NodeCrypto, parse_aes256_key}
use synthwatch.SecretHeaders.{under_key}

-- Of a role and its plaintext.
abbrev pub Credentials : Type 0
Credentials = List (Text × Text)

abbrev pub Env : Type 0
Env = Text → Option Text

-- `process.env[key] = …`, and `delete` for no value.
unfoldable pub set_env : Text → Option Text → Env → Env
set_env key value env k = if same_codes k key then value else env k

-- `CredEnvHandle`
pub record CredEnvHandle : Type 0 where
  pub key : Text
  pub prior : Option Text

-- `KnownValue`: with the generic marker, or MARKER_USERNAME.
pub data KnownValue : Type 0 where
  generic : Text → KnownValue
  username_marked : Text → KnownValue

module _ (node : NodeCrypto) where
  -- `decryptCredValue` for each role, as the loop of `decryptSecretHeaders`.
  unfoldable pub decrypt_roles :
      Option (List ℕ) → List (String × List ℕ) → Option (List (String × List ℕ))
  unfolding under_key
  decrypt_roles cred_enc_key enc = under_key node (parse_aes256_key node cred_enc_key) enc

  abbrev spell : List (String × List ℕ) → Credentials
  spell [] = []
  spell ((role, value) ∷ rest) = (codes role, value) ∷ spell rest

  abbrev spelled : Option (List (String × List ℕ)) → Option Credentials
  spelled none = none
  spelled (some resolved) = some (spell resolved)

  -- `resolveLoginCredentials`; a throw is `none`.
  unfoldable pub resolve_login_credentials :
      Option (List ℕ) → List (String × List ℕ) → Option Credentials
  unfolding decrypt_roles
  resolve_login_credentials cred_enc_key [] = some []
  resolve_login_credentials cred_enc_key (e ∷ enc) = spelled (decrypt_roles cred_enc_key (e ∷ enc))

module _ (upper lower : Text → Text) where
  -- `credentialEnvKey`
  unfoldable pub credential_env_key : Text → Text
  credential_env_key role = codes "SW_CRED_" ++ upper role

  unfoldable pub publish : Credentials → Env → List CredEnvHandle × Env
  unfolding credential_env_key set_env
  publish [] env = ([], env)
  publish ((role, value) ∷ rest) env =
      let key = credential_env_key role in
      let (handles, env') = publish rest (set_env key (some value) env) in
      (record { key = key; prior = env key } ∷ handles, env')

  -- `applyLoginCredentials`, of what was resolved; a throw publishes nothing.
  unfoldable pub apply_login_credentials :
      Option Credentials → Env → Option (List CredEnvHandle × Env)
  unfolding publish
  apply_login_credentials none env = none
  apply_login_credentials (some resolved) env = some (publish resolved env)

  -- `clearLoginCredentials`
  unfoldable pub clear_login_credentials : List CredEnvHandle → Env → Env
  unfolding set_env
  clear_login_credentials [] env = env
  clear_login_credentials (h ∷ handles) env =
      clear_login_credentials handles (set_env h.key h.prior env)

  -- IDENTIFIER_CRED_ROLE
  abbrev pub identifier_cred_role : Text
  identifier_cred_role = codes "username"

  -- `isUsernameCleartextAllowed`
  unfoldable pub is_username_cleartext_allowed : List Text → Option Text → Bool
  unfolding has_text
  is_username_cleartext_allowed allowance none = false
  is_username_cleartext_allowed allowance (some source_key) = has_text source_key allowance

  unfoldable pub redactable_from : Bool → Credentials → List KnownValue
  redactable_from cleartext [] = []
  redactable_from cleartext ((role, value) ∷ rest) =
      let out = redactable_from cleartext rest in
      if not (same_codes (lower role) identifier_cred_role)
      then generic value ∷ out
      else if not cleartext
      then username_marked value ∷ out
      else out

  -- `redactableCredValues`
  unfoldable pub redactable_cred_values : List Text → Credentials → Option Text → List KnownValue
  unfolding redactable_from is_username_cleartext_allowed
  redactable_cred_values allowance resolved source_key =
      redactable_from (is_username_cleartext_allowed allowance source_key) resolved
