-- ===== src/LoginCredentials/Restore.antt =====
-- The environment after a run of runner/loginCredentials.ts has been cleared.
use synthwatch.Prelude.{
  Option, some, Bool, true, false, ◌||◌, List, [], ◌∷◌, ◌≡◌, ◌≢◌, refl, sym, ap, ◌∙◌, if◌then◌else◌,
}
use synthwatch.SpecPath.{same_codes}
use synthwatch.Text.{Text, same_codes_eq, same_codes_self, has_text}
use synthwatch.LoginCredentials.{
  Credentials, Env, set_env, credential_env_key, publish, clear_login_credentials,
}

set_env_same :
    (key : Text) (v : Option Text) (env : Env) (k : Text)
    → same_codes k key ≡ true
    → set_env key v env k ≡ v
unfolding set_env
set_env_same key v env k e = rw e refl

set_env_other :
    (key : Text) (v : Option Text) (env : Env) (k : Text)
    → same_codes k key ≡ false
    → set_env key v env k ≡ env k
unfolding set_env
set_env_other key v env k e = rw e refl

true≢false : true ≢ false
true≢false e = cc

module _ (upper lower : Text → Text) where
  -- The names of the variables of the credentials.
  abbrev pub env_keys : Credentials → List Text
  env_keys [] = []
  env_keys ((role, value) ∷ rest) = credential_env_key upper lower role ∷ env_keys rest

  -- No two roles have the same variable.
  abbrev pub AreDistinct : List Text → Type 0
  AreDistinct [] = Unit
  AreDistinct (k ∷ ks) = (has_text k ks ≡ false) × AreDistinct ks

  clear-publish :
      (creds : Credentials) (env after : Env) (k : Text)
      → AreDistinct (env_keys creds)
      → clear_login_credentials upper lower (publish upper lower creds env).0 after k
        ≡ (if has_text k (env_keys creds) then env k else after k)
  unfolding publish clear_login_credentials has_text
  clear-publish [] env after k h = refl
  clear-publish ((role, value) ∷ rest) env after k h =
      clear-publish rest (set_env key (some value) env) (set_env key (env key) after) k h.1
      ∙ restored (same_codes k key) (has_text k (env_keys rest)) refl refl
    where
      key : Text
      key = credential_env_key upper lower role

      restored :
          (a b : Bool)
          → same_codes k key ≡ a
          → has_text k (env_keys rest) ≡ b
          → (if b then set_env key (some value) env k else set_env key (env key) after k)
            ≡ (if a || b then env k else after k)
      restored true true e f =
          absurd (
            true≢false (sym f ∙ ap (λ x. has_text x (env_keys rest)) (same_codes_eq k key e) ∙ h.0))
      restored true false e f =
          set_env_same key (env key) after k e ∙ ap env (sym (same_codes_eq k key e))
      restored false true e f = set_env_other key (some value) env k e
      restored false false e f = set_env_other key (env key) after k e

-- The environment is left as it was found: where no two roles have the same variable, after the clear each
-- variable of a credential has the value from before it was published, or none if it had none, and every
-- other variable has the one that the run has left, whatever the run has done to any of them.
pub clear_login_credentials-publish :
    (upper lower : Text → Text) (creds : Credentials) (env after : Env)
    → AreDistinct upper lower (env_keys upper lower creds)
    → (k : Text)
    → clear_login_credentials upper lower (publish upper lower creds env).0 after k
      ≡ (if has_text k (env_keys upper lower creds) then env k else after k)
clear_login_credentials-publish upper lower creds env after h k =
    clear-publish upper lower creds env after k h

-- A leak by case: where two roles have the same variable, as two that differ in case, the clear, which
-- restores them in the order in which they were published, leaves the plaintext of the first one in that
-- variable, whatever it held before and whatever the run has left.
pub clear_login_credentials_leaks :
    (upper lower : Text → Text) (role role' value value' : Text) (env after : Env)
    → credential_env_key upper lower role ≡ credential_env_key upper lower role'
    → clear_login_credentials upper lower
        (publish upper lower ((role, value) ∷ ((role', value') ∷ [])) env).0
        after
        (credential_env_key upper lower role')
      ≡ some value
unfolding publish clear_login_credentials
clear_login_credentials_leaks upper lower role role' value value' env after e =
    let key = credential_env_key upper lower role in
    let key' = credential_env_key upper lower role' in
    set_env_same key' (set_env key (some value) env key') (set_env key (env key) after) key'
      (same_codes_self key')
    ∙ set_env_same key (some value) env key' (ap (same_codes key') e ∙ same_codes_self key')
