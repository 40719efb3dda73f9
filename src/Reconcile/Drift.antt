-- ===== src/Reconcile/Drift.antt =====
-- `computeDrift` of runner/reconcile.ts.
use synthwatch.Prelude.{
  String, Option, none, some, Bool, true, false, not, List, [], ◌∷◌, ◌++◌, if◌then◌else◌, str_eq,
  is_some, all, ◌≡◌, refl, arith,
}
use synthwatch.SpecPath.{flow_name_for}
use synthwatch.EnvDomain.{UrlParser, EnvDomainRule, resolve_environment}
use synthwatch.Reconcile.{
  Monitor, ManagedCheck, Column, name, kind, target_url, flow_name, sensitive, redact_patterns,
  environment, rewrite_from_origin, Value, text, chars, flag, json, text_or_null, chars_or_null,
  or_false,
}
use synthwatch.Reconcile.Equality.{text_eq, patterns_eq, opt_codes_eq, bool_eq}

pub data DriftType : Type 0 where
  new changed missing orphan redaction_mismatch : DriftType

-- One entry of `detail.fields`.
pub record FieldDiff : Type 0 where
  pub column : Column
  pub git : Value
  pub live : Value

-- A drift row; the other texts of `detail` are left out.
pub record DriftRow : Type 0 where
  pub source_key : String
  pub drift_type : DriftType
  pub fields : List FieldDiff

abbrev pub diff_if : Bool → Column → Value → Value → List FieldDiff
diff_if b column git live =
    if b then record { column = column; git = git; live = live } ∷ [] else []

-- `new Map(…).get(key)`: the last entry of a key wins.
pub find_last {ℓ} : {A : Type ℓ} → (A → Bool) → List A → Option A
find_last p [] = none
find_last p (x ∷ xs) = elim (find_last p xs) [
  | none ↦ if p x then some x else none
  | some y ↦ some y
]

abbrev pub passes {ℓ} : {A : Type ℓ} → (A → Bool) → Option A → Bool
passes q none = true
passes q (some x) = q x

-- A test that all elements pass, the element found passes.
pub passes-find_last {ℓ} :
    {A : Type ℓ} (p q : A → Bool) (xs : List A) → all q xs ≡ true → passes q (find_last p xs) ≡ true
unfolding find_last
passes-find_last p q [] hq = refl
passes-find_last p q (y ∷ ys) hq = ground (arith, passes-find_last p q ys)

pub by_key : List ManagedCheck → String → Option ManagedCheck
unfolding find_last
by_key managed key = find_last (λ c. str_eq c.source_key key) managed

pub by_id : List Monitor → String → Option Monitor
unfolding find_last
by_id monitors id = find_last (λ m. str_eq m.id id) monitors

pub passes-by_id :
    (q : Monitor → Bool) (monitors : List Monitor) (id : String)
    → all q monitors ≡ true
    → passes q (by_id monitors id) ≡ true
unfolding by_id
passes-by_id q monitors id h = passes-find_last (λ m. str_eq m.id id) q monitors h

-- `m.target !== undefined && existing.target_url !== m.target`
abbrev pub target_differs : Option String → String → Bool
target_differs none live = false
target_differs (some t) live = not (str_eq live t)

abbrev pub row_if : Bool → String → DriftType → List FieldDiff → List DriftRow
row_if b key type fields =
    if b then record { source_key = key; drift_type = type; fields = fields } ∷ [] else []

abbrev pub is_nonempty {ℓ} : {A : Type ℓ} → List A → Bool
is_nonempty [] = false
is_nonempty (_ ∷ _) = true

-- The redaction diff.
unfoldable pub redaction_fields : Monitor → ManagedCheck → List FieldDiff
redaction_fields m c =
    diff_if (not (bool_eq (or_false m.sensitive) c.sensitive)) sensitive
      (flag (or_false m.sensitive)) (flag c.sensitive)
    ++ diff_if (not (patterns_eq m.redact_patterns c.redact_patterns)) redact_patterns
        (json m.redact_patterns) (json c.redact_patterns)

-- A probe's answer for a spec path, `probe?.runnable`.
abbrev pub SpecRunnability : Type 0
SpecRunnability = String → Option Bool

abbrev pub probe_ok : Option Bool → Bool
probe_ok none = false
probe_ok (some b) = b

module _ (u : UrlParser) (env_map : List EnvDomainRule) where
  -- The manifest's environment for a monitor.
  abbrev pub git_environment : Monitor → String
  git_environment m = resolve_environment u m.environment m.target env_map

  -- The diff over the git-authoritative columns other than the redaction pair.
  unfoldable pub changed_fields : Monitor → ManagedCheck → List FieldDiff
  changed_fields m c =
      diff_if (not (str_eq c.name m.name)) name (text m.name) (text c.name)
      ++ (diff_if (not (str_eq c.kind m.kind)) kind (text m.kind) (text c.kind)
          ++ (diff_if (target_differs m.target c.target_url) target_url (text_or_null m.target)
                (text c.target_url)
              ++ (diff_if (not (opt_codes_eq c.flow_name (flow_name_for m.script))) flow_name
                    (chars (flow_name_for m.script)) (chars_or_null c.flow_name)
                  ++ (diff_if (not (str_eq c.environment (git_environment m))) environment
                        (text (git_environment m)) (text c.environment)
                      ++ diff_if (not (text_eq c.rewrite_from_origin m.rewrite_from_origin))
                          rewrite_from_origin (text_or_null m.rewrite_from_origin)
                          (text_or_null c.rewrite_from_origin)))))

  pub drift_of_existing : Monitor → Option ManagedCheck → List DriftRow
  drift_of_existing m none = record { source_key = m.id; drift_type = new; fields = [] } ∷ []
  drift_of_existing m (some c) =
      row_if (is_nonempty (changed_fields m c)) m.id changed (changed_fields m c)
      ++ row_if (is_nonempty (redaction_fields m c)) m.id redaction_mismatch (redaction_fields m c)

  -- The loop over the monitors.
  pub drift_of_monitors : List ManagedCheck → SpecRunnability → List Monitor → List DriftRow
  drift_of_monitors managed probes [] = []
  drift_of_monitors managed probes (m ∷ ms) =
      row_if (not (probe_ok (probes m.script))) m.id orphan []
      ++ (drift_of_existing m (by_key managed m.id) ++ drift_of_monitors managed probes ms)

  -- The loop over the managed checks.
  pub drift_of_missing : List Monitor → List ManagedCheck → List DriftRow
  drift_of_missing monitors [] = []
  drift_of_missing monitors (c ∷ cs) =
      row_if (not (is_some (by_id monitors c.source_key))) c.source_key missing []
      ++ drift_of_missing monitors cs

  -- `computeDrift`
  pub compute_drift : List Monitor → List ManagedCheck → SpecRunnability → List DriftRow
  compute_drift monitors managed probes =
      drift_of_monitors managed probes monitors ++ drift_of_missing monitors managed
