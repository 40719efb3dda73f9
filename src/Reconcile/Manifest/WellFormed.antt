-- ===== src/Reconcile/Manifest/WellFormed.antt =====
-- The monitors of a manifest that `validateManifest` of runner/reconcile.ts accepts.
use synthwatch.Prelude.{
  ◌≤◌, String, Option, none, some, Bool, true, false, ◌&&◌, ◌||◌, List, [], ◌∷◌, ◌≡◌, All, all, leb,
  leb→le, arith, not, is_some, str_eq, eq_iff, and_parts, if-elim,
}
use synthwatch.Reconcile.{Monitor}
use synthwatch.Reconcile.Manifest.Values.{
  Json, Items, absent, null, boolean, natural, other_number, string, array, object, nil, cons, end,
  is_id, is_script, is_environment, is_seen, get,
}
use synthwatch.Reconcile.Manifest.{
  Rules, members, is_accepted, accept, validate_entry, validate_entries, validate_monitors,
  validate_manifest, is_nonempty, is_version_1, put_first, if_given, is_set, some_pattern,
}

-- What holds of a value that is given.
abbrev pub IfSet {ℓ} : {A : Type ℓ} → (A → Type 0) → Option A → Type 0
IfSet P none = Unit {0}
IfSet P (some a) = P a

-- A sensitive monitor declares a pattern.
abbrev pub Declares : Option Bool → Option (List String) → Type 0
Declares (some true) (some (_ ∷ _)) = Unit {0}
Declares (some true) _ = ⊥
Declares _ _ = Unit {0}

module _ (rules : Rules) where
  -- The invariants of the schema, for one monitor.
  pub record IsValid (m : Monitor) : Type 0 where
    pub id_ok : is_id m.id ≡ true
    pub name_least : 1 ≤ rules.length_of m.name
    pub name_most : rules.length_of m.name ≤ 120
    pub script_ok : is_script m.script ≡ true
    pub browser : m.kind ≡ "browser"
    pub patterns_compile : IfSet (λ ps. all rules.compiles ps ≡ true) m.redact_patterns
    pub redaction : Declares m.sensitive m.redact_patterns
    pub environment_ok : IfSet (λ s. is_environment s ≡ true) m.environment
    pub rewrite_ok :
        IfSet (λ o. (rules.is_origin o ≡ true) × (is_some m.target ≡ true)) m.rewrite_from_origin

  -- No id twice, and none that was seen before.
  abbrev pub AreFresh : List String → List Monitor → Type 0
  AreFresh seen [] = Unit
  AreFresh seen (m ∷ ms) = (is_seen m.id seen ≡ false) × AreFresh (m.id ∷ seen) ms

  given-IfSet :
      {A : Type 0} (P : A → Type 0) (p : A → Bool) (o : Option A)
      → ((a : A) → p a ≡ true → P a)
      → if_given p o ≡ true
      → IfSet P o
  given-IfSet P p none f h = tt
  given-IfSet P p (some a) f h = f a h

  redaction-Declares :
      (s : Option Bool) (o : Option (List String))
      → (not (is_set s) || some_pattern o) ≡ true
      → Declares s o
  redaction-Declares none o h = tt
  redaction-Declares (some false) o h = tt
  redaction-Declares (some true) none h = cc
  redaction-Declares (some true) (some []) h = cc
  redaction-Declares (some true) (some (p ∷ ps)) h = tt

  origin_parts :
      (o : String) (t : Bool)
      → (is_nonempty o && (rules.is_origin o && t)) ≡ true
      → (rules.is_origin o ≡ true) × (t ≡ true)
  origin_parts o t h = and_parts _ _ (and_parts (is_nonempty o) _ h).1

  is_accepted-IsValid : (m : Monitor) → is_accepted rules m ≡ true → IsValid m
  unfolding is_accepted
  is_accepted-IsValid m h =
      let (id, h1) = and_parts (is_id m.id) _ h in
      let (least, h2) = and_parts (leb 1 (rules.length_of m.name)) _ h1 in
      let (most, h3) = and_parts (leb (rules.length_of m.name) 120) _ h2 in
      let (script, h4) = and_parts (is_script m.script) _ h3 in
      let (kind, h5) = and_parts (str_eq m.kind "browser") _ h4 in
      let (patterns, h6) = and_parts (if_given (all rules.compiles) m.redact_patterns) _ h5 in
      let (redaction, h7) =
        and_parts (not (is_set m.sensitive) || some_pattern m.redact_patterns) _ h6 in
      let (env, h8) = and_parts (if_given is_environment m.environment) _ h7 in
      let (rewrite, h9) =
        and_parts
          (if_given (λ o. is_nonempty o && (rules.is_origin o && is_some m.target))
            m.rewrite_from_origin)
          _ h8 in
      record {
        id_ok = id;
        name_least = leb→le _ _ least;
        name_most = leb→le _ _ most;
        script_ok = script;
        browser = (eq_iff m.kind "browser").0 kind;
        patterns_compile =
            given-IfSet _ (all rules.compiles) m.redact_patterns (λ ps e. e) patterns;
        redaction = redaction-Declares m.sensitive m.redact_patterns redaction;
        environment_ok = given-IfSet _ is_environment m.environment (λ s e. e) env;
        rewrite_ok =
            given-IfSet _ (λ o. is_nonempty o && (rules.is_origin o && is_some m.target))
              m.rewrite_from_origin (λ o e. origin_parts o (is_some m.target) e) rewrite;
      }

  -- An entry that is accepted.
  abbrev IfFresh : List String → Option Monitor → Type 0
  IfFresh seen none = Unit {0}
  IfFresh seen (some m) = IsValid m × (is_seen m.id seen ≡ false)

  accept-IfFresh : (seen : List String) (o : Option Monitor) → IfFresh seen (accept rules seen o)
  unfolding accept
  accept-IfFresh seen none = tt
  accept-IfFresh seen (some m) =
      if-elim (IfFresh seen) (not (is_seen m.id seen) && is_accepted rules m) (some m) none
        (λ h.
          let (new, good) = and_parts (not (is_seen m.id seen)) (is_accepted rules m) h in
          (is_accepted-IsValid m good, unseen (is_seen m.id seen) new))
        (λ h. tt)
    where
      unseen : (b : Bool) → not b ≡ true → b ≡ false
      unseen b h = ground arith

  validate_entry-IfFresh :
      (seen : List String) (entry : Json) → IfFresh seen (validate_entry rules seen entry)
  unfolding validate_entry
  validate_entry-IfFresh seen (object e) = accept-IfFresh seen (members e)
  validate_entry-IfFresh seen (array items) = accept-IfFresh seen (members end)
  validate_entry-IfFresh seen absent = tt
  validate_entry-IfFresh seen null = tt
  validate_entry-IfFresh seen (boolean b) = tt
  validate_entry-IfFresh seen (natural n) = tt
  validate_entry-IfFresh seen other_number = tt
  validate_entry-IfFresh seen (string s) = tt

  abbrev pub AreValid : List String → Option (List Monitor) → Type 0
  AreValid seen none = Unit {0}
  AreValid seen (some ms) = All IsValid ms × AreFresh seen ms

  validate_entries-AreValid :
      (seen : List String) (items : Items) → AreValid seen (validate_entries rules seen items)
  unfolding validate_entries
  validate_entries-AreValid seen nil = (tt, tt)
  validate_entries-AreValid seen (cons entry items) =
      go (validate_entry rules seen entry) (validate_entry-IfFresh seen entry)
        (λ m. validate_entries-AreValid (m.id ∷ seen) items)
    where
      put :
          (m : Monitor) (o : Option (List Monitor))
          → IfFresh seen (some m)
          → AreValid (m.id ∷ seen) o
          → AreValid seen (put_first rules m o)
      put m none f h = tt
      put m (some ms) f h = ((f.0, h.0), (f.1, h.1))

      go :
          (o : Option Monitor)
          → IfFresh seen o
          → ((m : Monitor) → AreValid (m.id ∷ seen) (validate_entries rules (m.id ∷ seen) items))
          → AreValid seen (elim o [
            | none ↦ none
            | some m ↦ put_first rules m (validate_entries rules (m.id ∷ seen) items)
          ])
      go none f ih = tt
      go (some m) f ih = put m (validate_entries rules (m.id ∷ seen) items) f (ih m)

  validate_monitors-AreValid : (j : Json) → AreValid [] (validate_monitors rules j)
  unfolding validate_monitors
  validate_monitors-AreValid (array items) = validate_entries-AreValid [] items
  validate_monitors-AreValid (object e) = tt
  validate_monitors-AreValid absent = tt
  validate_monitors-AreValid null = tt
  validate_monitors-AreValid (boolean b) = tt
  validate_monitors-AreValid (natural n) = tt
  validate_monitors-AreValid other_number = tt
  validate_monitors-AreValid (string s) = tt

-- What the manifest's type promises: whatever JSON is fetched, each monitor of a manifest that passes the
-- validation has an id of the pattern, which no other monitor before it has, a name of 1 to 120 characters,
-- a script of the pattern and the kind `browser`; its redaction patterns compile, and if it is sensitive it
-- declares at least one; its environment is one of the three; and if it rewrites from an origin, that is an
-- origin and a target is given.
pub validate_manifest-AreValid :
    (rules : Rules) (raw : Json) → AreValid rules [] (validate_manifest rules raw)
unfolding validate_manifest
validate_manifest-AreValid rules (object m) =
    if-elim (AreValid rules []) (is_version_1 rules (get "schemaVersion" m))
      (validate_monitors rules (get "monitors" m)) none
      (λ h. validate_monitors-AreValid rules (get "monitors" m)) (λ h. tt)
validate_manifest-AreValid rules (array items) = tt
validate_manifest-AreValid rules absent = tt
validate_manifest-AreValid rules null = tt
validate_manifest-AreValid rules (boolean b) = tt
validate_manifest-AreValid rules (natural n) = tt
validate_manifest-AreValid rules other_number = tt
validate_manifest-AreValid rules (string s) = tt
