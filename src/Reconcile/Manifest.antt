-- ===== src/Reconcile/Manifest.antt =====
-- `validateManifest` of runner/reconcile.ts, over a parsed JSON value. The length of a string, the regular
-- expressions that compile and the origins that `parseOrigin` accepts are arguments. A throw is `none`.
pub mod Values
pub mod WellFormed
use synthwatch.Prelude.{
  ℕ, String, Option, none, some, Bool, true, false, ◌&&◌, ◌||◌, List, [], ◌∷◌, if◌then◌else◌, leb,
  ◌==◌, not, all, str_eq, is_some,
}
use synthwatch.Reconcile.{Monitor}
use synthwatch.Reconcile.Manifest.Values.{
  natural, array, object, nil, cons, end, Json, Items, Fields, get, is_id, is_script,
  is_environment, is_seen, optional_text, optional_flag, optional_interval, optional_texts,
  required_text,
}

-- The members of an entry, each of its type.
unfoldable pub members : Fields → Option Monitor
unfolding get required_text optional_text optional_flag optional_interval optional_texts
members e = elim (required_text (get "id" e)) [
  | none ↦ none
  | some id ↦ elim (required_text (get "name" e)) [
    | none ↦ none
    | some name ↦ elim (required_text (get "script" e)) [
      | none ↦ none
      | some script ↦ elim (required_text (get "kind" e)) [
        | none ↦ none
        | some kind ↦ elim (optional_interval (get "suggestedIntervalSeconds" e)) [
          | none ↦ none
          | some interval ↦ elim (optional_texts (get "tags" e)) [
            | none ↦ none
            | some tags ↦ elim (optional_text (get "target" e)) [
              | none ↦ none
              | some target ↦ elim (optional_flag (get "enabledByDefault" e)) [
                | none ↦ none
                | some enabled ↦ elim (optional_text (get "description" e)) [
                  | none ↦ none
                  | some description ↦ elim (optional_flag (get "sensitive" e)) [
                    | none ↦ none
                    | some sensitive ↦ elim (optional_texts (get "redact_patterns" e)) [
                      | none ↦ none
                      | some patterns ↦ elim (optional_text (get "environment" e)) [
                        | none ↦ none
                        | some environment ↦ elim (optional_text (get "rewrite_from_origin" e)) [
                          | none ↦ none
                          | some origin ↦ elim (optional_text (get "redtest_anchor" e)) [
                            | none ↦ none
                            | some anchor ↦ some (record {
                              id = id;
                              name = name;
                              script = script;
                              kind = kind;
                              suggested_interval_seconds = interval;
                              target = target;
                              enabled_by_default = enabled;
                              sensitive = sensitive;
                              redact_patterns = patterns;
                              environment = environment;
                              rewrite_from_origin = origin;
                              redtest_anchor = anchor;
                            })
                          ]
                        ]
                      ]
                    ]
                  ]
                ]
              ]
            ]
          ]
        ]
      ]
    ]
  ]
]

-- What the checks of the values need.
pub record Rules : Type 0 where
  pub length_of : String → ℕ
  pub compiles : String → Bool
  pub is_origin : String → Bool

abbrev pub is_nonempty : String → Bool
is_nonempty String.[] = false
is_nonempty (String.◌∷◌ c s) = true

abbrev pub if_given {ℓ} : {A : Type ℓ} → (A → Bool) → Option A → Bool
if_given p none = true
if_given p (some a) = p a

abbrev pub some_pattern : Option (List String) → Bool
some_pattern none = false
some_pattern (some []) = false
some_pattern (some (_ ∷ _)) = true

abbrev pub is_set : Option Bool → Bool
is_set none = false
is_set (some b) = b

module _ (rules : Rules) where
  open rules use {length_of, compiles, is_origin}

  -- The checks of an entry whose members have their types.
  unfoldable pub is_accepted : Monitor → Bool
  unfolding is_id is_script
  is_accepted m =
      is_id m.id
      && (leb 1 (length_of m.name)
          && (leb (length_of m.name) 120
              && (is_script m.script
                  && (str_eq m.kind "browser"
                      && (if_given (all compiles) m.redact_patterns
                          && ((not (is_set m.sensitive) || some_pattern m.redact_patterns)
                              && (if_given is_environment m.environment
                                  && (if_given
                                        (λ o. is_nonempty o && (is_origin o && is_some m.target))
                                        m.rewrite_from_origin
                                      && if_given is_nonempty m.redtest_anchor))))))))

  unfoldable pub accept : List String → Option Monitor → Option Monitor
  unfolding is_seen is_accepted
  accept seen none = none
  accept seen (some m) = if not (is_seen m.id seen) && is_accepted m then some m else none

  -- The body of `m.monitors.map`.
  unfoldable pub validate_entry : List String → Json → Option Monitor
  unfolding accept members
  validate_entry seen (object e) = accept seen (members e)
  validate_entry seen (array items) = accept seen (members end)
  validate_entry seen _ = none

  abbrev pub put_first : Monitor → Option (List Monitor) → Option (List Monitor)
  put_first m none = none
  put_first m (some ms) = some (m ∷ ms)

  -- With the ids that have been seen.
  unfoldable pub validate_entries : List String → Items → Option (List Monitor)
  unfolding validate_entry
  validate_entries seen nil = some []
  validate_entries seen (cons entry items) = elim (validate_entry seen entry) [
    | none ↦ none
    | some m ↦ put_first m (validate_entries (m.id ∷ seen) items)
  ]

  unfoldable pub validate_monitors : Json → Option (List Monitor)
  unfolding validate_entries
  validate_monitors (array items) = validate_entries [] items
  validate_monitors _ = none

  abbrev pub is_version_1 : Json → Bool
  is_version_1 (natural n) = n == 1
  is_version_1 _ = false

  -- `validateManifest`: the monitors of the manifest.
  unfoldable pub validate_manifest : Json → Option (List Monitor)
  unfolding get validate_monitors
  validate_manifest (object m) =
      if is_version_1 (get "schemaVersion" m) then validate_monitors (get "monitors" m) else none
  validate_manifest _ = none
