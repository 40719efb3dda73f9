-- ===== src/Reconcile/Plan/Converge.antt =====
-- What the `changed` statement of runner/reconcile.ts leaves when it is run on the live row.
use synthwatch.Prelude.{
  String, ℕ, Option, none, some, Bool, true, false, not, List, [], ◌∷◌, ◌≡◌, refl, arith, filter,
  map, if◌then◌else◌, str_eq, eq_refl,
}
use synthwatch.EnvDomain.{UrlParser, EnvDomainRule}
use synthwatch.SpecPath.{flow_name_for}
use synthwatch.Reconcile.{
  Monitor, ManagedCheck, Column, name, kind, target_url, flow_name, environment,
  rewrite_from_origin, Value, null, text, chars,
}
use synthwatch.Reconcile.Equality.{text_eq, text_eq_refl, opt_codes_eq, opt_codes_eq_refl}
use synthwatch.Reconcile.Drift.{changed_fields, git_environment, target_differs}
use synthwatch.Reconcile.Plan.{
  Assignment, has_column, column_value, column_values, changed_update_columns, push_set,
  same_column, column_of,
}

-- One assignment on the row; a value that the column does not take leaves it.
pub set_value : Column → Value → ManagedCheck → ManagedCheck
set_value name (text s) c = record c { name = s }
set_value kind (text s) c = record c { kind = s }
set_value target_url (text s) c = record c { target_url = s }
set_value flow_name (chars cs) c = record c { flow_name = some cs }
set_value environment (text s) c = record c { environment = s }
set_value rewrite_from_origin (text s) c = record c { rewrite_from_origin = some s }
set_value rewrite_from_origin null c = record c { rewrite_from_origin = none }
set_value _ _ c = c

pub set_values : List Assignment → ManagedCheck → ManagedCheck
set_values [] c = c
set_values (a ∷ rest) c = set_values rest (set_value a.column a.value c)

-- A plan that throws writes nothing.
abbrev pub set_if_some : Option (List Assignment) → ManagedCheck → ManagedCheck
set_if_some none c = c
set_if_some (some sets) c = set_values sets c

abbrev or_text : Option String → String → String
or_text none d = d
or_text (some s) d = s

str_settled : (a b : String) → str_eq (if not (str_eq a b) then b else a) b ≡ true
str_settled a b = ground (arith, eq_refl b)

target_settled :
    (t : Option String) (a : String)
    → target_differs t (if target_differs t a then or_text t a else a) ≡ false
target_settled none a = refl
target_settled (some t) a = ground (arith, eq_refl t)

flow_settled :
    (a : Option (List ℕ)) (b : List ℕ)
    → opt_codes_eq (if not (opt_codes_eq a b) then some b else a) b ≡ true
flow_settled a b = ground (arith, opt_codes_eq_refl b)

origin_settled : (a b : Option String) → text_eq (if not (text_eq a b) then b else a) b ≡ true
origin_settled a b = ground (arith, text_eq_refl b)

none_drifted :
    (u : UrlParser) (env_map : List EnvDomainRule) (m : Monitor) (d : ManagedCheck)
    → str_eq d.name m.name ≡ true
    → str_eq d.kind m.kind ≡ true
    → target_differs m.target d.target_url ≡ false
    → opt_codes_eq d.flow_name (flow_name_for m.script) ≡ true
    → str_eq d.environment (git_environment u env_map m) ≡ true
    → text_eq d.rewrite_from_origin m.rewrite_from_origin ≡ true
    → changed_fields u env_map m d ≡ []
unfolding changed_fields
none_drifted u env_map m d h₁ h₂ h₃ h₄ h₅ h₆ = rw (h₁, h₂, h₃, h₄, h₅, h₆) refl

module _ (u : UrlParser) (env_map : List EnvDomainRule) (m : Monitor) (c : ManagedCheck) where
  synced : (Column → Bool) → ManagedCheck
  synced p = set_if_some (column_values u env_map m (filter p changed_update_columns)) c

  drifted : List Column
  drifted = map column_of (changed_fields u env_map m c)

  synced_name : (p : Column → Bool) → (synced p).name ≡ (if p name then m.name else c.name)
  unfolding synced column_values changed_update_columns column_value push_set set_values set_value
  synced_name p = ground arith

  synced_kind : (p : Column → Bool) → (synced p).kind ≡ (if p kind then m.kind else c.kind)
  unfolding synced column_values changed_update_columns column_value push_set set_values set_value
  synced_kind p = ground arith

  synced_target :
      (p : Column → Bool)
      → (synced p).target_url
        ≡ (if p target_url then or_text m.target c.target_url else c.target_url)
  unfolding synced column_values changed_update_columns column_value push_set set_values set_value
  synced_target p = ground arith

  synced_flow :
      (p : Column → Bool)
      → (synced p).flow_name ≡ (if p flow_name then some (flow_name_for m.script) else c.flow_name)
  unfolding synced column_values changed_update_columns column_value push_set set_values set_value
  synced_flow p = ground arith

  synced_environment :
      (p : Column → Bool)
      → (synced p).environment
        ≡ (if p environment then git_environment u env_map m else c.environment)
  unfolding synced column_values changed_update_columns column_value push_set set_values set_value
  synced_environment p = ground arith

  synced_origin :
      (p : Column → Bool)
      → (synced p).rewrite_from_origin
        ≡ (if p rewrite_from_origin then m.rewrite_from_origin else c.rewrite_from_origin)
  unfolding synced column_values changed_update_columns column_value push_set set_values set_value
  synced_origin p = ground arith

  has_name : has_column name drifted ≡ (not (str_eq c.name m.name))
  unfolding drifted has_column changed_fields same_column
  has_name = ground arith

  has_kind : has_column kind drifted ≡ (not (str_eq c.kind m.kind))
  unfolding drifted has_column changed_fields same_column
  has_kind = ground arith

  has_target : has_column target_url drifted ≡ (target_differs m.target c.target_url)
  unfolding drifted has_column changed_fields same_column
  has_target = ground arith

  has_flow :
      has_column flow_name drifted ≡ (not (opt_codes_eq c.flow_name (flow_name_for m.script)))
  unfolding drifted has_column changed_fields same_column
  has_flow = ground arith

  has_environment :
      has_column environment drifted ≡ (not (str_eq c.environment (git_environment u env_map m)))
  unfolding drifted has_column changed_fields same_column
  has_environment = ground arith

  has_origin :
      has_column rewrite_from_origin drifted
      ≡ (not (text_eq c.rewrite_from_origin m.rewrite_from_origin))
  unfolding drifted has_column changed_fields same_column
  has_origin = ground arith

  is_drifted : Column → Bool
  is_drifted k = has_column k drifted

  name_ok : str_eq (synced is_drifted).name m.name ≡ true
  unfolding is_drifted
  name_ok = rw (synced_name is_drifted, has_name) (str_settled c.name m.name)

  kind_ok : str_eq (synced is_drifted).kind m.kind ≡ true
  unfolding is_drifted
  kind_ok = rw (synced_kind is_drifted, has_kind) (str_settled c.kind m.kind)

  target_ok : target_differs m.target (synced is_drifted).target_url ≡ false
  unfolding is_drifted
  target_ok = rw (synced_target is_drifted, has_target) (target_settled m.target c.target_url)

  flow_ok : opt_codes_eq (synced is_drifted).flow_name (flow_name_for m.script) ≡ true
  unfolding is_drifted
  flow_ok =
      rw (synced_flow is_drifted, has_flow) (flow_settled c.flow_name (flow_name_for m.script))

  environment_ok : str_eq (synced is_drifted).environment (git_environment u env_map m) ≡ true
  unfolding is_drifted
  environment_ok =
      rw (synced_environment is_drifted, has_environment)
        (str_settled c.environment (git_environment u env_map m))

  origin_ok : text_eq (synced is_drifted).rewrite_from_origin m.rewrite_from_origin ≡ true
  unfolding is_drifted
  origin_ok =
      rw (synced_origin is_drifted, has_origin)
        (origin_settled c.rewrite_from_origin m.rewrite_from_origin)

  -- When the row is given the values that `buildChangedUpdate` sets for its drifted fields, no field of
  -- it has drifted any more.
  pub changed_update_converges :
      changed_fields u env_map m (
        set_if_some
          (column_values u env_map m (
            filter
              (λ k. has_column k (map column_of (changed_fields u env_map m c)))
              changed_update_columns))
          c)
      ≡ []
  unfolding synced drifted is_drifted
  changed_update_converges =
      none_drifted u env_map m (synced is_drifted) name_ok kind_ok target_ok flow_ok environment_ok
        origin_ok
