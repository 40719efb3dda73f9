-- ===== src/Reconcile.antt =====
-- runner/reconcile.ts: the manifest against the managed checks. A column's value is a `Value`, and a
-- statement of a plan is its columns and values; the rendered SQL text is left out.
pub mod Equality
pub mod Drift
pub mod Sync
pub mod Plan
pub mod Persist
pub mod Manifest
use synthwatch.Prelude.{ℕ, String, Option, none, some, Bool, true, false, List, [], ◌∷◌}

pub record Monitor : Type 0 where
  pub id : String
  pub name : String
  pub script : String
  pub kind : String
  pub suggested_interval_seconds : Option ℕ
  pub target : Option String
  pub enabled_by_default : Option Bool
  pub sensitive : Option Bool
  pub redact_patterns : Option (List String)
  pub environment : Option String
  pub rewrite_from_origin : Option String
  pub redtest_anchor : Option String

-- The managed columns that the reconcile reads.
pub record ManagedCheck : Type 0 where
  pub source_key : String
  pub name : String
  pub kind : String
  pub target_url : String
  pub flow_name : Option (List ℕ)
  pub sensitive : Bool
  pub redact_patterns : Option (List String)
  pub environment : String
  pub rewrite_from_origin : Option String
  pub redtest_anchor : Option String
  pub removed_at : Option ℕ

pub data Column : Type 0 where
  source_key name kind target_url flow_name sensitive redact_patterns : Column
  environment rewrite_from_origin interval_seconds enabled spec_path : Column

-- The column's place in the list above, by which two columns are told apart.
abbrev pub column_number : Column → ℕ
column_number source_key = 0
column_number name = 1
column_number kind = 2
column_number target_url = 3
column_number flow_name = 4
column_number sensitive = 5
column_number redact_patterns = 6
column_number environment = 7
column_number rewrite_from_origin = 8
column_number interval_seconds = 9
column_number enabled = 10
column_number spec_path = 11

pub data Value : Type 0 where
  null : Value
  text : String → Value
  chars : List ℕ → Value
  flag : Bool → Value
  number : ℕ → Value
  json : Option (List String) → Value

abbrev pub text_or_null : Option String → Value
text_or_null none = null
text_or_null (some s) = text s

abbrev pub chars_or_null : Option (List ℕ) → Value
chars_or_null none = null
chars_or_null (some cs) = chars cs

-- `x ?? false`
abbrev pub or_false : Option Bool → Bool
or_false none = false
or_false (some b) = b

abbrev pub or_number : Option ℕ → ℕ → ℕ
or_number none d = d
or_number (some n) d = n

-- GIT_AUTHORITATIVE_COLUMNS
abbrev pub git_authoritative_columns : List Column
git_authoritative_columns =
    name ∷ kind ∷ target_url ∷ flow_name ∷ sensitive ∷ redact_patterns ∷ environment
    ∷ rewrite_from_origin ∷ []

-- SEED_ONLY_COLUMNS
abbrev pub seed_only_columns : List Column
seed_only_columns = interval_seconds ∷ enabled ∷ []

-- REDACTION_COLUMNS, as a test.
abbrev pub is_redaction_column : Column → Bool
is_redaction_column sensitive = true
is_redaction_column redact_patterns = true
is_redaction_column _ = false

-- REDACTION_STRIP_ALLOWANCE
abbrev pub redaction_strip_allowance : List String
redaction_strip_allowance = "meals2go-cheese-pizza-cart" ∷ "meals2go-browse-menu" ∷ []
