-- ===== src/Reconcile/Manifest/Values.antt =====
-- The values of a manifest and what `validateManifest` of runner/reconcile.ts asks of one of them.
use synthwatch.Prelude.{
  ℕ, String, Option, none, some, Bool, false, ◌&&◌, ◌||◌, List, [], ◌∷◌, if◌then◌else◌, leb, ◌==◌,
  not, all, length, str_eq,
}
use synthwatch.SpecPath.{codes, strip_prefix, strip_suffix}
use synthwatch.Text.{Text}

-- A number that is no natural number has no other use than to be refused.
mutual
  pub data Json : Type 0 where
    absent : Json
    null : Json
    boolean : Bool → Json
    natural : ℕ → Json
    other_number : Json
    string : String → Json
    array : Items → Json
    object : Fields → Json

  pub data Items : Type 0 where
    nil : Items
    cons : Json → Items → Items

  pub data Fields : Type 0 where
    end : Fields
    field : String → Json → Fields → Fields

-- The value of a key, or `undefined`.
unfoldable pub get : String → Fields → Json
get k end = absent
get k (field j v fs) = if str_eq k j then v else get k fs

-- [a-z0-9]
abbrev is_alnum : ℕ → Bool
is_alnum c = leb b'a' c && leb c b'z' || leb b'0' c && leb c b'9'

abbrev is_id_code : ℕ → Bool
is_id_code c = is_alnum c || c == b'-'

abbrev ends_alnum : Text → Bool
ends_alnum [] = false
ends_alnum (c ∷ []) = is_alnum c
ends_alnum (c ∷ (d ∷ cs)) = ends_alnum (d ∷ cs)

abbrev starts_alnum : Text → Bool
starts_alnum [] = false
starts_alnum (c ∷ cs) = is_alnum c

-- ID_RE
unfoldable pub is_id : String → Bool
is_id id =
    leb 3 (length (codes id))
    && (leb (length (codes id)) 64
        && (starts_alnum (codes id) && (ends_alnum (codes id) && all is_id_code (codes id))))

-- What `.` does not match.
abbrev is_line_end : ℕ → Bool
is_line_end c = c == 10 || (c == 13 || (c == 0x2028 || c == 0x2029))

abbrev is_line : Text → Bool
is_line [] = false
is_line (c ∷ cs) = not (is_line_end c) && all (λ d. not (is_line_end d)) cs

abbrev line_before : Option Text → Bool
line_before none = false
line_before (some mid) = is_line mid

abbrev before_suffix : Option Text → Option Text
unfolding strip_suffix
before_suffix none = none
before_suffix (some rest) = strip_suffix (codes ".spec.ts") rest

-- SCRIPT_RE
unfoldable pub is_script : String → Bool
unfolding strip_prefix strip_suffix
is_script script = line_before (before_suffix (strip_prefix (codes "monitors/") (codes script)))

abbrev pub is_environment : String → Bool
is_environment s = str_eq s "prod" || (str_eq s "staging" || str_eq s "dev")

-- `seen.has`
unfoldable pub is_seen : String → List String → Bool
is_seen id [] = false
is_seen id (x ∷ seen) = str_eq id x || is_seen id seen

-- An optional member of one type.
unfoldable pub optional_text : Json → Option (Option String)
optional_text absent = some none
optional_text (string s) = some (some s)
optional_text _ = none

unfoldable pub optional_flag : Json → Option (Option Bool)
optional_flag absent = some none
optional_flag (boolean b) = some (some b)
optional_flag _ = none

unfoldable pub optional_interval : Json → Option (Option ℕ)
optional_interval absent = some none
optional_interval (natural n) = if leb 60 n then some (some n) else none
optional_interval _ = none

texts_of : Items → Option (List String)
texts_of nil = some []
texts_of (cons (string s) items) = elim (texts_of items) [ none ↦ none | some ts ↦ some (s ∷ ts) ]
texts_of (cons _ items) = none

abbrev given : {A : Type 0} → Option A → Option (Option A)
given none = none
given (some a) = some (some a)

unfoldable pub optional_texts : Json → Option (Option (List String))
unfolding texts_of
optional_texts absent = some none
optional_texts (array items) = given (texts_of items)
optional_texts _ = none

unfoldable pub required_text : Json → Option String
required_text (string s) = some s
required_text _ = none
