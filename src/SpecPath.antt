-- ===== src/SpecPath.antt =====
-- The guard of runner/specfetch/fetchSpec.ts and the flow name of runner/reconcile.ts, over the code
-- points of a path.
use Prim.Native.Char.{code}
use synthwatch.Prelude.{
  ℕ, String, Option, none, some, Bool, true, false, ◌&&◌, ◌||◌, List, [], ◌∷◌, ◌++◌, if◌then◌else◌,
  leb, ◌==◌, all, not, ◌≡◌, refl,
}

abbrev pub codes : String → List ℕ
codes String.[] = []
codes (String.◌∷◌ c s) = code c ∷ codes s

unfoldable pub same_codes : List ℕ → List ℕ → Bool
same_codes [] [] = true
same_codes (x ∷ xs) (y ∷ ys) = x == y && same_codes xs ys
same_codes _ _ = false

-- What follows the prefix.
unfoldable pub strip_prefix : List ℕ → List ℕ → Option (List ℕ)
strip_prefix [] xs = some xs
strip_prefix (p ∷ ps) [] = none
strip_prefix (p ∷ ps) (x ∷ xs) = if p == x then strip_prefix ps xs else none

abbrev pub push : ℕ → Option (List ℕ) → Option (List ℕ)
push x none = none
push x (some xs) = some (x ∷ xs)

-- What stands before the suffix.
unfoldable pub strip_suffix : List ℕ → List ℕ → Option (List ℕ)
unfolding same_codes
strip_suffix suf [] = if same_codes suf [] then some [] else none
strip_suffix suf (x ∷ xs) =
    if same_codes suf (x ∷ xs) then some [] else push x (strip_suffix suf xs)

-- [A-Za-z0-9._/-]
pub is_path_code : ℕ → Bool
is_path_code c =
    leb b'A' c && leb c b'Z'
    || leb b'a' c && leb c b'z'
    || (leb b'0' c && leb c b'9' || (c == b'.' || c == b'_' || (c == b'/' || c == b'-')))

-- `includes('..')`
pub has_dot_dot : List ℕ → Bool
has_dot_dot [] = false
has_dot_dot (x ∷ []) = false
has_dot_dot (x ∷ (y ∷ rest)) = x == b'.' && y == b'.' || has_dot_dot (y ∷ rest)

abbrev is_nonempty : List ℕ → Bool
is_nonempty [] = false
is_nonempty (_ ∷ _) = true

middle_ok : Option (List ℕ) → Bool
unfolding is_path_code
middle_ok none = false
middle_ok (some mid) = is_nonempty mid && all is_path_code mid

after_monitors : Option (List ℕ) → Bool
unfolding strip_suffix middle_ok
after_monitors none = false
after_monitors (some rest) = middle_ok (strip_suffix (codes ".spec.ts") rest)

-- `assertValidSpecPath` as a test: SPEC_PATH_RE, and no "..".
unfoldable pub is_valid_spec_path : String → Bool
unfolding after_monitors strip_prefix has_dot_dot
is_valid_spec_path path =
    after_monitors (strip_prefix (codes "monitors/") (codes path)) && not (has_dot_dot (codes path))

-- `split('/').pop()`: what follows the last slash.
basename : List ℕ → List ℕ → List ℕ
basename cur [] = cur
basename cur (c ∷ cs) = basename (if c == b'/' then [] else cur ++ c ∷ []) cs

abbrev or_whole : List ℕ → Option (List ℕ) → List ℕ
or_whole whole none = whole
or_whole whole (some xs) = xs

-- `flowNameFor`: the basename of the script without the suffix.
unfoldable pub flow_name_for : String → List ℕ
unfolding basename strip_suffix
flow_name_for script =
    let base = basename [] (codes script) in or_whole base (strip_suffix (codes ".spec.ts") base)

flow_name_for_test :
    flow_name_for "monitors/wegmans/search-product.spec.ts" ≡ codes "search-product"
unfolding flow_name_for
flow_name_for_test = refl

is_valid_spec_path_tests :
    (is_valid_spec_path "monitors/a/b.spec.ts" ≡ true)
    × (is_valid_spec_path "monitors/../b.spec.ts" ≡ false)
    × (is_valid_spec_path "monitors/.spec.ts" ≡ false)
    × (is_valid_spec_path "x/b.spec.ts" ≡ false)
unfolding is_valid_spec_path
is_valid_spec_path_tests = (refl, refl, refl, refl)
