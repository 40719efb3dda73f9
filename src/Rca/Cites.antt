-- ===== src/Rca/Cites.antt =====
-- The citations of a sentence, of runner/rca.ts, and their check against a closed set.
use synthwatch.Prelude.{
  ℕ, zero, suc, ◌-◌, Option, none, some, List, [], ◌∷◌, ◌++◌, if◌then◌else◌, ◌==◌, length,
}
use synthwatch.SpecPath.{codes}
use synthwatch.Rca.Runner.{fold_letter}
use synthwatch.Text.{Text, trim, has_text}

-- `[cite:` at the start of a text, and what follows it.
cite_opens : Text → Text → Option Text
cite_opens [] cs = some cs
cite_opens (p ∷ ps) [] = none
cite_opens (p ∷ ps) (c ∷ cs) = if p == fold_letter c then cite_opens ps cs else none

-- [^\]]+ and the bracket that ends it, with what follows.
cite_body : Text → Option (Text × Text)
cite_body [] = none
cite_body (c ∷ cs) =
    let rest = cite_body cs in
    if c == b']' then some ([], cs) else elim rest [ none ↦ none | some (t, r) ↦ some (c ∷ t, r) ]

abbrev non_empty : Option (Text × Text) → Option (Text × Text)
non_empty none = none
non_empty (some ([], rest)) = none
non_empty (some (c ∷ t, rest)) = some (trim (c ∷ t), rest)

cite_at : Text → Option (Text × Text)
unfolding cite_opens cite_body
cite_at cs = elim (cite_opens (codes "[cite:") cs) [
  | none ↦ none
  | some rest ↦ non_empty (cite_body rest)
]

-- The first argument counts what is left of a match.
cites_from : ℕ → Text → List Text
unfolding cite_at trim
cites_from n [] = []
cites_from (suc n) (c ∷ cs) = cites_from n cs
cites_from zero (c ∷ cs) = elim (cite_at (c ∷ cs)) [
  | none ↦ cites_from zero cs
  | some (t, rest) ↦ t ∷ cites_from (length cs - length rest) cs
]

-- The tokens of /\[cite:\s*([^\]]+)\]/gi in a text.
unfoldable pub cites : Text → List Text
unfolding cites_from
cites cs = cites_from zero cs

pub data Violation : Type 0 where
  no_cite unresolved_cite : Text → Violation

unfoldable pub unresolved : List Text → List Text → List Violation
unfolding has_text
unresolved index [] = []
unresolved index (t ∷ ts) =
    let rest = unresolved index ts in if has_text t index then rest else unresolved_cite t ∷ rest

-- The violations of one item.
unfoldable pub item_violations : List Text → Text → List Text → List Violation
unfolding unresolved
item_violations index item [] = no_cite item ∷ []
item_violations index item (t ∷ ts) = unresolved index (t ∷ ts)

-- `validateCites`
unfoldable pub validate_cites : List Text → List Text → List Violation
unfolding item_violations cites
validate_cites [] index = []
validate_cites (item ∷ observed) index =
    item_violations index item (cites item) ++ validate_cites observed index
