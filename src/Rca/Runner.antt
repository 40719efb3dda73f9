-- ===== src/Rca/Runner.antt =====
-- The failures of the runner itself: DETERMINISTIC_INFRA_PATTERNS of runner/rca.ts. All of the patterns have
-- the flag `i`, so that they are matched with the text in lower case.
use synthwatch.Prelude.{
  ℕ, Option, none, some, Bool, true, false, ◌&&◌, ◌||◌, [], ◌∷◌, ◌≡◌, refl, if◌then◌else◌, leb,
  ◌==◌, not, map, ◌+◌,
}
use synthwatch.SpecPath.{codes, strip_prefix}
use synthwatch.Text.{Text, is_word, includes}

-- The letters that the flag `i` identifies.
abbrev pub fold_letter : ℕ → ℕ
fold_letter c = if leb b'A' c && leb c b'Z' then c + 32 else c

-- \w+: with whether a character has been read.
word_then_colon : Bool → Text → Bool
unfolding is_word
word_then_colon seen [] = false
word_then_colon seen (c ∷ cs) =
    let more = word_then_colon true cs in if is_word c then more else seen && c == b':'

then_call : Option Text → Bool
unfolding word_then_colon
then_call none = false
then_call (some rest) = word_then_colon false rest

-- browserType\.\w+:
names_launch : Text → Bool
unfolding then_call strip_prefix
names_launch [] = false
names_launch (c ∷ cs) = then_call (strip_prefix (codes "browsertype.") (c ∷ cs)) || names_launch cs

abbrev starts_word : Text → Bool
unfolding is_word
starts_word [] = false
starts_word (c ∷ cs) = is_word c

abbrev ends_word : Option Text → Bool
ends_word none = false
ends_word (some rest) = not (starts_word rest)

-- [^\n]*\bENOENT\b, with whether the last character was one of a word.
enoent_on_line : Bool → Text → Bool
unfolding is_word strip_prefix
enoent_on_line in_word [] = false
enoent_on_line in_word (c ∷ cs) =
    not in_word && ends_word (strip_prefix (codes "enoent") (c ∷ cs))
    || not (c == 10) && enoent_on_line (is_word c) cs

then_enoent : Option Text → Bool
unfolding enoent_on_line
then_enoent none = false
then_enoent (some rest) = not (starts_word rest) && enoent_on_line true rest

-- \bspawn\b[^\n]*\bENOENT\b
spawns_nothing : Bool → Text → Bool
unfolding then_enoent is_word strip_prefix
spawns_nothing in_word [] = false
spawns_nothing in_word (c ∷ cs) =
    not in_word && then_enoent (strip_prefix (codes "spawn") (c ∷ cs))
    || spawns_nothing (is_word c) cs

-- The patterns, of a text in lower case.
is_infra_text : Text → Bool
unfolding includes names_launch spawns_nothing
is_infra_text t =
    includes t (codes "executable doesn't exist")
    || (names_launch t
        || (includes t (codes "failed to launch")
            || (includes t (codes "error while loading shared libraries")
                || (includes t (codes "host system is missing dependencies")
                    || spawns_nothing false t))))

-- `isDeterministicInfraError`
unfoldable pub is_deterministic_infra_error : Option Text → Bool
unfolding is_infra_text
is_deterministic_infra_error none = false
is_deterministic_infra_error (some []) = false
is_deterministic_infra_error (some (c ∷ cs)) = is_infra_text (map fold_letter (c ∷ cs))

infra_tests :
    map
      (λ s. is_deterministic_infra_error (some (codes s)))
      ("browserType.launch: Executable doesn't exist"
        ∷ ("browserType.: no"
            ∷ ("Error: spawn /bin/chrome ENOENT"
                ∷ ("respawn x ENOENT" ∷ ("Timeout 30000ms exceeded" ∷ [])))))
    ≡ true ∷ (false ∷ (true ∷ (false ∷ (false ∷ []))))
unfolding is_deterministic_infra_error
infra_tests = refl
