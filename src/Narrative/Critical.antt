-- ===== src/Narrative/Critical.antt =====
-- Which findings of the fact pack of runner/narrative.ts are critical, and that they are delivered.
use mathlib.Core.List.Memᴰ
use mathlib.Core.List.{Memᴰ}
use synthwatch.Prelude.{ℕ, ◌*◌, ◌≤◌, some, List, ◌∷◌, ◌≡◌}
use synthwatch.Text.{Text}
use synthwatch.Narrative.{Narrative, Finding, DefectCandidate, RepeatGroup}

-- The shape of a monitor defect: something was measured, and of the failures there are at least 5, at least 5 to
-- a signature, and at least 3 to a hundred runs of the window.
pub record IsDefect (d : DefectCandidate) : Type 0 where
  pub signatures : 1 ≤ d.signatures
  pub runs : 1 ≤ d.window_runs
  pub fails : 5 ≤ d.fails
  pub ratio : 5 * d.signatures ≤ d.fails
  pub share : 3 * d.window_runs ≤ 100 * d.fails

-- The finding of a repeated failure with a step.
abbrev pub OfGroup : List RepeatGroup → Finding → Type 0
OfGroup groups f =
    (g : RepeatGroup) × (c : ℕ) × (cs : Text) × (Memᴰ g groups
      × (g.step ≡ some (c ∷ cs))
      × (f ≡ record { token = c ∷ cs; line = g.line }))

-- The finding of a candidate with the shape.
abbrev pub OfDefect : (DefectCandidate → Text) → List DefectCandidate → Finding → Type 0
OfDefect line_of candidates f =
    (d : DefectCandidate) × (Memᴰ d candidates
      × IsDefect d
      × (f ≡ record { token = d.step; line = line_of d }))
