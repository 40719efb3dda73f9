-- ===== src/Tests/Verdicts.antt =====
-- Tests of the quorum of runner/evaluate.ts.
use synthwatch.Prelude.{none, true, ◌≡◌, refl}
use synthwatch.Verdict.{cross_location_down}

two_of_three : cross_location_down 2 3 none ≡ true
unfolding cross_location_down
two_of_three = refl
