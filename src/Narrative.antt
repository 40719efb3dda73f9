-- ===== src/Narrative.antt =====
-- The narration of a fact pack, of runner/narrative.ts, and its discriminator of monitor defects. The texts
-- that the source renders from the facts, the model's answer (after `JSON.parse`) and the spot check of its
-- figures are arguments.
pub mod Delivery
pub mod Critical
use synthwatch.Prelude.{
  ℕ, ◌+◌, ◌*◌, Option, none, some, Bool, true, false, ◌&&◌, List, [], ◌∷◌, ◌++◌, if◌then◌else◌, leb,
  ltb, not, take, filter,
}
use synthwatch.Text.{Text, includes, trim}

-- `DefectCandidate`, with the numbers that its guards read.
pub record DefectCandidate : Type 0 where
  pub step : Text
  pub fails : ℕ
  pub signatures : ℕ
  pub window_runs : ℕ

-- DEFECT_MIN_FAILS, DEFECT_MIN_RATIO and DEFECT_MIN_SHARE_PCT
abbrev pub defect_min_fails : ℕ
defect_min_fails = 5

abbrev pub defect_min_ratio : ℕ
defect_min_ratio = 5

abbrev pub defect_min_share_pct : ℕ
defect_min_share_pct = 3

-- `isMonitorDefectShape`, the quotients compared as products.
unfoldable pub is_monitor_defect_shape : DefectCandidate → Bool
is_monitor_defect_shape c =
    ltb 0 c.signatures
    && (ltb 0 c.window_runs
        && (leb defect_min_fails c.fails
            && (leb (defect_min_ratio * c.signatures) c.fails
                && leb (defect_min_share_pct * c.window_runs) (100 * c.fails))))

-- An entry of `criticalFindings`.
pub record Finding : Type 0 where
  pub token : Text
  pub line : Text

-- A row of the repeat-offender query, with its line.
pub record RepeatGroup : Type 0 where
  pub step : Option Text
  pub line : Text

pub record Narrative : Type 0 where
  pub headline : Text
  pub body : Text
  pub highlights : List Text

-- `if (r.step) criticalFindings.push(…)`
abbrev pub repeat_finding : Option Text → Text → List Finding
repeat_finding none line = []
repeat_finding (some []) line = []
repeat_finding (some (c ∷ cs)) line = record { token = c ∷ cs; line = line } ∷ []

unfoldable pub repeat_findings : List RepeatGroup → List Finding
repeat_findings [] = []
repeat_findings (g ∷ groups) = repeat_finding g.step g.line ++ repeat_findings groups

unfoldable pub defect_findings : (DefectCandidate → Text) → List DefectCandidate → List Finding
defect_findings line_of [] = []
defect_findings line_of (d ∷ defects) =
    record { token = d.step; line = line_of d } ∷ defect_findings line_of defects

-- The `criticalFindings` of `computeFactPack`, by the groups and by the candidates.
unfoldable pub critical_findings :
    (DefectCandidate → Text) → List RepeatGroup → List DefectCandidate → List Finding
unfolding repeat_findings defect_findings is_monitor_defect_shape
critical_findings line_of groups candidates =
    repeat_findings groups ++ defect_findings line_of (filter is_monitor_defect_shape candidates)

-- `join(' ')`
unfoldable pub join : List Text → Text
join [] = []
join (t ∷ []) = t
join (t ∷ (u ∷ ts)) = t ++ b' ' ∷ join (u ∷ ts)

unfoldable pub prose : Narrative → Text
unfolding join
prose n = join (n.headline ∷ (n.body ∷ n.highlights))

unfoldable pub undelivered : Text → List Finding → List Text
unfolding includes
undelivered text [] = []
undelivered text (f ∷ findings) =
    let rest = undelivered text findings in if includes text f.token then rest else f.line ∷ rest

-- `ensureAnomaliesDelivered`
unfoldable pub ensure_anomalies_delivered : Narrative → List Finding → Narrative
unfolding undelivered prose
ensure_anomalies_delivered n findings = record n {
  highlights = n.highlights ++ undelivered (prose n) findings;
}

-- The parts of `buildFallback`: its texts, and the line for the first divergent monitor, if there is one.
pub record FallbackTexts : Type 0 where
  pub headline : Text
  pub body : Text
  pub figures : List Text
  pub divergence : Option Text

abbrev fallback_highlights : List Text → List Text → List Text
fallback_highlights figures [] = figures
fallback_highlights figures (a ∷ anomalies) = take 5 (a ∷ anomalies)

abbrev listed : Option Text → List Text
listed none = []
listed (some t) = t ∷ []

-- `buildFallback`
unfoldable pub build_fallback : FallbackTexts → List Text → Narrative
build_fallback texts anomalies = record {
  headline = texts.headline;
  body = texts.body;
  highlights = take 6 (fallback_highlights texts.figures anomalies ++ listed texts.divergence);
}

abbrev is_blank : Text → Bool
is_blank [] = true
is_blank (_ ∷ _) = false

-- `validShape`, of an answer whose members have their types.
unfoldable pub valid_shape : Narrative → Bool
unfolding trim
valid_shape n = not (is_blank (trim n.headline)) && not (is_blank (trim n.body))

-- The narrative of an answer that is on shape.
unfoldable pub trimmed : Narrative → Narrative
unfolding trim
trimmed n = record {
  headline = trim n.headline;
  body = trim n.body;
  highlights = take 5 n.highlights;
}

-- `narrate`: with whether the model produced it. No answer is one that is absent, is no JSON or lacks a
-- member.
unfoldable pub narrate :
    (Narrative → Bool)
    → FallbackTexts
    → List Text
    → List Finding
    → Option Narrative
    → Narrative × Bool
unfolding ensure_anomalies_delivered build_fallback valid_shape trimmed
narrate passes_spot_check texts anomalies findings none =
    (ensure_anomalies_delivered (build_fallback texts anomalies) findings, false)
narrate passes_spot_check texts anomalies findings (some answer) =
    if valid_shape answer && passes_spot_check (trimmed answer)
    then (ensure_anomalies_delivered (trimmed answer) findings, true)
    else (ensure_anomalies_delivered (build_fallback texts anomalies) findings, false)
