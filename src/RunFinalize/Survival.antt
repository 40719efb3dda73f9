-- ===== src/RunFinalize/Survival.antt =====
-- That a verdict of runner/runFinalize.ts survives what comes after it.
use synthwatch.Prelude.{
  All, ℕ, ◌≡◌, refl, ap, ◌∙◌, String, some, Bool, true, false, ◌&&◌, List, [], ◌∷◌, map, ◌==◌,
  if◌then◌else◌, arith,
}
use synthwatch.RunFinalize.{
  RunRow, ProvisionalVerdict, TraceEnrichment, is_running_status, verdict_row,
  write_provisional_verdict, trace_row, enrich_run_trace, give_up, finalize_fallback,
  is_stale_running, reap_stale_running,
}

-- What the runners do to `runs` after the verdict of run `k`: the writes of its own process and of others,
-- the guard of any run, the reaper, and the rows of new runs, in any order.
pub data Later (k : ℕ) (start : List RunRow) : List RunRow → Type 0 where
  now_on : Later k start start
  enriched :
      (id : ℕ) (t : TraceEnrichment) {rows : List RunRow}
      → Later k start rows
      → Later k start (enrich_run_trace id t rows)
  guarded :
      (finalized : Bool) (now id : ℕ) {rows : List RunRow}
      → Later k start rows
      → Later k start (finalize_fallback finalized now id rows)
  reaped :
      (now : ℕ) {rows : List RunRow}
      → Later k start rows
      → Later k start (reap_stale_running now rows)
  judged :
      (now id : ℕ) (v : ProvisionalVerdict) {rows : List RunRow}
      → (id == k) ≡ false
      → Later k start rows
      → Later k start (write_provisional_verdict now id v rows)
  inserted :
      (r : RunRow) {rows : List RunRow}
      → (r.run.id == k) ≡ false
      → Later k start rows
      → Later k start (r ∷ rows)

-- A row has the verdict `v` of the instant `at`.
abbrev pub HasVerdict : ℕ → ProvisionalVerdict → RunRow → Type 0
HasVerdict at v r =
    (r.run.status ≡ v.status)
    × (r.finished_at ≡ some at)
    × (r.duration_ms ≡ some v.duration_ms)
    × (r.http_status ≡ v.http_status)
    × (r.error_message ≡ v.error_message)
    × (r.failed_step ≡ v.failed_step)
    × (r.retry_count ≡ v.retry_count)
    × (r.egress_ip ≡ v.egress_ip)

-- Each row of run `k` has it.
abbrev pub AllHave : ℕ → ℕ → ProvisionalVerdict → List RunRow → Type 0
AllHave k at v rows = All (λ r. (r.run.id == k) ≡ true → HasVerdict at v r) rows

-- A write of one row after the other that keeps the verdict of `k` where it is there.
module _ (k at : ℕ) (v : ProvisionalVerdict) (f : RunRow → RunRow)
    (keeps : (r : RunRow)
      → ((r.run.id == k) ≡ true → HasVerdict at v r)
      → ((f r).run.id == k) ≡ true
      → HasVerdict at v (f r)) where
  map-AllHave : (rows : List RunRow) → AllHave k at v rows → AllHave k at v (map f rows)
  map-AllHave [] h = h
  map-AllHave (r ∷ rows) (h, hs) = (keeps r h, map-AllHave rows hs)

if-keeps :
    (k at : ℕ) (v : ProvisionalVerdict) (b : Bool) (x r : RunRow)
    → (b ≡ true → (x.run.id == k) ≡ true → HasVerdict at v x)
    → ((r.run.id == k) ≡ true → HasVerdict at v r)
    → ((if b then x else r).run.id == k) ≡ true
    → HasVerdict at v (if b then x else r)
if-keeps k at v true x r h i = h refl
if-keeps k at v false x r h i = i

module _ (k at : ℕ) (v : ProvisionalVerdict) (terminal : is_running_status v.status ≡ false) where
  -- A guarded write does not meet a row that has the verdict.
  spared :
      (now : ℕ) (message : String) (b : Bool) (r : RunRow)
      → (b ≡ true → is_running_status r.run.status ≡ true)
      → ((r.run.id == k) ≡ true → HasVerdict at v r)
      → ((if b then give_up now message r else r).run.id == k) ≡ true
      → HasVerdict at v (if b then give_up now message r else r)
  spared now message b r only h =
      if-keeps k at v b (give_up now message r) r
        (λ e i. absurd (clash (ap is_running_status (h i).0 ∙ terminal) (only e))) h
    where
      clash : {b : Bool} → b ≡ false → b ≡ true → ⊥
      clash e f = cc

  pub Later-AllHave :
      {start rows : List RunRow} → AllHave k at v start → Later k start rows → AllHave k at v rows
  unfolding enrich_run_trace finalize_fallback reap_stale_running write_provisional_verdict
  Later-AllHave h now_on = h
  Later-AllHave h (enriched id t {rows} l) =
      map-AllHave k at v _ (λ r i. if-keeps k at v (r.run.id == id) (trace_row t r) r (λ e. i) i)
        rows (Later-AllHave h l)
  Later-AllHave h (guarded true now id l) = Later-AllHave h l
  Later-AllHave h (guarded false now id {rows} l) =
      map-AllHave k at v _
        (λ r i.
          spared now _ (r.run.id == id && is_running_status r.run.status) r (λ e. ground arith) i)
        rows (Later-AllHave h l)
  Later-AllHave h (reaped now {rows} l) =
      map-AllHave k at v _ (λ r i. spared now _ (is_stale_running now r) r (λ e. ground arith) i)
        rows (Later-AllHave h l)
  Later-AllHave h (judged now id w {rows} other l) =
      map-AllHave k at v _
        (λ r i.
          if-keeps k at v (r.run.id == id) (verdict_row now w r) r (λ e j. absurd (ground arith)) i)
        rows (Later-AllHave h l)
  Later-AllHave h (inserted r other l) = (λ i. absurd (ground arith), Later-AllHave h l)

verdict-AllHave :
    (now k : ℕ) (v : ProvisionalVerdict) (rows : List RunRow)
    → AllHave k now v (write_provisional_verdict now k v rows)
unfolding write_provisional_verdict
verdict-AllHave now k v [] = tt
verdict-AllHave now k v (r ∷ rows) =
    (at_row now k v r (r.run.id == k) refl, verdict-AllHave now k v rows)
  where
    at_row :
        (now k : ℕ) (v : ProvisionalVerdict) (r : RunRow) (b : Bool)
        → (r.run.id == k) ≡ b
        → ((if b then verdict_row now v r else r).run.id == k) ≡ true
        → HasVerdict now v (if b then verdict_row now v r else r)
    at_row now k v r true e i = (refl, refl, refl, refl, refl, refl, refl, refl)
    at_row now k v r false e i = absurd (ground arith)

-- A verdict survives: once the provisional verdict of a run is written with a terminal status, each of
-- its columns stays as it was written, whatever the runners do after, in any order: the enrichment of any
-- run, the guard and the reaper, the verdicts of other runs and the rows of new ones. A crash at any
-- point after the write so leaves the verdict.
pub write_provisional_verdict_survives :
    (now k : ℕ) (v : ProvisionalVerdict) (before after : List RunRow)
    → is_running_status v.status ≡ false
    → Later k (write_provisional_verdict now k v before) after
    → AllHave k now v after
write_provisional_verdict_survives now k v before after terminal l =
    Later-AllHave k now v terminal (verdict-AllHave now k v before) l
