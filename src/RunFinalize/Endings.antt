-- ===== src/RunFinalize/Endings.antt =====
-- How the runs of runner/index.ts end, with and without a verdict.
use synthwatch.Prelude.{
  All, ℕ, ◌≡◌, refl, String, Option, none, some, Bool, true, false, ◌&&◌, List, [], ◌∷◌, ◌==◌,
  if◌then◌else◌, arith, all, is_some, not, ◌||◌,
}
use synthwatch.Types.{error}
use synthwatch.RunFinalize.{
  RunRow, is_running_status, give_up, coalesce, finalize_fallback, is_stale_running,
  reap_stale_running, Ending, finished, threw, killed, run_one_row,
}
use synthwatch.RunFinalize.Survival.{HasVerdict, now_on, reaped, write_provisional_verdict_survives}

-- A row that was given up, with a message.
abbrev pub IsGivenUp : RunRow → Type 0
IsGivenUp r = (r.run.status ≡ error) × (is_some r.error_message ≡ true)

-- What a row of a run is left with.
abbrev pub HasEnded : Ending → ℕ → RunRow → Type 0
HasEnded (finished v) at r = HasVerdict at v r
HasEnded threw at r = IsGivenUp r
HasEnded killed at r = IsGivenUp r

-- A verdict has a terminal status.
abbrev pub has_terminal : Ending → Bool
has_terminal (finished v) = not (is_running_status v.status)
has_terminal _ = true

-- A row of run `k` is running, and it is stale at the instant `later`.
abbrev pub will_be_stale : ℕ → ℕ → RunRow → Bool
will_be_stale k later r = not (r.run.id == k) || is_stale_running later r

give_up-IsGivenUp : (now : ℕ) (message : String) (r : RunRow) → IsGivenUp (give_up now message r)
give_up-IsGivenUp now message r = (refl, has_message r.error_message message)
  where
    has_message : (m : Option String) (message : String) → is_some (coalesce m message) ≡ true
    has_message none message = refl
    has_message (some m) message = refl

module _ (k now later : ℕ) where
  id_of :
      (at : ℕ) (message : String) (b : Bool) (r : RunRow)
      → ((if b then give_up at message r else r).run.id == k) ≡ true
      → (r.run.id == k) ≡ true
  id_of at message true r i = i
  id_of at message false r i = i

  killed_row :
      (message : String) (r : RunRow)
      → will_be_stale k later r ≡ true
      → (r.run.id == k) ≡ true
      → IsGivenUp (if is_stale_running later r then give_up later message r else r)
  killed_row message r h i =
      elim (is_stale_running later r)
          as (λ b.
            (is_stale_running later r ≡ b) → IsGivenUp (if b then give_up later message r else r)) [
              | true ↦ λ e. give_up-IsGivenUp later message r
              | false ↦ λ e. absurd (ground arith)
            ]
        refl

  ends_killed :
      (rows : List RunRow)
      → all (will_be_stale k later) rows ≡ true
      → All (λ r. (r.run.id == k) ≡ true → IsGivenUp r) (reap_stale_running later rows)
  unfolding reap_stale_running
  ends_killed [] h = tt
  ends_killed (r ∷ rows) h = (
    λ i. killed_row _ r (ground arith) (id_of later _ (is_stale_running later r) r i),
    ends_killed rows (ground arith),
  )

  threw_row :
      (message : String) (r : RunRow)
      → will_be_stale k later r ≡ true
      → (r.run.id == k) ≡ true
      → IsGivenUp
          (if r.run.id == k && is_running_status r.run.status then give_up now message r else r)
  threw_row message r h i =
      elim (r.run.id == k && is_running_status r.run.status)
          as (λ b.
            ((r.run.id == k && is_running_status r.run.status) ≡ b)
            → IsGivenUp (if b then give_up now message r else r)) [
              | true ↦ λ e. give_up-IsGivenUp now message r
              | false ↦ λ e. absurd (ground arith)
            ]
        refl

  -- The reaper leaves a row that was given up.
  reaped-IsGivenUp :
      (message : String) (r : RunRow)
      → IsGivenUp r
      → IsGivenUp (if is_stale_running later r then give_up later message r else r)
  reaped-IsGivenUp message r h =
      elim (is_stale_running later r)
        as (λ b. IsGivenUp (if b then give_up later message r else r)) [
          | true ↦ give_up-IsGivenUp later message r
          | false ↦ h
        ]

  ends_threw :
      (rows : List RunRow)
      → all (will_be_stale k later) rows ≡ true
      → All
          (λ r. (r.run.id == k) ≡ true → IsGivenUp r)
          (reap_stale_running later (finalize_fallback false now k rows))
  unfolding reap_stale_running finalize_fallback
  ends_threw [] h = tt
  ends_threw (r ∷ rows) h =
      let b = r.run.id == k && is_running_status r.run.status in
      let x = if b then give_up now "runner threw before finalizing the run" r else r in
      (
        λ i. reaped-IsGivenUp _ x (
            threw_row _ r (ground arith)
              (id_of now _ b r (id_of later _ (is_stale_running later x) x i))),
        ends_threw rows (ground arith),
      )

-- Every run ends: for a process that has inserted run `k` and has judged it, has thrown or was killed,
-- the reaper of any tick more than half an hour after the insertion leaves the run with its verdict where
-- there was one, and else with status 'error' and a message.
pub run_one_row_ends :
    (e : Ending) (now k later : ℕ) (rows : List RunRow)
    → has_terminal e ≡ true
    → all (will_be_stale k later) rows ≡ true
    → All
        (λ r. (r.run.id == k) ≡ true → HasEnded e now r)
        (reap_stale_running later (run_one_row e now k rows))
unfolding run_one_row finalize_fallback
run_one_row_ends (finished v) now k later rows terminal h =
    write_provisional_verdict_survives now k v rows _ (ground arith) (reaped later now_on)
run_one_row_ends threw now k later rows terminal h = ends_threw k now later rows h
run_one_row_ends killed now k later rows terminal h = ends_killed k now later rows h
