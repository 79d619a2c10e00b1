-- ===== src/Ingestion/Backfill.antt =====
-- internal/ingestion/service.go: RunBackfill. A window is fetched page by page and applied in
-- batches; the end of each finished window is kept, and a later run goes on from there.
pub mod Windows
pub mod Termination
use shaker.Prelude.{
  ℕ, zero, suc, Bool, true, false, not, String, Option, none, some, List, [], ◌∷◌, ◌++◌,
  if◌then◌else◌,
}
use shaker.Go.Time.{Time, Duration, time_add, before, after}
use shaker.Ingestion.Batches.{batches}
use shaker.Ingestion.Poll.{batch_size}

-- A page of FetchHistorical: its events and the cursor of the next page.
pub record Page (E : Type 0) : Type 0 where
  pub events : List E
  pub next : Option String

-- What is outside: the provider, and which calls of the repository succeed.
pub record Outside (E : Type 0) : Type 0 where
  pub read_ok : Bool
  pub start_ok : Time → Bool
  pub fetch : Time → Time → Option String → Option (Page E)
  pub apply_ok : List E → Bool
  pub set_ok : Time → Bool
  pub finish_ok : Time → Bool

-- The checkpoint of the run's key, the batches applied, and the windows whose checkpoint was kept.
pub record Progress (E : Type 0) : Type 0 where
  pub checkpoint : Option Time
  pub applied : List (List E)
  pub windows : List (Time × Time)

pub data Outcome : Type 0 where
  succeeded failed out_of_fuel : Outcome

-- end = start.Add(chunk), and `to` when that is after it
abbrev pub window_end : Time → Time → Duration → Time
window_end start to chunk = if after (time_add start chunk) to then to else time_add start chunk

-- SetState of the checkpoint
abbrev pub keep : {E : Type 0} → Time → Time → Progress E → Progress E
keep start end p = record p { checkpoint = some end; windows = p.windows ++ (start, end) ∷ [] }

-- Where a run starts: at the checkpoint of its key, when that is after `from`.
abbrev pub resume : Time → Option Time → Time
resume from none = from
resume from (some t) = if after t from then t else from

module _ {E : Type 0} (o : Outside E) where
  -- The loop over the batches of a page, which stops at the first error.
  apply_all : List (List E) → Progress E → Progress E × Bool
  apply_all [] p = (p, true)
  apply_all (b ∷ bs) p =
      let (last, finished) = apply_all bs (record p { applied = p.applied ++ b ∷ [] }) in
      if o.apply_ok b then (last, finished) else (p, false)

  -- The pages of a window; the provider decides how many there are, so the loop runs on fuel.
  unfoldable pub fetch_window : ℕ → Time → Time → Option String → Progress E → Progress E × Outcome
  unfolding apply_all batches
  fetch_window zero start end cursor p = (p, out_of_fuel)
  fetch_window (suc fuel) start end cursor p = elim (o.fetch start end cursor) [
    | none ↦ (p, failed)
    | some page ↦
        let (stored, applied) = apply_all (batches batch_size page.events) p in
        if not applied then (stored, failed) else elim page.next [
          | none ↦ (stored, succeeded)
          | some cursor ↦ fetch_window fuel start end (some cursor) stored
        ]
  ]

  -- The loop over the windows.
  unfoldable pub run_windows : ℕ → ℕ → Duration → Time → Time → Progress E → Progress E × Outcome
  unfolding fetch_window
  run_windows zero pages chunk to start p =
      if before start to then (p, out_of_fuel) else (p, succeeded)
  run_windows (suc fuel) pages chunk to start p =
      let end = window_end start to chunk in
      let (fetched, outcome) = fetch_window pages start end none p in
      let rest = run_windows fuel pages chunk to end (keep start end fetched) in
      if not (before start to)
      then (p, succeeded)
      else if not (o.start_ok start)
      then (p, failed)
      else elim outcome [
        | failed ↦ (fetched, failed)
        | out_of_fuel ↦ (fetched, out_of_fuel)
        | succeeded ↦
            if not (o.set_ok end)
            then (fetched, failed)
            else if not (o.finish_ok end)
            then (keep start end fetched, failed)
            else rest
      ]

  -- RunBackfill
  unfoldable pub run_backfill : ℕ → ℕ → Duration → Time → Time → Progress E → Progress E × Outcome
  unfolding run_windows
  run_backfill fuel pages chunk from to p =
      if not (before from to)
      then (p, failed)
      else if not o.read_ok
      then (p, failed)
      else run_windows fuel pages chunk to (resume from p.checkpoint) p
