-- ===== src/Tests/IngestionTests.antt =====
-- Batches, polls and backfills over events that are numbers.
use shaker.Prelude.{
  ℕ, All, ◌≡◌, ◌≢◌, refl, ◌⊎◌, ◌++◌, ◌+ℤ◌, true, none, some, List, [], ◌∷◌, pos, arith,
}
use shaker.Go.Time.{Time}
use shaker.Ingestion.Batches.{batches}
use shaker.Ingestion.Poll.{
  Applied, World, Store, Fetched, poll, mode_of, baseline_complete, state_etag, state_last_modified,
}
use shaker.Ingestion.Poll.Laws.{applied_events, IsBatch, poll-state}
use shaker.Ingestion.Backfill.{Outside, Progress, out_of_fuel, run_windows, fetch_window}
use shaker.Ingestion.Backfill.Windows.{IsRun, run_windows-IsRun}
use shaker.Ingestion.Backfill.Termination.{run_windows-end}
use shaker.Tests.Samples.{at_second}

abbrev numbers : List ℕ
numbers = 7 ∷ 8 ∷ 9 ∷ []

two_batches : batches 2 numbers ≡ (7 ∷ 8 ∷ []) ∷ (9 ∷ []) ∷ []
unfolding batches
two_batches = refl

abbrev fetched : Fetched ℕ
fetched = record { events = 7 ∷ 8 ∷ []; etag = "v1"; last_modified = "" }

abbrev world : World ℕ
world = record {
  read_ok = true;
  start_ok = true;
  apply_ok = λ _. true;
  set_ok = λ _. true;
  finish_ok = true;
  fetch = λ _ _. some fetched;
  format_time = λ _. "12:00";
}

abbrev store : Store ℕ
store = record { state = λ _. none; applied = []; runs = [] }

poll-state_example :
    ((poll world (at_second 5) store).0.state ≡ store.state)
    ⊎ ((f : Fetched ℕ) × (world.fetch (store.state state_etag) (store.state state_last_modified)
          ≡ some f)
        × ((news : List (Applied ℕ)) × ((poll world (at_second 5) store).0.applied
              ≡ store.applied ++ news)
            × (applied_events news ≡ f.events)
            × All (IsBatch (mode_of world store) (baseline_complete world store)) news))
poll-state_example = poll-state world (at_second 5) store

-- Every window has one page of two events.
abbrev outside : Outside ℕ
outside = record {
  read_ok = true;
  start_ok = λ _. true;
  fetch = λ _ _ _. some (record { events = 7 ∷ 8 ∷ []; next = none });
  apply_ok = λ _. true;
  set_ok = λ _. true;
  finish_ok = λ _. true;
}

abbrev progress : Progress ℕ
progress = record { checkpoint = none; applied = []; windows = [] }

one_page : (a b : Time) (q : Progress ℕ) → (fetch_window outside 1 a b none q).1 ≢ out_of_fuel
unfolding fetch_window batches
one_page a b q k = cc

run_windows-IsRun_example :
    IsRun outside
      (pos 10)
      (pos 25)
      (pos 0)
      progress
      (run_windows outside 3 1 (pos 10) (pos 25) (pos 0) progress)
run_windows-IsRun_example =
    run_windows-IsRun outside 3 1 (pos 10) (pos 25) (pos 0) progress (omega arith) (omega arith)

run_windows-end_example :
    (run_windows outside 3 1 (pos 10) (pos 25) (pos 0) progress).1 ≢ out_of_fuel
run_windows-end_example =
    run_windows-end outside 3 1 10 (pos 25) (pos 0) progress (omega arith) (omega arith) one_page

windows_of_a_run :
    (run_windows outside 3 1 (pos 10) (pos 25) (pos 0) progress).0.windows
    ≡ (pos 0, pos 10) ∷ (pos 10, pos 20) ∷ (pos 20, pos 25) ∷ []
unfolding run_windows fetch_window batches ◌+ℤ◌
windows_of_a_run = refl
