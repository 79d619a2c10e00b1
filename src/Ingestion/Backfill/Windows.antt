-- ===== src/Ingestion/Backfill/Windows.antt =====
-- internal/ingestion/service.go: the windows of a backfill.
use mathlib.Core.List.{append_assoc, append-nil}
use shaker.Prelude.{
  ℕ, zero, suc, ◌≡◌, ◌≢◌, refl, sym, ap, ◌∙◌, ◌⊎◌, inl, inr, String, Option, none, some, List, [],
  ◌∷◌, ◌++◌, pos, ◌≤ℤ◌, ◌<ℤ◌, ◌+ℤ◌, +ℤ_parts, arith, Bool-cases, Option-cases,
}
use shaker.Go.Time.{Time, Duration, before}
use shaker.Ingestion.Batches.{batches}
use shaker.Ingestion.Poll.{batch_size}
use shaker.Ingestion.Backfill.{
  Outside, Progress, Outcome, succeeded, failed, out_of_fuel, apply_all, fetch_window, window_end,
  keep, run_windows,
}

-- The windows follow each other from the start to the end, each one later than its start and no
-- longer than the chunk.
abbrev pub IsChain : Duration → Time → List (Time × Time) → Time → Type 0
IsChain chunk start [] end = start ≡ end
IsChain chunk start ((a, b) ∷ ws) end =
    (a ≡ start) × (a <ℤ b) × (b ≤ℤ a +ℤ chunk) × IsChain chunk b ws end

-- What the checkpoint is after windows that end at a time.
abbrev pub checkpoint_after : Option Time → List (Time × Time) → Time → Option Time
checkpoint_after old [] end = old
checkpoint_after old (w ∷ ws) end = some end

checkpoint_after_cons :
    (w : Time × Time) (ws : List (Time × Time)) (a end : Time) (old : Option Time)
    (chunk : Duration)
    → IsChain chunk a ws end
    → checkpoint_after (some a) ws end ≡ checkpoint_after old (w ∷ ws) end
checkpoint_after_cons w [] a end old chunk h = ap some h
checkpoint_after_cons w (v ∷ ws) a end old chunk h = refl

pub outcome-cases : (r : Outcome) → ((r ≡ failed) ⊎ (r ≡ out_of_fuel)) ⊎ (r ≡ succeeded)
outcome-cases failed = inl (inl refl)
outcome-cases out_of_fuel = inl (inr refl)
outcome-cases succeeded = inr refl

window_end_bounds :
    (start to : Time) (chunk : Duration)
    → start <ℤ to
    → pos 0 <ℤ chunk
    → (start <ℤ window_end start to chunk)
      × (window_end start to chunk ≤ℤ to)
      × (window_end start to chunk ≤ℤ start +ℤ chunk)
window_end_bounds start to chunk l c = ground (arith, +ℤ_parts start chunk)

module _ {E : Type 0} (o : Outside E) where
  apply_all-keeps :
      (bs : List (List E)) (p : Progress E)
      → ((apply_all o bs p).0.checkpoint ≡ p.checkpoint)
        × ((apply_all o bs p).0.windows ≡ p.windows)
  unfolding apply_all
  apply_all-keeps [] p = (refl, refl)
  apply_all-keeps (b ∷ bs) p = elim (Bool-cases (o.apply_ok b)) [
    | inl e ↦ rw e (apply_all-keeps bs _)
    | inr e ↦ rw e (refl, refl)
  ]

  fetch_window-keeps :
      (fuel : ℕ) (start end : Time) (cursor : Option String) (p : Progress E)
      → ((fetch_window o fuel start end cursor p).0.checkpoint ≡ p.checkpoint)
        × ((fetch_window o fuel start end cursor p).0.windows ≡ p.windows)
  unfolding fetch_window
  fetch_window-keeps zero start end cursor p = (refl, refl)
  fetch_window-keeps (suc fuel) start end cursor p =
      elim (Option-cases (o.fetch start end cursor)) [
        | inl e ↦ rw (fetch_window, e) (refl, refl)
        | inr (page, e) ↦
            let bs = batches batch_size page.events in
            let kept = apply_all-keeps bs p in
            elim (Bool-cases (apply_all o bs p).1) [
              | inr bad ↦ rw (fetch_window, e, bad) kept
              | inl good ↦ elim (Option-cases page.next) [
                | inl n ↦ rw (fetch_window, e, good, n) kept
                | inr (c, n) ↦
                    let rest = fetch_window-keeps fuel start end (some c) (apply_all o bs p).0 in
                    rw (fetch_window, e, good, n) (rest.0 ∙ kept.0, rest.1 ∙ kept.1)
              ]
            ]
      ]

  -- What the windows of a run amount to.
  abbrev pub IsRun : Duration → Time → Time → Progress E → Progress E × Outcome → Type 0
  IsRun chunk to start p r =
      (ws : List (Time × Time)) × (reached : Time) × (r.0.windows ≡ p.windows ++ ws)
      × IsChain chunk start ws reached
      × (reached ≤ℤ to)
      × (r.0.checkpoint ≡ checkpoint_after p.checkpoint ws reached)
      × ((r.1 ≢ succeeded) ⊎ (reached ≡ to))

  -- A run that stops at once.
  stop :
      (chunk : Duration) (to start : Time) (p q : Progress E) (r : Outcome)
      → start ≤ℤ to
      → q.windows ≡ p.windows
      → q.checkpoint ≡ p.checkpoint
      → (r ≢ succeeded) ⊎ (start ≡ to)
      → IsRun chunk to start p (q, r)
  stop chunk to start p q r l w c e = ([], start, w ∙ sym (append-nil p.windows), refl, l, c, e)

  -- A run that goes on after a window.
  go_on :
      (chunk : Duration) (to start end : Time) (p q : Progress E) (r : Progress E × Outcome)
      → start <ℤ end
      → end ≤ℤ start +ℤ chunk
      → q.windows ≡ p.windows
      → IsRun chunk to end (keep start end q) r
      → IsRun chunk to start p r
  go_on chunk to start end p q r l m w (ws, reached, windows, chain, le, checkpoint, last) = (
    (start, end) ∷ ws,
    reached,
    windows ∙ append_assoc q.windows _ _ ∙ ap (λ v. v ++ (start, end) ∷ ws) w,
    (refl, l, m, chain),
    le,
    checkpoint ∙ checkpoint_after_cons (start, end) ws end reached p.checkpoint chunk chain,
    last,
  )

  -- For a positive chunk and a start that is not after the end: whatever fails, a run has kept a
  -- chain of windows from its start to some time that is not after its end, and its checkpoint is
  -- that time, so that the next run goes on there with no gap. A run that succeeds has reached the
  -- end.
  pub run_windows-IsRun :
      (fuel pages : ℕ) (chunk : Duration) (to start : Time) (p : Progress E)
      → pos 0 <ℤ chunk
      → start ≤ℤ to
      → IsRun chunk to start p (run_windows o fuel pages chunk to start p)
  unfolding run_windows
  run_windows-IsRun zero pages chunk to start p c l = elim (Bool-cases (before start to)) [
    | inl e ↦ rw e (stop chunk to start p p out_of_fuel l refl refl (inl (λ k. cc)))
    | inr e ↦ rw e (stop chunk to start p p succeeded l refl refl (inr (ground arith)))
  ]
  run_windows-IsRun (suc fuel) pages chunk to start p c l = elim (Bool-cases (before start to)) [
    | inr e ↦ rw e (stop chunk to start p p succeeded l refl refl (inr (ground arith)))
    | inl e ↦
        let end = window_end start to chunk in
        let (later, inside, short) = window_end_bounds start to chunk (ground arith) c in
        let fetched = (fetch_window o pages start end none p).0 in
        let (checkpoint, windows) = fetch_window-keeps pages start end none p in
        elim (Bool-cases (o.start_ok start)) [
          | inr e2 ↦ rw (e, e2) (stop chunk to start p p failed l refl refl (inl (λ k. cc)))
          | inl e2 ↦ elim (outcome-cases (fetch_window o pages start end none p).1) [
            | inl (inl f) ↦
                rw (e, e2, f)
                  (stop chunk to start p fetched failed l windows checkpoint (inl (λ k. cc)))
            | inl (inr f) ↦
                rw (e, e2, f)
                  (stop chunk to start p fetched out_of_fuel l windows checkpoint (inl (λ k. cc)))
            | inr f ↦ elim (Bool-cases (o.set_ok end)) [
              | inr e3 ↦
                  rw (e, e2, f, e3)
                    (stop chunk to start p fetched failed l windows checkpoint (inl (λ k. cc)))
              | inl e3 ↦ elim (Bool-cases (o.finish_ok end)) [
                | inr e4 ↦
                    rw (e, e2, f, e3, e4)
                      (go_on chunk to start end p fetched (keep start end fetched, failed) later
                        short windows
                        (stop chunk to end (keep start end fetched) (keep start end fetched) failed
                          inside refl refl (inl (λ k. cc))))
                | inl e4 ↦
                    rw (e, e2, f, e3, e4)
                      (go_on chunk to start end p fetched
                        (run_windows o fuel pages chunk to end (keep start end fetched)) later short
                        windows
                        (run_windows-IsRun fuel pages chunk to end (keep start end fetched) c
                          inside))
              ]
            ]
          ]
        ]
  ]
