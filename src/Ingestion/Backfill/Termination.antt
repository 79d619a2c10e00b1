-- ===== src/Ingestion/Backfill/Termination.antt =====
-- internal/ingestion/service.go: a backfill ends.
use shaker.Prelude.{
  ℕ, zero, suc, ◌+◌, ◌*◌, ◌≤◌, ◌≢◌, none, pos, +ℤ_parts, arith, Bool-cases, pos_part, neg_part, inl,
  inr,
}
use shaker.Go.Time.{Time, before}
use shaker.Ingestion.Backfill.{
  Outside, Progress, out_of_fuel, fetch_window, window_end, keep, run_windows,
}
use shaker.Ingestion.Backfill.Windows.{outcome-cases}

-- to - start is at most a number of chunks.
abbrev pub IsWithin : Time → Time → ℕ → ℕ → Type 0
IsWithin start to chunk n = pos_part to + neg_part start ≤ pos_part start + neg_part to + n * chunk

window_end-IsWithin :
    (start to : Time) (chunk fuel : ℕ)
    → IsWithin start to chunk (suc fuel)
    → IsWithin (window_end start to (pos chunk)) to chunk fuel
window_end-IsWithin start to chunk fuel h = ground (arith, +ℤ_parts start (pos chunk))

module _ {E : Type 0} (o : Outside E) where
  -- Where the fuel for pages is enough for every window, the chunk is positive, and the range is at
  -- most as many chunks long as there is fuel for windows, a run does not stop for want of fuel.
  pub run_windows-end :
      (fuel pages chunk : ℕ) (to start : Time) (p : Progress E)
      → 1 ≤ chunk
      → IsWithin start to chunk fuel
      → ((a b : Time) (q : Progress E) → (fetch_window o pages a b none q).1 ≢ out_of_fuel)
      → (run_windows o fuel pages (pos chunk) to start p).1 ≢ out_of_fuel
  unfolding run_windows
  run_windows-end zero pages chunk to start p c w ends = elim (Bool-cases (before start to)) [
    | inl e ↦ absurd (ground arith)
    | inr e ↦ rw e (λ k. cc)
  ]
  run_windows-end (suc fuel) pages chunk to start p c w ends = elim (Bool-cases (before start to)) [
    | inr e ↦ rw e (λ k. cc)
    | inl e ↦
        let end = window_end start to (pos chunk) in
        let fetched = (fetch_window o pages start end none p).0 in
        elim (Bool-cases (o.start_ok start)) [
          | inr e2 ↦ rw (e, e2) (λ k. cc)
          | inl e2 ↦ elim (outcome-cases (fetch_window o pages start end none p).1) [
            | inl (inl f) ↦ rw (e, e2, f) (λ k. cc)
            | inl (inr f) ↦ absurd (ends start end p f)
            | inr f ↦ elim (Bool-cases (o.set_ok end)) [
              | inr e3 ↦ rw (e, e2, f, e3) (λ k. cc)
              | inl e3 ↦ elim (Bool-cases (o.finish_ok end)) [
                | inr e4 ↦ rw (e, e2, f, e3, e4) (λ k. cc)
                | inl e4 ↦
                    rw (e, e2, f, e3, e4)
                      (run_windows-end fuel pages chunk to end (keep start end fetched) c
                        (window_end-IsWithin start to chunk fuel w) ends)
              ]
            ]
          ]
        ]
  ]
