-- ===== src/Tests/ShakingTests.antt =====
-- The estimate and the candidate radius of an earthquake, over float64 as fixed point.
use shaker.Prelude.{◌≡◌, refl, ◌⊎◌, none, some}
use shaker.Go.Float.{Milli, milli, Milli-IsIeee}
use shaker.Shaking.{Logs, Estimate, estimate_at}
use shaker.Shaking.Laws.{IsNoNumber, IsEstimate, estimate_at-IsEstimate}
use shaker.Tests.Samples.{milli_of}

instance abbrev pub crude_logs : Logs Milli
crude_logs = record {
  exp = λ x. x;
  log = λ x. x;
  square_root = λ x. x;
  hypot = λ x _. x;
  asin = λ x. x;
}

estimate_at-IsEstimate_example :
    (IsNoNumber (some (milli_of 5000))
      × (estimate_at (λ t. t) (some (milli_of 5000)) none (milli_of 30000) (some "mw") ≡ none))
    ⊎ ((e : Estimate Milli) × (estimate_at
            (λ t. t)
            (some (milli_of 5000))
            none
            (milli_of 30000)
            (some "mw")
          ≡ some e)
        × IsEstimate (some (milli_of 5000)) e)
estimate_at-IsEstimate_example =
    estimate_at-IsEstimate Milli-IsIeee refl (λ t. t) (some (milli_of 5000)) none (milli_of 30000)
      (some "mw")
