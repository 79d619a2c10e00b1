-- ===== src/Notification/Worker/Backoff.antt =====
-- internal/notification/worker.go: the delay of a retry.
use shaker.Prelude.{ℕ, zero, suc, ◌+◌, ◌-◌, ◌*◌, ◌/◌, ◌^◌, ◌≤◌, ◌<◌, min, ◌≡◌, refl, arith, ltb}
use shaker.Go.Time.{second, hour}
use shaker.Notification.Worker.{backoff, retry_delay}
use shaker.Prelude.{Bool-cases, inl, inr}

power_suc : (k : ℕ) → 2 ^ suc k ≡ 2 * 2 ^ k
power_suc k = omega arith

at_least_one : (k : ℕ) → 1 ≤ 2 ^ k
at_least_one zero = omega arith
at_least_one (suc k) = omega (arith, at_least_one k, power_suc k)

power_mono : (d k n : ℕ) → n ≡ d + k → 2 ^ k ≤ 2 ^ n
power_mono zero k n e = let same : n ≡ k = omega arith in rw same (omega arith)
power_mono (suc d) k zero e = absurd (omega arith)
power_mono (suc d) k (suc n) e =
    omega (arith, power_mono d k n (omega arith), power_suc n, at_least_one n)

small_power : (k : ℕ) → k ≤ 9 → 2 ^ k ≤ 512
small_power k h = omega (arith, power_mono (9 - k) k 9 (omega arith))

power_min : (k : ℕ) → 2 ^ min (suc k) 9 ≡ min 512 (2 * 2 ^ min k 9)
power_min k = elim (Bool-cases (ltb k 9)) [
  | inl e ↦
      let above : min (suc k) 9 ≡ suc k = ground arith in
      let below : min k 9 ≡ k = ground arith in
      rw above (rw below (ground (arith, power_suc k, small_power (suc k))))
  | inr e ↦
      let above : min (suc k) 9 ≡ 9 = ground arith in
      let below : min k 9 ≡ 9 = ground arith in rw above (rw below refl)
]

-- From five seconds on, the delay before jitter doubles with each attempt up to 2560 seconds (42
-- minutes 40 seconds); the cap of an hour is never reached.
pub backoff-suc :
    (attempt : ℕ)
    → (backoff 1 ≡ 5 * second)
      × (backoff (suc (suc attempt)) ≡ min (2560 * second) (2 * backoff (suc attempt)))
unfolding backoff
backoff-suc attempt = (
  refl,
  ground (arith, power_min attempt, small_power (min attempt 9), small_power (min (suc attempt) 9)),
)

-- With a jitter of at most half of the backoff, a delay lies in the upper half of the backoff of
-- its attempt, is at least 2.5 seconds, and is below an hour.
pub retry_delay_bounds :
    (attempt jitter : ℕ)
    → jitter ≤ backoff attempt / 2
    → (backoff attempt / 2 ≤ retry_delay attempt jitter)
      × (retry_delay attempt jitter ≤ backoff attempt)
      × (5 * second ≤ 2 * (retry_delay attempt jitter))
      × (retry_delay attempt jitter < hour)
unfolding retry_delay backoff
retry_delay_bounds attempt jitter h =
    ground (arith, small_power (min (attempt - 1) 9), at_least_one (min (attempt - 1) 9))
