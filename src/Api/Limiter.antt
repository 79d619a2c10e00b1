-- ===== src/Api/Limiter.antt =====
-- internal/httpapi/server.go: rateLimiter. The map of entries is a function of the host; the text of
-- the host and the clock are arguments.
pub mod Window
use shaker.Prelude.{
  ℕ, suc, Bool, String, Option, none, some, List, [], ◌∷◌, leb, ltb_ℤ, if◌then◌else◌,
}
use shaker.Go.Time.{Time, Duration, time_sub}
use shaker.Go.Text.{◌==◌}

pub record RateEntry : Type 0 where
  pub start : Time
  pub count : ℕ

pub record RateLimiter : Type 0 where
  pub entries : String → Option RateEntry
  pub limit : ℕ
  pub window : Duration

-- newRateLimiter, for a limit that is not negative
unfoldable pub new_rate_limiter : ℕ → Duration → RateLimiter
new_rate_limiter limit window = record { entries = λ host. none; limit = limit; window = window }

-- the entry that a request of the host counts in
unfoldable pub current_entry : Duration → Time → Option RateEntry → RateEntry
current_entry window now none = record { start = now; count = 0 }
current_entry window now (some e) =
    if ltb_ℤ window (time_sub now e.start) then record { start = now; count = 0 } else e

unfoldable pub count_request : RateEntry → RateEntry
count_request e = record e { count = suc e.count }

-- middleware up to its answer: whether the request is passed on, and the entries after it
unfoldable pub serve : RateLimiter → String → Time → Bool × RateLimiter
unfolding current_entry count_request
serve l host now =
    let e = count_request (current_entry l.window now (l.entries host)) in
    (leb e.count l.limit, record l { entries = λ h. if h == host then some e else l.entries h })

-- the number of a host's requests that are passed on, in the order in which the lock is taken
unfoldable pub passed : String → List (String × Time) → RateLimiter → ℕ
unfolding serve
passed host [] l = 0
passed host ((from, now) ∷ rest) l =
    let served = serve l from now in
    let more = passed host rest served.1 in
    if from == host then (if served.0 then suc more else more) else more
