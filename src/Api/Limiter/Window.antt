-- ===== src/Api/Limiter/Window.antt =====
-- internal/httpapi/server.go: how many requests of a host a window admits, whatever others do.
use shaker.Prelude.{
  ℕ, suc, ◌+◌, ◌≡◌, refl, inl, inr, true, false, String, some, List, [], ◌∷◌, leb, ltb_ℤ, min,
  if◌then◌else◌, arith, eq_iff, All, Bool-cases, ap, ◌∙◌,
}
use shaker.Go.Time.{Time, Duration, time_sub}
use shaker.Go.Text.{◌==◌}
use shaker.Api.Limiter.{RateEntry, RateLimiter, current_entry, count_request, serve, passed}

-- the requests of a host
unfoldable pub requests_of : String → List (String × Time) → ℕ
requests_of host [] = 0
requests_of host ((from, now) ∷ rest) =
    let more = requests_of host rest in if from == host then suc more else more

-- a request of the host stays within the window that began at a time
unfoldable pub IsWithin : String → Duration → Time → String × Time → Type 0
IsWithin host window start (from, now) =
    (from == host) ≡ true → ltb_ℤ window (time_sub now start) ≡ false

module _ (l : RateLimiter) (host from : String) (now : Time) (e : RateEntry)
    (has : l.entries host ≡ some e) where
  -- the entry of a host after its own request within the window, and after a request of another
  serve-own :
      from ≡ host
      → ltb_ℤ l.window (time_sub now e.start) ≡ false
      → ((serve l from now).0 ≡ leb (suc e.count) l.limit)
        × ((serve l from now).1.entries host ≡ some (count_request e))
  unfolding serve current_entry count_request
  serve-own same within =
      let found : l.entries from ≡ some e = ap l.entries same ∙ has in
      let mine : (host == from) ≡ true = ground (arith, eq_iff host from, same) in
      rw (found, within, mine) (refl, refl)

  serve-other : (from == host) ≡ false → (serve l from now).1.entries host ≡ some e
  unfolding serve
  serve-other differ =
      let others : (host == from) ≡ false =
        ground (arith, eq_iff host from, eq_iff from host, differ) in
      rw others has

-- Where a host's window has begun and its further requests stay within it, interleaved with those
-- of other hosts in any way, the limiter passes on as many of them as the limit leaves after those
-- counted before, and refuses the rest.
pub passed-limit :
    (host : String) (e : RateEntry) (requests : List (String × Time)) (l : RateLimiter)
    → l.entries host ≡ some e
    → All (IsWithin host l.window e.start) requests
    → passed host requests l + min e.count l.limit
      ≡ min (e.count + requests_of host requests) l.limit
unfolding passed requests_of serve count_request IsWithin
passed-limit host e [] l has h = omega arith
passed-limit host e ((from, now) ∷ rest) l has h = elim (Bool-cases (from == host)) [
  | inl same ↦
      let own =
        serve-own l host from now e has (ground (arith, eq_iff from host, same)) (h.0 same) in
      let rest' = passed-limit host (count_request e) rest (serve l from now).1 own.1 h.1 in
      ground (arith, same, own.0, rest')
  | inr other ↦ ground (
    arith,
    other,
    passed-limit host e rest (serve l from now).1 (serve-other l host from now e has other) h.1,
  )
]
