-- ===== src/Tests/ApiTests.antt =====
-- A limit of two requests in a minute, of which one is used, and two hosts.
use shaker.Prelude.{
  ◌≡◌, ◌+◌, refl, String, none, some, List, [], ◌∷◌, pos, min, ◌-ℤ◌, if◌then◌else◌,
}
use shaker.Go.Time.{Time, minute, time_sub}
use shaker.Go.Text.{◌==◌}
use shaker.Api.Limiter.{
  RateEntry, RateLimiter, new_rate_limiter, current_entry, count_request, serve, passed,
}
use shaker.Api.Limiter.Window.{requests_of, IsWithin, passed-limit}
use shaker.Tests.Samples.{at_second}

abbrev entry : RateEntry
entry = record { start = at_second 100; count = 1 }

abbrev limiter : RateLimiter
limiter = record {
  entries = λ host. if host == "10.0.0.1" then some entry else none;
  limit = 2;
  window = pos minute;
}

abbrev requests : List (String × Time)
requests =
    ("10.0.0.1", at_second 110) ∷ ("10.0.0.2", at_second 120) ∷ ("10.0.0.1", at_second 160) ∷ []

passed-limit_example :
    passed "10.0.0.1" requests limiter + min entry.count 2
    ≡ min (entry.count + requests_of "10.0.0.1" requests) 2
unfolding IsWithin time_sub ◌-ℤ◌
passed-limit_example =
    passed-limit "10.0.0.1" entry requests limiter refl (λ _. refl, (λ _. refl, (λ _. refl, tt)))

-- a window that is over begins again
passed_example :
    passed "10.0.0.1"
      (("10.0.0.1", at_second 0) ∷ ("10.0.0.1", at_second 60) ∷ ("10.0.0.1", at_second 61) ∷ [])
      (new_rate_limiter 1 (pos minute))
    ≡ 2
unfolding passed serve current_entry count_request new_rate_limiter time_sub ◌-ℤ◌
passed_example = refl
