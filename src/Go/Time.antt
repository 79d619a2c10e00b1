-- ===== src/Go/Time.antt =====
-- time.Time and time.Duration. A time is its distance in nanoseconds from the zero Time (January 1,
-- year 1, UTC), without location and monotonic reading; a duration is a number of nanoseconds.
use shaker.Prelude.{eqb_ℤ, ℕ, Bool, ℤ, pos, negsuc, ◌+ℤ◌, ◌-ℤ◌, ltb_ℤ, if◌then◌else◌}

abbrev pub Time : Type 0
Time = ℤ

abbrev pub Duration : Type 0
Duration = ℤ

abbrev pub zero_time : Time
zero_time = pos 0

-- t.IsZero()
abbrev pub is_zero : Time → Bool
is_zero t = eqb_ℤ t zero_time

-- t.Before(u), t.After(u), t.Equal(u)
abbrev pub before : Time → Time → Bool
before t u = ltb_ℤ t u

abbrev pub after : Time → Time → Bool
after t u = ltb_ℤ u t

abbrev pub equal : Time → Time → Bool
equal t u = eqb_ℤ t u

abbrev pub nanosecond : ℕ
nanosecond = 1

abbrev pub second : ℕ
second = 1000000000

abbrev pub minute : ℕ
minute = 60000000000

abbrev pub hour : ℕ
hour = 3600000000000

-- The largest Duration, 2^63 - 1 nanoseconds.
abbrev pub max_duration : ℕ
max_duration = 9223372036854775807

-- t.Sub(u) saturates at the least and at the largest Duration.
unfoldable pub time_sub : Time → Time → Duration
time_sub t u =
    let d = t -ℤ u in
    if ltb_ℤ (pos max_duration) d
    then pos max_duration
    else if ltb_ℤ d (negsuc max_duration)
    then negsuc max_duration
    else d

-- t.Add(d), for times that the nanosecond count of a Time can hold.
abbrev pub time_add : Time → Duration → Time
time_add t d = t +ℤ d

-- -d on int64, where the least value is its own negation
unfoldable pub neg_duration : Duration → Duration
neg_duration d = if eqb_ℤ d (negsuc max_duration) then d else pos 0 -ℤ d
