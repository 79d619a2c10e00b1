-- ===== src/Earthquake/Correlation/Gates.antt =====
-- What a scored pair of observations has passed.
use shaker.Prelude.{
  suc, negsuc, ◌<ℤ◌, -ℤ_parts, eq_of_parts, pos, ◌-ℤ◌, ◌≤ℤ◌, ◌≡◌, false, Option, none, some, arith,
  ltb_ℤ, leb_ℤ, inl, inr, ◌⊎◌, Bool-cases,
}
use shaker.Go.Float.{Float, Math, lt}
use shaker.Go.Time.{Time, Duration, time_sub, max_duration}
use shaker.Earthquake.Event.{Event}
use shaker.Earthquake.Correlation.{
  CorrelationPolicy, CorrelationMatch, optional_term, difference, abs_duration, surface_distance_km,
  score,
}

-- An optional difference that is not above its maximum.
abbrev pub IsWithin : {F : Type 0} ⦃f : Float F⦄ → Option F → F → Type 0
IsWithin none maximum = Unit
IsWithin (some diff) maximum = lt maximum diff ≡ false

-- The two times are at most the maximum apart, unless Sub saturates: then they are 2^63 - 1
-- nanoseconds (292 years) or more apart.
abbrev pub IsInTime : Duration → Time → Time → Type 0
IsInTime maximum t u =
    ((t -ℤ u ≤ℤ maximum) × (u -ℤ t ≤ℤ maximum))
    ⊎ ((pos max_duration ≤ℤ t -ℤ u) ⊎ (pos max_duration ≤ℤ u -ℤ t))

-- The two observations are near enough to one another in time, place, magnitude and depth.
pub record IsNear {F : Type 0} ⦃f : Float F⦄ ⦃m : Math F⦄ (p : CorrelationPolicy F) (a b : Event F)
    : Type 0 where
  pub in_time :
      ltb_ℤ p.maximum_time_delta (abs_duration (time_sub a.occurred_at b.occurred_at)) ≡ false
  pub in_time_truly : IsInTime p.maximum_time_delta a.occurred_at b.occurred_at
  pub in_place :
      lt p.maximum_distance_km (surface_distance_km a.latitude a.longitude b.latitude b.longitude)
      ≡ false
  pub in_magnitude : IsWithin (difference a.magnitude b.magnitude) p.maximum_magnitude_diff
  pub in_depth : IsWithin (difference a.depth_km b.depth_km) p.maximum_depth_diff_km

module _ {F : Type 0} ⦃f : Float F⦄ where
  optional_term-IsWithin :
      (diff : Option F) (maximum weight : F) (sums : F × F) {total : F × F}
      → optional_term diff maximum weight sums ≡ some total
      → IsWithin diff maximum
  unfolding optional_term
  optional_term-IsWithin none maximum weight sums e = tt
  optional_term-IsWithin (some d) maximum weight sums e = ground arith

gate-IsInTime :
    (t u : Time) (maximum : Duration)
    → ltb_ℤ maximum (abs_duration (time_sub t u)) ≡ false
    → IsInTime maximum t u
unfolding abs_duration time_sub
gate-IsInTime t u maximum e = elim (Bool-cases (leb_ℤ (pos max_duration) (t -ℤ u))) [
  | inl far ↦ inr (inl (ground (arith, far)))
  | inr near ↦ elim (Bool-cases (leb_ℤ (pos max_duration) (u -ℤ t))) [
    | inl far ↦ inr (inr (ground (arith, far)))
    | inr close ↦
        inl (ground (arith, near, close, -ℤ_parts t u, -ℤ_parts u t, -ℤ_parts (pos 0) (t -ℤ u)))
  ]
]

module _ {F : Type 0} ⦃f : Float F⦄ ⦃m : Math F⦄ where
  score-in_time :
      (p : CorrelationPolicy F) (a b : Event F) {match : CorrelationMatch F}
      → score p a b ≡ some match
      → ltb_ℤ p.maximum_time_delta (abs_duration (time_sub a.occurred_at b.occurred_at)) ≡ false
  unfolding score
  score-in_time p a b e = ground arith

  pub score-IsNear :
      (p : CorrelationPolicy F) (a b : Event F) {match : CorrelationMatch F}
      → score p a b ≡ some match
      → IsNear p a b
  unfolding score
  score-IsNear p a b e = record {
    in_time = score-in_time p a b e;
    in_time_truly = gate-IsInTime _ _ _ (score-in_time p a b e);
    in_place = ground arith;
    in_magnitude = ground arith;
    in_depth = ground arith;
  }

-- Unless the second observation is later by 2^63 nanoseconds or more, a time gate below the largest
-- Duration bounds the distance of the two origins on both sides.
pub in_time_bounds :
    (t u : Time) (maximum : Duration)
    → u -ℤ t ≤ℤ pos max_duration
    → maximum <ℤ pos max_duration
    → ltb_ℤ maximum (abs_duration (time_sub t u)) ≡ false
    → (t -ℤ u ≤ℤ maximum) × (u -ℤ t ≤ℤ maximum)
unfolding abs_duration time_sub
in_time_bounds t u maximum h k e =
    ground (arith, -ℤ_parts t u, -ℤ_parts u t, -ℤ_parts (pos 0) (t -ℤ u))

time_sub-saturates :
    (t u : Time) → pos (suc max_duration) ≤ℤ u -ℤ t → time_sub t u ≡ negsuc max_duration
unfolding time_sub
time_sub-saturates t u h =
    ground (arith, -ℤ_parts t u, -ℤ_parts u t, eq_of_parts (t -ℤ u) (negsuc max_duration))

-- When the second observation is later by 2^63 nanoseconds (292 years) or more, `Sub` saturates at
-- the least Duration, whose negation overflows to itself, and the time gate passes.
pub in_time_overflow :
    (t u : Time) (maximum : Duration)
    → pos (suc max_duration) ≤ℤ u -ℤ t
    → pos 0 ≤ℤ maximum
    → ltb_ℤ maximum (abs_duration (time_sub t u)) ≡ false
unfolding abs_duration
in_time_overflow t u maximum h e = rw (time_sub-saturates t u h) (ground arith)
