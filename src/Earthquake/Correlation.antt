-- ===== src/Earthquake/Correlation.antt =====
-- internal/domain/earthquake/correlation.go: whether an observation of one catalogue belongs to an
-- incident that another catalogue reported. `string_before` is the order of the texts that
-- uuid.UUID.String writes, which the third-party package defines.
pub mod Gates
pub mod Ranking
pub mod Decision
use shaker.Prelude.{
  ◌*◌, Bool, true, false, not, ◌&&◌, String, Option, none, some, List, [], ◌∷◌, pos, ◌-ℤ◌, ◌*ℤ◌,
  ◌/ℤ◌, ltb_ℤ, if◌then◌else◌,
}
use shaker.Go.Float.{Float, Math, lt, le, eq, add, sub, mul, div, lit, ratio, abs}
use shaker.Go.Time.{Duration, time_sub, neg_duration, second}
use shaker.Go.Text.{◌==◌}
use shaker.Earthquake.Event.{Uuid, uuid_nil, Event}

pub record CorrelationPolicy (F : Type 0) : Type 0 where
  pub version : String
  pub maximum_time_delta : Duration
  pub maximum_distance_km : F
  pub maximum_magnitude_diff : F
  pub maximum_depth_diff_km : F
  pub time_weight : F
  pub distance_weight : F
  pub magnitude_weight : F
  pub depth_weight : F
  pub acceptance_threshold : F
  pub ambiguity_margin : F

pub record CorrelationCandidate (F : Type 0) : Type 0 where
  pub incident_id : Uuid
  pub event : Event F

pub record CorrelationMatch (F : Type 0) : Type 0 where
  pub incident_id : Uuid
  pub score : F
  pub time_delta_seconds : F
  pub distance_km : F
  pub magnitude_diff : Option F
  pub depth_diff_km : Option F

pub record CorrelationDecision (F : Type 0) : Type 0 where
  pub match : Option (CorrelationMatch F)
  pub ambiguous : Bool
  pub ranked : List (CorrelationMatch F)

-- absDuration
unfoldable pub abs_duration : Duration → Duration
unfolding neg_duration
abs_duration value = if ltb_ℤ value (pos 0) then neg_duration value else value

module _ {F : Type 0} ⦃f : Float F⦄ where
  -- CorrelationPolicy.Valid
  unfoldable pub valid : CorrelationPolicy F → Bool
  valid p =
      not (p.version == "")
      && ltb_ℤ (pos 0) p.maximum_time_delta
      && lt (lit 0) p.maximum_distance_km
      && lt (lit 0) p.maximum_magnitude_diff
      && lt (lit 0) p.maximum_depth_diff_km
      && le (lit 0) p.time_weight
      && le (lit 0) p.distance_weight
      && le (lit 0) p.magnitude_weight
      && le (lit 0) p.depth_weight
      && lt (lit 0)
          (add (add (add p.time_weight p.distance_weight) p.magnitude_weight) p.depth_weight)
      && le (lit 0) p.acceptance_threshold
      && le p.acceptance_threshold (lit 1)
      && le (lit 0) p.ambiguity_margin
      && le p.ambiguity_margin (lit 1)

  -- time.Duration.Seconds
  unfoldable pub seconds : Duration → F
  seconds d =
      let whole = d /ℤ pos second in
      add (f.of_ℤ whole) (div (f.of_ℤ (d -ℤ whole *ℤ pos second)) (lit second))

  -- math.Abs(*a - *b) where both pointers are set
  abbrev pub difference : Option F → Option F → Option F
  difference (some a) (some b) = some (abs (sub a b))
  difference _ _ = none

  -- One of the two optional terms of `score`: `none` where the difference is above its maximum.
  unfoldable pub optional_term : Option F → F → F → F × F → Option (F × F)
  optional_term none maximum weight (weighted, weights) = some (weighted, weights)
  optional_term (some diff) maximum weight (weighted, weights) =
      if lt maximum diff
      then none
      else some (add weighted (mul weight (sub (lit 1) (div diff maximum))), add weights weight)

module _ {F : Type 0} ⦃f : Float F⦄ ⦃m : Math F⦄ where
  -- surfaceDistanceKM
  unfoldable pub surface_distance_km : F → F → F → F → F
  surface_distance_km lat_a lon_a lat_b lon_b =
      let lat1 = mul lat_a m.degree in
      let lat2 = mul lat_b m.degree in
      let d_lat = mul (sub lat_b lat_a) m.degree in
      let d_lon = mul (sub lon_b lon_a) m.degree in
      let s_lat = m.sin (div d_lat (lit 2)) in
      let s_lon = m.sin (div d_lon (lit 2)) in
      let h = add (mul s_lat s_lat) (mul (mul (mul (m.cos lat1) (m.cos lat2)) s_lon) s_lon) in
      mul (ratio 127420176 10000) (m.atan2 (m.sqrt h) (m.sqrt (sub (lit 1) h)))

  -- CorrelationPolicy.score; `none` is the result false
  unfoldable pub score : CorrelationPolicy F → Event F → Event F → Option (CorrelationMatch F)
  unfolding optional_term abs_duration time_sub
  score p a b =
      let time_delta = abs_duration (time_sub a.occurred_at b.occurred_at) in
      let distance = surface_distance_km a.latitude a.longitude b.latitude b.longitude in
      let magnitude_diff = difference a.magnitude b.magnitude in
      let depth_diff = difference a.depth_km b.depth_km in
      if ltb_ℤ p.maximum_time_delta time_delta
      then none
      else if lt p.maximum_distance_km distance
      then none
      else let weighted =
          add
            (mul p.time_weight
              (sub (lit 1) (div (f.of_ℤ time_delta) (f.of_ℤ p.maximum_time_delta))))
            (mul p.distance_weight (sub (lit 1) (div distance p.maximum_distance_km))) in
        let weights = add p.time_weight p.distance_weight in
        elim (optional_term magnitude_diff p.maximum_magnitude_diff p.magnitude_weight
          (weighted, weights)) [
            | none ↦ none
            | some sums ↦
                elim (optional_term depth_diff p.maximum_depth_diff_km p.depth_weight sums) [
                  | none ↦ none
                  | some total ↦
                      if eq total.1 (lit 0)
                      then none
                      else some (record {
                        incident_id = uuid_nil;
                        score = div total.0 total.1;
                        time_delta_seconds = seconds time_delta;
                        distance_km = distance;
                        magnitude_diff = magnitude_diff;
                        depth_diff_km = depth_diff;
                      })
                ]
          ]

-- sort.Slice, as an insertion sort. It is specified for a strict weak order only, and puts elements
-- that neither precede one another in some order.
unfoldable pub insert_before {ℓ} : {A : Type ℓ} → (A → A → Bool) → A → List A → List A
insert_before less x [] = x ∷ []
insert_before less x (y ∷ ys) =
    let later = insert_before less x ys in if less x y then x ∷ y ∷ ys else y ∷ later

unfoldable pub sort_slice {ℓ} : {A : Type ℓ} → (A → A → Bool) → List A → List A
unfolding insert_before
sort_slice less [] = []
sort_slice less (x ∷ xs) = insert_before less x (sort_slice less xs)

module _ {F : Type 0} ⦃f : Float F⦄ where
  -- the comparison that Correlate hands to sort.Slice
  unfoldable pub ranks_before :
      (Uuid → Uuid → Bool) → CorrelationMatch F → CorrelationMatch F → Bool
  ranks_before string_before a b =
      if eq a.score b.score then string_before a.incident_id b.incident_id else lt b.score a.score

  -- the part of Correlate behind the sort
  unfoldable pub decide : CorrelationPolicy F → List (CorrelationMatch F) → CorrelationDecision F
  decide p [] = record { match = none; ambiguous = false; ranked = [] }
  decide p (first ∷ []) = record {
    match = if lt first.score p.acceptance_threshold then none else some first;
    ambiguous = false;
    ranked = first ∷ [];
  }
  decide p (first ∷ second ∷ rest) =
      let ranked = first ∷ second ∷ rest in
      if lt first.score p.acceptance_threshold
      then record { match = none; ambiguous = false; ranked = ranked }
      else if lt (sub first.score second.score) p.ambiguity_margin
      then record { match = none; ambiguous = true; ranked = ranked }
      else record { match = some first; ambiguous = false; ranked = ranked }

module _ {F : Type 0} ⦃f : Float F⦄ ⦃m : Math F⦄ where
  -- one round of the loop of Correlate
  unfoldable pub rank_candidate :
      CorrelationPolicy F → Event F → CorrelationCandidate F → Option (CorrelationMatch F)
  rank_candidate p incoming candidate =
      if candidate.event.provider == incoming.provider
      then none
      else elim (score p incoming candidate.event) [
        | none ↦ none
        | some match ↦ some (record match { incident_id = candidate.incident_id })
      ]

  abbrev keep : Option (CorrelationMatch F) → List (CorrelationMatch F) → List (CorrelationMatch F)
  keep none ranked = ranked
  keep (some match) ranked = match ∷ ranked

  unfoldable pub rank_candidates :
      CorrelationPolicy F → Event F → List (CorrelationCandidate F) → List (CorrelationMatch F)
  unfolding rank_candidate
  rank_candidates p incoming [] = []
  rank_candidates p incoming (candidate ∷ candidates) =
      keep (rank_candidate p incoming candidate) (rank_candidates p incoming candidates)

  -- CorrelationPolicy.Correlate
  unfoldable pub correlate :
      (Uuid → Uuid → Bool)
      → CorrelationPolicy F
      → Event F
      → List (CorrelationCandidate F)
      → CorrelationDecision F
  unfolding rank_candidates sort_slice ranks_before decide
  correlate string_before p incoming candidates =
      if not (valid p)
      then record { match = none; ambiguous = false; ranked = [] }
      else decide p
          (sort_slice (ranks_before string_before) (rank_candidates p incoming candidates))

module _ {F : Type 0} ⦃f : Float F⦄ where
  -- ProductionCorrelationPolicy
  unfoldable pub production_correlation_policy : CorrelationPolicy F
  production_correlation_policy = record {
    version = "multi-catalog-conservative-v2";
    maximum_time_delta = pos (30 * second);
    maximum_distance_km = lit 25;
    maximum_magnitude_diff = ratio 8 10;
    maximum_depth_diff_km = lit 30;
    time_weight = ratio 45 100;
    distance_weight = ratio 35 100;
    magnitude_weight = ratio 15 100;
    depth_weight = ratio 5 100;
    acceptance_threshold = ratio 82 100;
    ambiguity_margin = ratio 8 100;
  }
