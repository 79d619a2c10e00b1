-- ===== src/Tests/EarthquakeTests.antt =====
-- Solutions, validation and correlation.
use mathlib.Core.List.{Memᴰ}
use mathlib.Core.List.Perm
use shaker.Prelude.{
  ◌≡◌, ◌≢◌, refl, ◌≤◌, ◌⊎◌, ◌↔◌, ◌*◌, suc, max, true, false, none, some, List, [], ◌∷◌, All, pos,
  ◌*ℤ◌, ◌/ℤ◌, ◌-ℤ◌, ltb_ℤ, arith, int_laws,
}
use shaker.Go.Float.{lt, Milli, milli, small_angles, Milli-IsIeee}
use shaker.Go.Time.{time_sub, second, max_duration}
use shaker.Earthquake.Solution.{
  SolutionClass, Lifecycle, preliminary, confirmed, reviewed, retracted, resolve_lifecycle,
  solution_rank, prefer_canonical_source, provider_priority,
}
use shaker.Earthquake.Solution.Laws.{
  lifecycle_rank, max_rank, promote, resolve_lifecycle_strongest, resolve_lifecycle-perm,
  promote_lem, prefer_canonical_source-chain,
}
use shaker.Earthquake.Event.{Event, validate}
use shaker.Earthquake.Event.Laws.{IsObservation, validate_iff}
use shaker.Earthquake.Correlation.{
  CorrelationPolicy, CorrelationCandidate, CorrelationMatch, CorrelationDecision,
  production_correlation_policy, correlate, abs_duration, valid, score, surface_distance_km,
  seconds,
}
use shaker.Earthquake.Correlation.Gates.{in_time_overflow}
use shaker.Earthquake.Correlation.Ranking.{IsBest}
use shaker.Earthquake.Correlation.Decision.{correlate-no-match, correlate-match-IsBest}
use shaker.Tests.Samples.{milli_of, at_second, string_before, any_json, quake}

resolve_lifecycle_strongest_example :
    All
      (λ s. solution_rank s ≤ lifecycle_rank (resolve_lifecycle (retracted ∷ confirmed ∷ [])))
      (retracted ∷ confirmed ∷ [])
    × ((resolve_lifecycle (retracted ∷ confirmed ∷ []) ≡ Lifecycle.retracted)
        ⊎ ((s : SolutionClass) × Memᴰ s (retracted ∷ confirmed ∷ [])
            × (solution_rank s ≡ lifecycle_rank (resolve_lifecycle (retracted ∷ confirmed ∷ [])))))
resolve_lifecycle_strongest_example = resolve_lifecycle_strongest (retracted ∷ confirmed ∷ [])

mixed_lifecycles :
    (resolve_lifecycle (retracted ∷ preliminary ∷ []) ≡ Lifecycle.preliminary)
    × (resolve_lifecycle (retracted ∷ []) ≡ Lifecycle.retracted)
unfolding resolve_lifecycle
mixed_lifecycles = (refl, refl)

resolve_lifecycle-perm_example :
    resolve_lifecycle (reviewed ∷ confirmed ∷ []) ≡ resolve_lifecycle (confirmed ∷ reviewed ∷ [])
resolve_lifecycle-perm_example = resolve_lifecycle-perm (Perm.swap confirmed reviewed [])

promote_lem_example :
    (promote preliminary (reviewed ∷ confirmed ∷ []) ≢ retracted)
    × (solution_rank (promote preliminary (reviewed ∷ confirmed ∷ []))
        ≡ max (solution_rank preliminary) (max_rank (reviewed ∷ confirmed ∷ [])))
promote_lem_example = promote_lem preliminary (reviewed ∷ confirmed ∷ []) (λ e. cc)

prefer_canonical_source-chain_example :
    (prefer_canonical_source "emsc" confirmed "kndc" confirmed ≡ true)
    × (prefer_canonical_source "usgs" confirmed "emsc" confirmed ≡ false)
    × (prefer_canonical_source "kndc" confirmed "usgs" confirmed ≡ false)
    × (prefer_canonical_source "kndc" confirmed "emsc" confirmed ≡ false)
unfolding prefer_canonical_source solution_rank provider_priority
prefer_canonical_source-chain_example =
    prefer_canonical_source-chain "emsc" "usgs" "kndc" confirmed confirmed confirmed refl refl

validate_iff_example :
    (validate any_json (quake 1 "usgs" (at_second 100) (milli_of 5000)) ≡ none)
    ↔ IsObservation any_json (quake 1 "usgs" (at_second 100) (milli_of 5000))
validate_iff_example =
    validate_iff Milli-IsIeee any_json (quake 1 "usgs" (at_second 100) (milli_of 5000))

-- Two candidates: the second one is nearer in time and magnitude.
abbrev candidates : List (CorrelationCandidate Milli)
candidates =
    record { incident_id = 7; event = quake 7 "emsc" (at_second 110) (milli_of 5600) }
    ∷ record { incident_id = 9; event = quake 9 "kndc" (at_second 101) (milli_of 5000) }
    ∷ []

-- What evaluates the correlation at data.
correlation_runs : Unit {0}
unfolding correlate production_correlation_policy valid score surface_distance_km seconds time_sub
    ◌-ℤ◌ ◌*ℤ◌ ◌/ℤ◌
correlation_runs = tt

abbrev best : CorrelationMatch Milli
best = record {
  incident_id = 9;
  score = milli_of 985;
  time_delta_seconds = milli_of 1000;
  distance_km = milli_of 0;
  magnitude_diff = some (milli_of 0);
  depth_diff_km = some (milli_of 0);
}

abbrev observed : Event Milli
observed = quake 1 "usgs" (at_second 100) (milli_of 5000)

abbrev decision : CorrelationDecision Milli
decision = correlate string_before production_correlation_policy observed candidates

best_matches : decision.match ≡ some best
unfolding correlation_runs
best_matches = refl

correlate-match-IsBest_example : IsBest best decision.ranked
unfolding correlation_runs
correlate-match-IsBest_example =
    correlate-match-IsBest string_before production_correlation_policy observed candidates
      Milli-IsIeee best (refl, (refl, tt)) best_matches

abbrev production_policy : CorrelationPolicy Milli
production_policy = production_correlation_policy

abbrev far : List (CorrelationCandidate Milli)
far = record { incident_id = 7; event = quake 7 "emsc" (at_second 125) (milli_of 5700) } ∷ []

abbrev far_decision : CorrelationDecision Milli
far_decision = correlate string_before production_correlation_policy observed far

correlate-no-match_example :
    (far_decision.ranked ≡ [])
    ⊎ ((first : CorrelationMatch Milli) × (rest : List (CorrelationMatch Milli))
        × (far_decision.ranked ≡ first ∷ rest)
        × (((lt first.score (production_policy.acceptance_threshold) ≡ true)
              × (far_decision.ambiguous ≡ false))
            ⊎ ((lt first.score (production_policy.acceptance_threshold) ≡ false)
                × (far_decision.ambiguous ≡ true))))
unfolding correlation_runs
correlate-no-match_example =
    correlate-no-match string_before production_correlation_policy observed far refl refl

in_time_overflow_example :
    ltb_ℤ (pos (30 * second)) (abs_duration (time_sub (pos 0) (pos (suc max_duration)))) ≡ false
in_time_overflow_example =
    in_time_overflow (pos 0) (pos (suc max_duration)) (pos (30 * second)) (omega int_laws)
      (omega arith)
