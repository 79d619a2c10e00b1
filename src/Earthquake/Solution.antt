-- ===== src/Earthquake/Solution.antt =====
-- internal/domain/earthquake/correlation.go: the quality of a solution, the lifecycle of an incident
-- and the choice between two providers. A Go string type with constants is a data type with one
-- constructor for each constant and `other` for every other text.
pub mod Laws
use shaker.Prelude.{
  ℕ, Bool, true, false, String, List, [], ◌∷◌, ltb, ◌==◌ as nat_eq, if◌then◌else◌, not,
}
use shaker.Go.Text.{◌==◌}

pub data SolutionClass : Type 0 where
  preliminary confirmed reviewed retracted : SolutionClass
  other : String → SolutionClass

-- SolutionClass.Valid
abbrev pub valid : SolutionClass → Bool
valid preliminary = true
valid confirmed = true
valid reviewed = true
valid retracted = true
valid (other _) = false

-- s != ""
abbrev pub is_set : SolutionClass → Bool
is_set (other s) = not (s == "")
is_set _ = true

abbrev pub class_eq : SolutionClass → SolutionClass → Bool
class_eq preliminary preliminary = true
class_eq confirmed confirmed = true
class_eq reviewed reviewed = true
class_eq retracted retracted = true
class_eq (other s) (other t) = s == t
class_eq _ _ = false

-- EffectiveSolutionClass, on the field that it reads
unfoldable pub effective_solution_class : SolutionClass → SolutionClass
effective_solution_class s = if valid s then s else confirmed

-- EffectiveObservationChannel, on the field that it reads
unfoldable pub effective_observation_channel : String → String
effective_observation_channel channel = if channel == "" then "legacy" else channel

pub data Lifecycle : Type 0 where
  preliminary confirmed reviewed retracted : Lifecycle
  other : String → Lifecycle

abbrev pub lifecycle_eq : Lifecycle → Lifecycle → Bool
lifecycle_eq preliminary preliminary = true
lifecycle_eq confirmed confirmed = true
lifecycle_eq reviewed reviewed = true
lifecycle_eq retracted retracted = true
lifecycle_eq (other s) (other t) = s == t
lifecycle_eq _ _ = false

-- solutionRank; the switch inside ResolveLifecycle is the same one
unfoldable pub solution_rank : SolutionClass → ℕ
solution_rank preliminary = 1
solution_rank confirmed = 2
solution_rank reviewed = 3
solution_rank _ = 0

-- the loop of ResolveLifecycle over `best`
best_rank : ℕ → List SolutionClass → ℕ
best_rank best [] = best
best_rank best (s ∷ ss) =
    best_rank (if ltb best (solution_rank s) then solution_rank s else best) ss

lifecycle_of : ℕ → Lifecycle
lifecycle_of best =
    if nat_eq best 3
    then reviewed
    else if nat_eq best 2
    then confirmed
    else if nat_eq best 1
    then preliminary
    else retracted

unfoldable pub resolve_lifecycle : List SolutionClass → Lifecycle
unfolding best_rank lifecycle_of solution_rank
resolve_lifecycle solutions = lifecycle_of (best_rank 0 solutions)

-- StrongerSolution
unfoldable pub stronger_solution : SolutionClass → SolutionClass → SolutionClass
unfolding solution_rank
stronger_solution retracted incoming = retracted
stronger_solution current incoming =
    if ltb (solution_rank current) (solution_rank incoming) then incoming else current

unfoldable pub provider_priority : String → ℕ
provider_priority provider =
    if provider == "kndc"
    then 4
    else if provider == "usgs"
    then 3
    else if provider == "geofon"
    then 2
    else if provider == "emsc"
    then 1
    else 0

unfoldable pub prefer_canonical_source : String → SolutionClass → String → SolutionClass → Bool
prefer_canonical_source current_provider current_solution incoming_provider incoming_solution =
    let current_rank = solution_rank current_solution in
    let incoming_rank = solution_rank incoming_solution in
    if not (nat_eq incoming_rank current_rank)
    then ltb current_rank incoming_rank
    else ltb (provider_priority current_provider) (provider_priority incoming_provider)
