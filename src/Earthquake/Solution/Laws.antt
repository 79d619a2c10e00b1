-- ===== src/Earthquake/Solution/Laws.antt =====
-- The lifecycle of an incident, promotion of a record's class, and preference between providers.
use mathlib.Core.List.{Perm, Permᴰ, Memᴰ}
use mathlib.Core.Logic.{∥∥₁_elim}
use native.Mathlib.Nat.{ℕ_set}
use shaker.Prelude.{
  ℕ, ◌≤◌, ◌≡◌, refl, sym, ap, ◌∙◌, ◌≢◌, ◌⊎◌, inl, inr, true, false, List, [], ◌∷◌, max, arith, ltb,
  String, All, All-imp, Bool-cases, if◌then◌else◌,
}
use shaker.Earthquake.Solution.{
  SolutionClass, Lifecycle, solution_rank, best_rank, lifecycle_of, resolve_lifecycle,
  stronger_solution, prefer_canonical_source,
}

-- An order of the lifecycles, stated apart from the code.
abbrev pub lifecycle_rank : Lifecycle → ℕ
lifecycle_rank Lifecycle.reviewed = 3
lifecycle_rank Lifecycle.confirmed = 2
lifecycle_rank Lifecycle.preliminary = 1
lifecycle_rank _ = 0

-- The highest rank among some solutions.
abbrev pub max_rank : List SolutionClass → ℕ
max_rank [] = 0
max_rank (s ∷ ss) = max (solution_rank s) (max_rank ss)

solution_rank-le : (s : SolutionClass) → solution_rank s ≤ 3
unfolding solution_rank
solution_rank-le s = ground arith

max_rank-le : (ss : List SolutionClass) → max_rank ss ≤ 3
max_rank-le [] = omega arith
max_rank-le (s ∷ ss) = omega (arith, solution_rank-le s, max_rank-le ss)

best_rank-eq-max : (best : ℕ) (ss : List SolutionClass) → best_rank best ss ≡ max best (max_rank ss)
unfolding best_rank
best_rank-eq-max best [] = omega arith
best_rank-eq-max best (s ∷ ss) =
    ground
      (arith, best_rank-eq-max (if ltb best (solution_rank s) then solution_rank s else best) ss)

lifecycle_of-rank : (n : ℕ) → n ≤ 3 → lifecycle_rank (lifecycle_of n) ≡ n
unfolding lifecycle_of
lifecycle_of-rank n h = ground arith

lifecycle_rank-resolve_lifecycle :
    (ss : List SolutionClass) → lifecycle_rank (resolve_lifecycle ss) ≡ max_rank ss
unfolding resolve_lifecycle
lifecycle_rank-resolve_lifecycle ss =
    ground (arith, best_rank-eq-max 0 ss, lifecycle_of-rank (best_rank 0 ss), max_rank-le ss)

le-max_rank : (ss : List SolutionClass) → All (λ s. solution_rank s ≤ max_rank ss) ss
le-max_rank [] = tt
le-max_rank (s ∷ ss) = (omega arith, All-imp _ _ (λ x h. omega (arith, h)) ss (le-max_rank ss))

max_rank-attained :
    (ss : List SolutionClass)
    → (max_rank ss ≡ 0) ⊎ ((s : SolutionClass) × Memᴰ s ss × (solution_rank s ≡ max_rank ss))
max_rank-attained [] = inl refl
max_rank-attained (s ∷ ss) = elim (Bool-cases (ltb (solution_rank s) (max_rank ss))) [
  | inl lower ↦ elim (max_rank-attained ss) [
    | inl e ↦ inl (ground arith)
    | inr (t, m, e) ↦ inr (t, Memᴰ.tail m, ground arith)
  ]
  | inr higher ↦ inr (s, Memᴰ.head refl, ground arith)
]

retracted_of_no_rank :
    (ss : List SolutionClass) → max_rank ss ≡ 0 → resolve_lifecycle ss ≡ Lifecycle.retracted
unfolding resolve_lifecycle lifecycle_of
retracted_of_no_rank ss e = ground (arith, best_rank-eq-max 0 ss)

-- The lifecycle of an incident is the strongest evidence among its solutions: no solution ranks
-- above it, and unless it is `retracted` some solution has exactly its rank.
pub resolve_lifecycle_strongest :
    (ss : List SolutionClass)
    → All (λ s. solution_rank s ≤ lifecycle_rank (resolve_lifecycle ss)) ss
      × ((resolve_lifecycle ss ≡ Lifecycle.retracted)
          ⊎ ((s : SolutionClass) × Memᴰ s ss
              × (solution_rank s ≡ lifecycle_rank (resolve_lifecycle ss))))
resolve_lifecycle_strongest ss = rw (lifecycle_rank-resolve_lifecycle ss) (
  le-max_rank ss,
  elim (max_rank-attained ss) [ inl e ↦ inl (retracted_of_no_rank ss e) | inr found ↦ inr found ],
)

max_rank-perm : {xs ys : List SolutionClass} → Permᴰ xs ys → max_rank xs ≡ max_rank ys
max_rank-perm Permᴰ.nil = refl
max_rank-perm (Permᴰ.cons e p) = omega (arith, ap solution_rank e, max_rank-perm p)
max_rank-perm (Permᴰ.swap e e') = omega (arith, ap solution_rank e, ap solution_rank e')
max_rank-perm (Permᴰ.trans p q) = max_rank-perm p ∙ max_rank-perm q

-- The lifecycle does not depend on the order in which the database returns the solutions.
pub resolve_lifecycle-perm :
    {xs ys : List SolutionClass} → Perm xs ys → resolve_lifecycle xs ≡ resolve_lifecycle ys
unfolding resolve_lifecycle
resolve_lifecycle-perm {xs} {ys} p =
    let e : max_rank xs ≡ max_rank ys = ∥∥₁_elim p (ℕ_set _ _) max_rank-perm in
    ap lifecycle_of (best_rank-eq-max 0 xs ∙ ap (max 0) e ∙ sym (best_rank-eq-max 0 ys))

-- The class that a source record holds after a sequence of late observations, each promoted by
-- `StrongerSolution`.
abbrev pub promote : SolutionClass → List SolutionClass → SolutionClass
promote current [] = current
promote current (s ∷ ss) = promote (stronger_solution current s) ss

stronger_solution_lem :
    (current incoming : SolutionClass)
    → current ≢ SolutionClass.retracted
    → solution_rank (stronger_solution current incoming)
      ≡ max (solution_rank current) (solution_rank incoming)
unfolding stronger_solution
stronger_solution_lem current incoming h = ground arith

stronger_solution-ne-retracted :
    (current incoming : SolutionClass)
    → current ≢ SolutionClass.retracted
    → stronger_solution current incoming ≢ SolutionClass.retracted
unfolding stronger_solution
stronger_solution-ne-retracted current incoming h = ground arith

-- Late observations promote a record that is not retracted to the highest rank seen and never lower
-- it, whatever their order, and never retract it.
pub promote_lem :
    (current : SolutionClass) (ss : List SolutionClass)
    → current ≢ SolutionClass.retracted
    → (promote current ss ≢ SolutionClass.retracted)
      × (solution_rank (promote current ss) ≡ max (solution_rank current) (max_rank ss))
promote_lem current [] h = (h, omega arith)
promote_lem current (s ∷ ss) h =
    let (kept, rank) =
      promote_lem (stronger_solution current s) ss (stronger_solution-ne-retracted current s h) in
    (kept, omega (arith, rank, stronger_solution_lem current s h))

-- If an incident passes from the source `p` to `q` and then to `r`, then `r` would also have taken
-- it from `p` at once, and no step can be undone: neither `p` nor `q` takes it back.
pub prefer_canonical_source-chain :
    (p q r : String) (a b c : SolutionClass)
    → prefer_canonical_source p a q b ≡ true
    → prefer_canonical_source q b r c ≡ true
    → (prefer_canonical_source p a r c ≡ true)
      × (prefer_canonical_source q b p a ≡ false)
      × (prefer_canonical_source r c q b ≡ false)
      × (prefer_canonical_source r c p a ≡ false)
unfolding prefer_canonical_source
prefer_canonical_source-chain p q r a b c h k =
    (ground arith, ground arith, ground arith, ground arith)
