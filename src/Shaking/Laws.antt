-- ===== src/Shaking/Laws.antt =====
-- The bounds of an estimate, and the edge at which the candidate radius lies.
use shaker.Prelude.{
  ℕ, suc, ◌≡◌, refl, ◌⊎◌, inl, inr, true, false, String, Option, none, some, arith, Bool-cases,
}
use shaker.Go.Float.{Float, IsIeee, lt, le, add, div, lit, is_nan, is_inf}
use shaker.Go.Float.Laws.{lt_asymm}
use shaker.Shaking.{
  Logs, Estimate, max_of, min_of, clamp_mmi, usable, estimate_at, estimate_of, maximum_search_km,
}

module _ {F : Type 0} ⦃f : Float F⦄ where
  -- An intensity on the scale, or NaN.
  abbrev pub OnScale : F → Type 0
  OnScale x = (is_nan x ≡ true) ⊎ ((lt x (lit 1) ≡ false) × (lt (lit 10) x ≡ false))

  -- The value is told, and is a number.
  abbrev pub IsFinite : Option F → F → Type 0
  IsFinite told x = (told ≡ some x) × (is_nan x ≡ false) × (is_inf x ≡ false)

  -- No value is told, or it is NaN or infinite.
  abbrev pub IsNoNumber : Option F → Type 0
  IsNoNumber told =
      (told ≡ none) ⊎ ((x : F) × (told ≡ some x) × ((is_nan x ≡ true) ⊎ (is_inf x ≡ true)))

  usable-cases :
      (told : Option F)
      → (IsNoNumber told × (usable told ≡ none))
        ⊎ ((x : F) × IsFinite told x × (usable told ≡ some x))
  unfolding usable
  usable-cases none = inl (inl refl, refl)
  usable-cases (some x) = elim (Bool-cases (is_nan x)) [
    | inl e ↦ inl (inr (x, refl, inl e), rw e refl)
    | inr e ↦ elim (Bool-cases (is_inf x)) [
      | inl e2 ↦ inl (inr (x, refl, inr e2), rw (e, e2) refl)
      | inr e2 ↦ inr (x, (refl, e, e2), rw (e, e2) refl)
    ]
  ]

  clamp_mmi-OnScale :
      IsIeee F → lt {F = F} (lit 1) (lit 10) ≡ true → (x : F) → OnScale (clamp_mmi x)
  unfolding clamp_mmi max_of min_of
  clamp_mmi-OnScale h order x = ground (
    arith,
    order,
    lt_asymm h x (lit 10),
    lt_asymm h (lit 1) x,
    lt_asymm h (lit 1) (lit 10) order,
    h.lt_irrefl (lit 1),
    h.lt_irrefl (lit 10),
  )

module _ {F : Type 0} ⦃f : Float F⦄ ⦃l : Logs F⦄ where
  pub record IsEstimate (told : Option F) (e : Estimate F) : Type 0 where
    pub magnitude : IsFinite told e.magnitude
    pub mean : OnScale e.mean_mmi
    pub lower : OnScale e.lower_mmi
    pub upper : OnScale e.upper_mmi

  -- Where float64 comparison obeys IEEE 754 and 1 is below 10, an estimate is given exactly for a
  -- magnitude that is neither missing nor NaN nor infinite, is of that magnitude, and its mean and
  -- both bounds are NaN or between 1 and 10.
  pub estimate_at-IsEstimate :
      IsIeee F
      → lt {F = F} (lit 1) (lit 10) ≡ true
      → (trim : String → String) (magnitude depth_km : Option F) (distance : F)
        (magnitude_type : Option String)
      → (IsNoNumber magnitude
          × (estimate_at trim magnitude depth_km distance magnitude_type ≡ none))
        ⊎ ((e : Estimate F) × (estimate_at trim magnitude depth_km distance magnitude_type ≡ some e)
            × IsEstimate magnitude e)
  unfolding estimate_at estimate_of
  estimate_at-IsEstimate h order trim magnitude depth_km distance magnitude_type =
      elim (usable-cases magnitude) [
        | inl (unusable, missing) ↦ inl (unusable, rw (estimate_at, missing) refl)
        | inr (m, finite, given) ↦ inr (
          estimate_of trim m depth_km distance magnitude_type,
          rw (estimate_at, given) refl,
          record {
            magnitude = finite;
            mean = clamp_mmi-OnScale h order _;
            lower = clamp_mmi-OnScale h order _;
            upper = clamp_mmi-OnScale h order _;
          },
        )
      ]

module _ {F : Type 0} ⦃f : Float F⦄ where
  -- A pair of distances that some rounds of halving lead to.
  pub data Halved : ℕ → F → F → F → F → Type 0 where
    start : (low high : F) → Halved 0 low high low high
    upper_half :
        (n : ℕ) (low high l h : F)
        → Halved n (div (add low high) (lit 2)) high l h
        → Halved (suc n) low high l h
    lower_half :
        (n : ℕ) (low high l h : F)
        → Halved n low (div (add low high) (lit 2)) l h
        → Halved (suc n) low high l h

  module _ (upper : F → F) (minimum : F) where
    -- Two distances with the threshold between them, or the lower one is where the search began.
    pub record IsBracket (low high : F) : Type 0 where
      pub inside : (low ≡ lit 0) ⊎ (le minimum (upper low) ≡ true)
      pub outside : le minimum (upper high) ≡ false

    -- Where a search radius lies.
    pub data IsEdge (radius : F) : Type 0 where
      nowhere : lt (upper (lit 0)) minimum ≡ true → radius ≡ lit 0 → IsEdge radius
      everywhere :
          le minimum (upper maximum_search_km) ≡ true → radius ≡ maximum_search_km → IsEdge radius
      between :
          (low : F)
          → Halved 64 (lit 0) maximum_search_km low radius
          → IsBracket low radius
          → IsEdge radius
