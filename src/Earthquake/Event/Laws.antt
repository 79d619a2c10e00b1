-- ===== src/Earthquake/Event/Laws.antt =====
-- What a valid observation is, apart from the order of the checks.
use shaker.Prelude.{
  not, Bool, ◌&&◌, ℤ, pos, negsuc, inl, inr, refl, ap, ◌≡◌, ◌≢◌, ◌⊎◌, ◌↔◌, ℕ, true, false, Option,
  none, some, List, arith, eq_iff,
}
use shaker.Go.Float.{Float, IsIeee, lt, le, is_nan, lit, neg_lit}
use shaker.Go.Float.Laws.{le_not_nan, le-eq-not_lt}
use shaker.Go.Time.{zero_time}
use shaker.Earthquake.Solution.{SolutionClass, valid, is_set}
use shaker.Earthquake.Event.{Event, validate}

abbrev pub IsNumber : {F : Type 0} ⦃f : Float F⦄ → Option F → Type 0
IsNumber none = Unit
IsNumber (some x) = is_nan x ≡ false

-- The bounds are inclusive, so that NaN is outside of them.
pub record IsObservation {F : Type 0} ⦃f : Float F⦄ (json_valid : List ℕ → Bool) (e : Event F)
    : Type 0 where
  pub named : (e.provider ≢ "") × (e.external_id ≢ "")
  pub dated : (e.occurred_at ≢ zero_time) × (e.source_updated_at ≢ zero_time)
  pub latitude_low : le (neg_lit 90) e.latitude ≡ true
  pub latitude_high : le e.latitude (lit 90) ≡ true
  pub longitude_low : le (neg_lit 180) e.longitude ≡ true
  pub longitude_high : le e.longitude (lit 180) ≡ true
  pub depth : IsNumber e.depth_km
  pub size : IsNumber e.magnitude
  pub payload : json_valid e.raw_payload ≡ true
  pub classed : (e.solution_class ≡ SolutionClass.other "") ⊎ (valid e.solution_class ≡ true)

classes :
    (s : SolutionClass)
    → (is_set s && not (valid s)) ≡ false
    → (s ≡ SolutionClass.other "") ⊎ (valid s ≡ true)
classes (SolutionClass.other s) h = inl (ap SolutionClass.other ((eq_iff s "").0 (ground arith)))
classes SolutionClass.preliminary h = inr refl
classes SolutionClass.confirmed h = inr refl
classes SolutionClass.reviewed h = inr refl
classes SolutionClass.retracted h = inr refl

module _ {F : Type 0} ⦃f : Float F⦄ (h : IsIeee F) (json_valid : List ℕ → Bool) where
  low : (lo : ℤ) (x : F) → is_nan x ≡ false → le (f.of_ℤ lo) x ≡ not (lt x (f.of_ℤ lo))
  low lo x p = le-eq-not_lt h (f.of_ℤ lo) x (h.of_ℤ_not_nan lo) p

  high : (hi : ℤ) (x : F) → is_nan x ≡ false → le x (f.of_ℤ hi) ≡ not (lt (f.of_ℤ hi) x)
  high hi x p = le-eq-not_lt h x (f.of_ℤ hi) p (h.of_ℤ_not_nan hi)

  low_not_nan : (lo : ℤ) (x : F) → le (f.of_ℤ lo) x ≡ true → is_nan x ≡ false
  low_not_nan lo x p = (le_not_nan h (f.of_ℤ lo) x p).1

  validate_sound : (e : Event F) → validate json_valid e ≡ none → IsObservation json_valid e
  unfolding validate
  validate_sound e v = record {
    named = ground (arith, eq_iff e.provider "", eq_iff e.external_id "");
    dated = ground arith;
    latitude_low = ground (arith, low (negsuc 89) e.latitude);
    latitude_high = ground (arith, high (pos 90) e.latitude);
    longitude_low = ground (arith, low (negsuc 179) e.longitude);
    longitude_high = ground (arith, high (pos 180) e.longitude);
    depth = ground arith;
    size = ground arith;
    payload = ground arith;
    classed = classes e.solution_class (ground arith);
  }

  in_range :
      (lo hi : ℤ) (x : F)
      → le (f.of_ℤ lo) x ≡ true
      → le x (f.of_ℤ hi) ≡ true
      → (is_nan x ≡ false) × (lt x (f.of_ℤ lo) ≡ false) × (lt (f.of_ℤ hi) x ≡ false)
  in_range lo hi x p q =
      let n = low_not_nan lo x p in (n, ground (arith, low lo x n), ground (arith, high hi x n))

  classes_complete :
      (s : SolutionClass)
      → (s ≡ SolutionClass.other "") ⊎ (valid s ≡ true)
      → (is_set s && not (valid s)) ≡ false
  classes_complete s (inl e) = rw e
  classes_complete s (inr v) = ground arith

  validate_complete : (e : Event F) → IsObservation json_valid e → validate json_valid e ≡ none
  unfolding validate
  validate_complete e o = ground (
    arith,
    eq_iff e.provider "",
    eq_iff e.external_id "",
    in_range (negsuc 89) (pos 90) e.latitude o.latitude_low o.latitude_high,
    in_range (negsuc 179) (pos 180) e.longitude o.longitude_low o.longitude_high,
    classes_complete e.solution_class o.classed,
  )

  -- `Event.Validate` accepts exactly the observations that are named, dated, within the inclusive
  -- bounds of latitude and longitude (so not NaN), free of NaN in depth and magnitude, with a valid
  -- JSON payload, and with no class or one of the four classes.
  pub validate_iff : (e : Event F) → (validate json_valid e ≡ none) ↔ IsObservation json_valid e
  validate_iff e = (validate_sound e, validate_complete e)
