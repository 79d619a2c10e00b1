-- ===== src/Shaking.antt =====
-- internal/domain/shaking/model.go: the intensity that an earthquake is estimated to have at a
-- distance, and the radius within which subscriptions are candidates. `trim` is strings.TrimSpace.
pub mod Laws
use shaker.Prelude.{
  ℕ, zero, suc, Bool, true, false, not, ◌||◌, String, Option, none, some, if◌then◌else◌,
}
use shaker.Go.Float.{
  Float, Math, lt, le, add, sub, mul, div, is_nan, is_inf, lit, ratio, max_zero, neg_lit,
}
use shaker.Go.Text.{◌==◌, lower_eq}

-- The functions of math that the formulas apply besides those of the distance on the surface.
pub record Logs (F : Type 0) : Type 0 where
  pub exp : F → F
  pub log : F → F
  pub square_root : F → F
  pub hypot : F → F → F
  pub asin : F → F

-- the map of assumptions; the type of the magnitude stands in it only where it is given
pub record Assumptions : Type 0 where
  pub active_crust : Bool
  pub average_site_response : Bool
  pub depth_defaulted : Bool
  pub magnitude_is_mw : Bool
  pub one_sigma_bounds : Bool
  pub extrapolated : Bool
  pub input_magnitude_type : Option String

pub record Estimate (F : Type 0) : Type 0 where
  pub model_name : String
  pub model_version : String
  pub mean_mmi : F
  pub sigma_mmi : F
  pub lower_mmi : F
  pub upper_mmi : F
  pub epicentral_distance_km : F
  pub hypocentral_distance_km : F
  pub magnitude : F
  pub depth_km : F
  pub assumptions : Assumptions

module _ {F : Type 0} ⦃f : Float F⦄ where
  -- math.Max and math.Min of a constant and a value
  unfoldable pub max_of : F → F → F
  max_of bound value = if is_nan value then value else if lt bound value then value else bound

  unfoldable pub min_of : F → F → F
  min_of bound value = if is_nan value then value else if lt value bound then value else bound

  -- clampMMI
  unfoldable pub clamp_mmi : F → F
  unfolding max_of min_of
  clamp_mmi value = max_of (lit 1) (min_of (lit 10) value)

  -- the test for a magnitude or a depth that the formulas cannot use
  unfoldable pub usable : Option F → Option F
  usable none = none
  usable (some x) = if is_nan x || is_inf x then none else some x

  -- the depth, or 10 km
  unfoldable pub depth_of : Option F → F
  unfolding usable
  depth_of depth_km = elim (usable depth_km) [ none ↦ lit 10 | some d ↦ max_zero d ]

module _ {F : Type 0} ⦃f : Float F⦄ ⦃l : Logs F⦄ where
  -- allenEtAl2012Rhypo: the mean and the standard deviation
  unfoldable pub allen_et_al_2012_rhypo : F → F → F × F
  unfolding max_of
  allen_et_al_2012_rhypo magnitude hypocentral =
      let rm =
        add (div (neg_lit 209) (lit 1000))
          (mul (ratio 2042 1000) (l.exp (sub magnitude (lit 5)))) in
      let distance = max_of (ratio 1 1000) hypocentral in
      let spread = l.square_root (add (mul distance distance) (mul rm rm)) in
      let near =
        add (add (ratio 2085 1000) (mul (ratio 1428 1000) magnitude))
          (mul (div (neg_lit 1402) (lit 1000)) (l.log spread)) in
      let mean =
        if lt (lit 50) distance
        then add near (mul (ratio 78 1000) (l.log (div distance (lit 50))))
        else near in
      let scaled = div distance (ratio 229 10) in
      (mean, add (ratio 82 100) (div (ratio 37 100) (add (lit 1) (mul scaled scaled))))

  -- the estimate that EstimateAt returns for a magnitude
  unfoldable pub estimate_of : (String → String) → F → Option F → F → Option String → Estimate F
  unfolding usable depth_of allen_et_al_2012_rhypo clamp_mmi
  estimate_of trim m depth_km epicentral magnitude_type =
      let distance = max_zero epicentral in
      let depth = depth_of depth_km in
      let hypocentral = l.hypot distance depth in
      let model = allen_et_al_2012_rhypo m hypocentral in
      let is_mw = is_moment trim magnitude_type in
      record {
        model_name = "Allen-Wald-Worden hypocentral IPE";
        model_version = "allen-et-al-2012-rhypo-v1";
        mean_mmi = clamp_mmi model.0;
        sigma_mmi = model.1;
        lower_mmi = clamp_mmi (sub model.0 model.1);
        upper_mmi = clamp_mmi (add model.0 model.1);
        epicentral_distance_km = distance;
        hypocentral_distance_km = hypocentral;
        magnitude = m;
        depth_km = depth;
        assumptions = record {
          active_crust = true;
          average_site_response = true;
          depth_defaulted = is_defaulted (usable depth_km);
          magnitude_is_mw = is_mw;
          one_sigma_bounds = true;
          extrapolated =
              lt m (lit 5) || lt (ratio 79 10) m || lt (lit 300) hypocentral || not is_mw;
          input_magnitude_type = given magnitude_type;
        };
      }
    where
      is_moment : (String → String) → Option String → Bool
      is_moment trim none = false
      is_moment trim (some t) = lower_eq (trim t) "mw"

      is_defaulted : Option F → Bool
      is_defaulted none = true
      is_defaulted (some _) = false

      given : Option String → Option String
      given none = none
      given (some t) = if t == "" then none else some t

  -- EstimateAt; `none` is ErrMissingMagnitude
  unfoldable pub estimate_at :
      (String → String) → Option F → Option F → F → Option String → Option (Estimate F)
  unfolding usable estimate_of
  estimate_at trim magnitude depth_km epicentral magnitude_type = elim (usable magnitude) [
    | none ↦ none
    | some m ↦ some (estimate_of trim m depth_km epicentral magnitude_type)
  ]

  -- the closure upperAt of CandidateRadiusKM
  unfoldable pub upper_at : F → F → F → F
  unfolding allen_et_al_2012_rhypo
  upper_at magnitude depth epicentral =
      let model = allen_et_al_2012_rhypo magnitude (l.hypot epicentral depth) in add model.0 model.1

module _ {F : Type 0} ⦃f : Float F⦄ where
  -- rounds of the loop of CandidateRadiusKM over `low` and `high`
  unfoldable pub bisect : (F → F) → F → ℕ → F → F → F × F
  bisect upper minimum zero low high = (low, high)
  bisect upper minimum (suc n) low high =
      let mid = div (add low high) (lit 2) in
      elim (le minimum (upper mid)) [
        | true ↦ bisect upper minimum n mid high
        | false ↦ bisect upper minimum n low mid
      ]

  abbrev pub maximum_search_km : F
  maximum_search_km = lit 20000

  -- CandidateRadiusKM behind its test of the magnitude
  unfoldable pub radius_of : (F → F) → F → F
  unfolding bisect
  radius_of upper minimum =
      if lt (upper (lit 0)) minimum
      then lit 0
      else if le minimum (upper maximum_search_km)
      then maximum_search_km
      else (bisect upper minimum 64 (lit 0) maximum_search_km).1

  -- CandidateRadiusKM
  unfoldable pub candidate_radius_km : ⦃l : Logs F⦄ → Option F → Option F → F → F
  unfolding usable depth_of upper_at radius_of
  candidate_radius_km magnitude depth_km minimum = elim (usable magnitude) [
    | none ↦ lit 0
    | some m ↦ radius_of (upper_at m (depth_of depth_km)) minimum
  ]

-- SurfaceDistanceKM
unfoldable pub surface_distance_km :
    {F : Type 0} ⦃f : Float F⦄ ⦃m : Math F⦄ ⦃l : Logs F⦄ → F → F → F → F → F
unfolding min_of
surface_distance_km ⦃f⦄ ⦃m⦄ ⦃l⦄ latitude_a longitude_a latitude_b longitude_b =
    let lat_a = mul latitude_a m.degree in
    let lat_b = mul latitude_b m.degree in
    let s_lat = m.sin (div (mul (sub latitude_b latitude_a) m.degree) (lit 2)) in
    let s_lon = m.sin (div (mul (sub longitude_b longitude_a) m.degree) (lit 2)) in
    let a = add (mul s_lat s_lat) (mul (mul (mul (m.cos lat_a) (m.cos lat_b)) s_lon) s_lon) in
    mul (ratio 127420176 10000) (l.asin (min_of (lit 1) (l.square_root a)))
