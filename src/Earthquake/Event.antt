-- ===== src/Earthquake/Event.antt =====
-- internal/domain/earthquake/model.go: an observation of an earthquake, and its validation.
pub mod Laws
use shaker.Prelude.{
  ℕ, Bool, false, not, ◌&&◌, ◌||◌, String, Option, none, some, List, ℤ, if◌then◌else◌,
}
use shaker.Go.Float.{Float, lt, is_nan, lit, neg_lit}
use shaker.Go.Time.{Time, is_zero}
use shaker.Go.Text.{◌==◌}
use shaker.Earthquake.Solution.{SolutionClass, Lifecycle, valid, is_set}

-- uuid.UUID, 16 bytes, as the number that they write
abbrev pub Uuid : Type 0
Uuid = ℕ

abbrev pub uuid_nil : Uuid
uuid_nil = 0

-- A pointer that may be nil is an Option, and a json.RawMessage is its bytes.
pub record Event (F : Type 0) : Type 0 where
  pub id : Uuid
  pub provider : String
  pub external_id : String
  pub occurred_at : Time
  pub source_updated_at : Time
  pub latitude : F
  pub longitude : F
  pub depth_km : Option F
  pub magnitude : Option F
  pub magnitude_type : Option String
  pub place : Option String
  pub title : Option String
  pub status : Option String
  pub event_type : Option String
  pub alert_level : Option String
  pub tsunami : Option Bool
  pub significance : Option ℤ
  pub felt_reports : Option ℤ
  pub cdi : Option F
  pub mmi : Option F
  pub station_count : Option ℤ
  pub azimuthal_gap : Option F
  pub minimum_distance : Option F
  pub rms : Option F
  pub source_url : Option String
  pub detail_url : Option String
  pub version : ℤ
  pub first_seen_at : Time
  pub last_seen_at : Time
  pub created_at : Time
  pub updated_at : Time
  pub raw_payload : List ℕ
  pub distance_km : Option F
  pub observation_channel : String
  pub solution_class : SolutionClass
  pub lifecycle : Lifecycle

pub data ValidationError : Type 0 where
  missing_identity invalid_coordinates nan_value invalid_payload invalid_solution_class :
      ValidationError

abbrev nan_inside : {F : Type 0} ⦃f : Float F⦄ → Option F → Bool
nan_inside none = false
nan_inside (some x) = is_nan x

-- Event.Validate; `json_valid` is json.Valid of encoding/json
unfoldable pub validate :
    {F : Type 0} ⦃f : Float F⦄ → (List ℕ → Bool) → Event F → Option ValidationError
validate json_valid e =
    if e.provider == ""
      || e.external_id == ""
      || is_zero e.occurred_at
      || is_zero e.source_updated_at
    then some missing_identity
    else if is_nan e.latitude
        || is_nan e.longitude
        || lt e.latitude (neg_lit 90)
        || lt (lit 90) e.latitude
        || lt e.longitude (neg_lit 180)
        || lt (lit 180) e.longitude
    then some invalid_coordinates
    else if nan_inside e.depth_km || nan_inside e.magnitude
    then some nan_value
    else if not (json_valid e.raw_payload)
    then some invalid_payload
    else if is_set e.solution_class && not (valid e.solution_class)
    then some invalid_solution_class
    else none

pub data ChangeKind : Type 0 where
  inserted updated unchanged stale : ChangeKind
  other : String → ChangeKind
