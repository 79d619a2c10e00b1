-- ===== src/Eventstream/Messages.antt =====
-- internal/eventstream/contracts.go: the messages between the provider workers, the core and the
-- notification service.
use shaker.Prelude.{Bool, String, Option, List, ℤ, ℕ}
use shaker.Go.Time.{Time}
use shaker.Earthquake.Solution.{SolutionClass, Lifecycle}
use shaker.Earthquake.Event.{Uuid, Event, ChangeKind, ValidationError}

abbrev pub provider_observation_schema : String
provider_observation_schema = "provider.observation.v1"

abbrev pub incident_changed_schema : String
incident_changed_schema = "incident.changed.v1"

pub record ProviderObservationPayload (F : Type 0) : Type 0 where
  pub provider : String
  pub external_id : String
  pub observation_channel : String
  pub solution_class : SolutionClass
  pub occurred_at : Time
  pub source_updated_at : Time
  pub latitude : F
  pub longitude : F
  pub depth_km : Option F
  pub magnitude : Option F
  pub magnitude_type : Option String
  pub place : Option String
  pub title : Option String
  pub status : Option String
  pub event_type : Option String
  pub alert_level : Option String
  pub tsunami : Option Bool
  pub significance : Option ℤ
  pub felt_reports : Option ℤ
  pub cdi : Option F
  pub mmi : Option F
  pub station_count : Option ℤ
  pub azimuthal_gap : Option F
  pub minimum_distance : Option F
  pub rms : Option F
  pub source_url : Option String
  pub detail_url : Option String
  pub raw_payload : List ℕ

pub record ProviderObservation (F : Type 0) : Type 0 where
  pub schema : String
  pub message_id : Uuid
  pub produced_at : Time
  pub mode : String
  pub baseline_complete : Bool
  pub observation : ProviderObservationPayload F

pub record CanonicalIncident (F : Type 0) : Type 0 where
  pub id : Uuid
  pub version : ℤ
  pub lifecycle : Lifecycle
  pub preferred_provider : String
  pub preferred_id : String
  pub occurred_at : Time
  pub source_updated_at : Time
  pub latitude : F
  pub longitude : F
  pub depth_km : Option F
  pub magnitude : Option F
  pub magnitude_type : Option String
  pub place : Option String
  pub title : Option String
  pub status : Option String
  pub event_type : Option String
  pub alert_level : Option String
  pub tsunami : Option Bool
  pub significance : Option ℤ
  pub felt_reports : Option ℤ
  pub cdi : Option F
  pub mmi : Option F
  pub station_count : Option ℤ
  pub azimuthal_gap : Option F
  pub minimum_distance : Option F
  pub rms : Option F
  pub source_url : Option String
  pub detail_url : Option String
  pub first_seen_at : Time
  pub last_seen_at : Time
  pub updated_at : Time

-- The changed fields of a change are its JSON, as bytes.
pub record IncidentChanged (F : Type 0) : Type 0 where
  pub schema : String
  pub message_id : Uuid
  pub produced_at : Time
  pub operation : ChangeKind
  pub ingestion_mode : String
  pub baseline_complete : Bool
  pub notifications_eligible : Bool
  pub previous : Option (CanonicalIncident F)
  pub incident : CanonicalIncident F
  pub changed_fields : List ℕ

-- earthquake.Change, without the SourceRecordID that no message carries
pub record Change (F : Type 0) : Type 0 where
  pub kind : ChangeKind
  pub previous : Option (Event F)
  pub current : Event F
  pub changed_fields : List ℕ

pub data ContractError : Type 0 where
  unsupported_schema incomplete_envelope invalid_mode invalid_operation eligibility_mismatch
        incomplete_identity hash_failed malformed :
      ContractError
  invalid_event : ValidationError → ContractError

pub data Result (A : Type 0) : Type 0 where
  ok : A → Result A
  err : ContractError → Result A
