-- ===== src/Repository/Tables.antt =====
-- The tables of internal/repository/postgres/repository.go, as migrations/ declare them, and the
-- statements that read them. Rows are in the order of their insertion, the newest first.
use shaker.Prelude.{
  ℕ, Bool, ◌&&◌, String, Option, none, some, List, [], ◌∷◌, ◌++◌, map, ℤ, pos, negsuc, ◌+ℤ◌, eqb_ℤ,
  if◌then◌else◌, ◌==◌ as nat_eq,
}
use shaker.Go.Time.{Time}
use shaker.Go.Text.{◌==◌}
use shaker.Go.Sql.{filter, find_where}
use shaker.Earthquake.Solution.{SolutionClass, Lifecycle, resolve_lifecycle}
use shaker.Earthquake.Event.{Uuid, Event, ChangeKind}
use shaker.Earthquake.Correlation.{CorrelationPolicy, CorrelationMatch}

-- the source that the provenance names for a column
pub record Provenance : Type 0 where
  pub provider : String
  pub external_id : String
  pub source_version : ℤ
  pub channel : String

-- A row of earthquakes. Its columns are the fields that scanEvent reads; the other four fields of
-- the event are empty.
pub record Incident (F : Type 0) : Type 0 where
  pub event : Event F
  pub canonical_provenance : List (String × Provenance)

pub record SourceRecord : Type 0 where
  pub id : Uuid
  pub earthquake_id : Uuid
  pub provider : String
  pub external_id : String
  pub source_updated_at : Time
  pub payload_hash : List ℕ
  pub raw_payload : List ℕ
  pub source_url : Option String
  pub detail_url : Option String
  pub version : ℤ
  pub first_seen_at : Time
  pub last_seen_at : Time
  pub created_at : Time
  pub updated_at : Time
  pub latest_observation_channel : String
  pub solution_class : SolutionClass

pub record Observation : Type 0 where
  pub source_record_id : Uuid
  pub source_version : ℤ
  pub channel : String
  pub solution_class : SolutionClass
  pub source_updated_at : Time
  pub payload_hash : List ℕ
  pub raw_payload : List ℕ
  pub received_at : Time

-- the JSON evidence of an association
pub data Evidence (F : Type 0) : Type 0 where
  first_provider_identity : Evidence F
  no_match : String → List (CorrelationMatch F) → Evidence F
  selected : CorrelationPolicy F → CorrelationMatch F → List (CorrelationMatch F) → Evidence F

pub data Confidence (F : Type 0) : Type 0 where
  certain : Confidence F
  scored : F → Confidence F

pub record Association (F : Type 0) : Type 0 where
  pub source_record_id : Uuid
  pub earthquake_id : Uuid
  pub method : String
  pub confidence : Confidence F
  pub algorithm_version : String
  pub evidence : Evidence F
  pub active : Bool
  pub associated_at : Time

-- a value of the map of changed fields; the two sides of a field are JSON
pub data ChangedValue (F : Type 0) : Type 0 where
  field_changed : List ℕ → List ℕ → ChangedValue F
  lifecycle_changed : Lifecycle → Lifecycle → ChangedValue F
  source_associated : String → String → F → String → ChangedValue F

abbrev pub Changed : Type 0 → Type 0
Changed F = List (String × ChangedValue F)

pub record Revision (F : Type 0) : Type 0 where
  pub earthquake_id : Uuid
  pub source_record_id : Uuid
  pub version : ℤ
  pub source_updated_at : Time
  pub changed_fields : Changed F
  pub raw_payload : List ℕ
  pub created_at : Time

pub record Tables (F : Type 0) : Type 0 where
  pub incidents : List (Incident F)
  pub sources : List SourceRecord
  pub observations : List Observation
  pub associations : List (Association F)
  pub revisions : List (Revision F)

-- earthquake.Change
pub record AppliedChange (F : Type 0) : Type 0 where
  pub kind : ChangeKind
  pub previous : Option (Event F)
  pub current : Event F
  pub changed_fields : Changed F
  pub source_record_id : Uuid

-- What the repository leaves to others: the hash of a payload (JSON and SHA-256), the order of UUID
-- texts, ST_DWithin of PostGIS between two points given by latitude and longitude, the JSON object
-- of an event as its keys and encoded values, the two values that gen_random_uuid draws for a new
-- incident and a new source record, whether the type JSONB reads some bytes, and whether a statement
-- fails for another reason than the constraints (a lost connection, a text or a time that a column
-- cannot hold, JSON that json.Marshal does not make).
pub record Services (F : Type 0) : Type 0 where
  pub hash : List ℕ → Option (List ℕ)
  pub string_before : Uuid → Uuid → Bool
  pub d_within : F → F → F → F → F → Bool
  pub json_fields : Event F → List (String × List ℕ)
  pub draw : Tables F → Uuid × Uuid
  pub is_jsonb : List ℕ → Bool
  pub interrupted : Event F → Tables F → Bool

-- An error rolls the transaction back.
pub data ApplyError : Type 0 where
  bad_payload no_rows requires_match out_of_fuel refused : ApplyError

pub data Result (A : Type 0) : Type 0 where
  done : A → Result A
  failed : ApplyError → Result A

infixl 5 ◌>>=◌
abbrev pub ◌>>=◌ : {A B : Type 0} → Result A → (A → Result B) → Result B
done a >>= f = f a
failed e >>= f = failed e

-- version + 1 on int64
unfoldable pub next_version : ℤ → ℤ
next_version v =
    if eqb_ℤ v (pos 9223372036854775807) then negsuc 9223372036854775807 else v +ℤ pos 1

abbrev pub has_id : {F : Type 0} → Uuid → Incident F → Bool
has_id id row = nat_eq row.event.id id

abbrev pub has_key : String → String → SourceRecord → Bool
has_key provider external_id s = s.provider == provider && s.external_id == external_id

-- JOIN earthquakes e ON e.id = s.earthquake_id
abbrev pub join_incident :
    {F : Type 0} → Tables F → Option SourceRecord → Option (SourceRecord × Incident F)
join_incident db none = none
join_incident db (some s) = elim (find_where (has_id s.earthquake_id) db.incidents) [
  | none ↦ none
  | some incident ↦ some (s, incident)
]

-- the query of applyEvent
unfoldable pub find_source :
    {F : Type 0} → String → String → Tables F → Option (SourceRecord × Incident F)
unfolding find_where
find_source provider external_id db =
    join_incident db (find_where (has_key provider external_id) db.sources)

-- the classes of the sources that the active associations of an incident join
unfoldable pub associated_classes :
    {F : Type 0} → Uuid → List SourceRecord → List (Association F) → List SolutionClass
unfolding filter
associated_classes id sources [] = []
associated_classes id sources (a ∷ rest) =
    let others = associated_classes id sources rest in
    if nat_eq a.earthquake_id id && a.active
    then map (λ s. s.solution_class)
        (filter (λ s. nat_eq (SourceRecord.id s) a.source_record_id) sources)
      ++ others
    else others

-- incidentLifecycle
unfoldable pub incident_lifecycle : {F : Type 0} → Uuid → Tables F → Lifecycle
unfolding associated_classes resolve_lifecycle
incident_lifecycle id db = resolve_lifecycle (associated_classes id db.sources db.associations)

-- loadIncidentWithPreferredSource
unfoldable pub load_incident_with_preferred_source :
    {F : Type 0} → Uuid → Tables F → Result (Incident F × SolutionClass)
unfolding find_where
load_incident_with_preferred_source id db = elim (find_where (has_id id) db.incidents) [
  | none ↦ failed no_rows
  | some incident ↦
      elim (find_where
        (λ s.
          nat_eq s.earthquake_id id && has_key incident.event.provider incident.event.external_id s)
        db.sources) [ none ↦ failed no_rows | some s ↦ done (incident, s.solution_class) ]
]

-- incidentPreferredSolution
unfoldable pub incident_preferred_solution : {F : Type 0} → Uuid → Tables F → Result SolutionClass
unfolding load_incident_with_preferred_source
incident_preferred_solution id db =
    load_incident_with_preferred_source id db >>= λ found. done found.1
