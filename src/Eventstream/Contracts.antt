-- ===== src/Eventstream/Contracts.antt =====
-- internal/eventstream/contracts.go: how messages are made, read and checked. A time has no location in the model, so UTC() is the identity.
pub mod Laws
use shaker.Prelude.{
  Bool, true, false, not, ◌&&◌, ◌||◌, String, Option, none, some, List, ℤ, pos, leb_ℤ,
  if◌then◌else◌, ◌==◌ as nat_eq, ℕ,
}
use shaker.Go.Float.{Float}
use shaker.Go.Time.{Time, is_zero}
use shaker.Go.Text.{◌==◌}
use shaker.Earthquake.Event.{Uuid, uuid_nil, Event, ChangeKind, inserted, updated, validate}
use shaker.Eventstream.Snapshots.{
  canonical_incident, event_of_incident, event_of_payload, payload_of_event,
}
use shaker.Eventstream.Messages.{
  provider_observation_schema, incident_changed_schema, ProviderObservation, IncidentChanged,
  Change, unsupported_schema, incomplete_envelope, invalid_mode, invalid_operation,
  eligibility_mismatch, incomplete_identity, hash_failed, malformed, invalid_event, Result, ok, err,
}

-- validIngestionMode
unfoldable pub valid_ingestion_mode : String → Bool
valid_ingestion_mode mode =
    mode == "baseline" || mode == "realtime" || mode == "backfill" || mode == "recovery"

-- Inserted or Updated
abbrev pub is_change : ChangeKind → Bool
is_change inserted = true
is_change updated = true
is_change _ = false

-- NewIncidentChanged; `deterministic_id` is deterministicID on the incident and its version
unfoldable pub new_incident_changed :
    {F : Type 0} → (Uuid → ℤ → Uuid) → Change F → String → Bool → Time → IncidentChanged F
unfolding canonical_incident
new_incident_changed deterministic_id change mode baseline_complete produced_at = record {
  schema = incident_changed_schema;
  message_id = deterministic_id change.current.id change.current.version;
  produced_at = produced_at;
  operation = change.kind;
  ingestion_mode = mode;
  baseline_complete = baseline_complete;
  notifications_eligible = mode == "realtime" && baseline_complete;
  previous = elim change.previous [ none ↦ none | some e ↦ some (canonical_incident e) ];
  incident = canonical_incident change.current;
  changed_fields = change.changed_fields;
}

abbrev pub same_bool : Bool → Bool → Bool
same_bool true b = b
same_bool false b = not b

-- IncidentChangedV1.Change
unfoldable pub change_of_message : {F : Type 0} → IncidentChanged F → Result (Change F)
unfolding event_of_incident valid_ingestion_mode
change_of_message message =
    if not (message.schema == incident_changed_schema)
    then err unsupported_schema
    else if not (is_change message.operation)
    then err invalid_operation
    else if not (valid_ingestion_mode message.ingestion_mode)
    then err invalid_mode
    else if not (
        same_bool message.notifications_eligible
          (message.ingestion_mode == "realtime" && message.baseline_complete))
    then err eligibility_mismatch
    else if nat_eq message.incident.id uuid_nil || leb_ℤ message.incident.version (pos 0)
    then err incomplete_identity
    else ok (record {
      kind = message.operation;
      previous = elim message.previous [ none ↦ none | some i ↦ some (event_of_incident i) ];
      current = event_of_incident message.incident;
      changed_fields = message.changed_fields;
    })

-- UnmarshalIncidentChanged, on what json.Unmarshal gives
unfoldable pub unmarshal_incident_changed :
    {F : Type 0} → Option (IncidentChanged F) → Result (IncidentChanged F)
unfolding change_of_message
unmarshal_incident_changed none = err malformed
unmarshal_incident_changed (some message) =
    if not (message.schema == incident_changed_schema)
    then err unsupported_schema
    else if nat_eq message.message_id uuid_nil || is_zero message.produced_at
    then err incomplete_envelope
    else elim (change_of_message message) [ err e ↦ err e | ok _ ↦ ok message ]

module _ {F : Type 0} ⦃f : Float F⦄ (json_valid : List ℕ → Bool) where
  -- NewProviderObservation; `hash` is CanonicalPayloadHash, and `deterministic_id` is
  -- deterministicID on the event and its hash
  unfoldable pub new_provider_observation :
      (Event F → Option ℕ)
      → (Event F → ℕ → Uuid)
      → Event F
      → String
      → Bool
      → Time
      → Result (ProviderObservation F)
  unfolding payload_of_event valid_ingestion_mode
  new_provider_observation hash deterministic_id event mode baseline_complete produced_at =
      elim (validate json_valid event) [
        | some e ↦ err (invalid_event e)
        | none ↦ if not (valid_ingestion_mode mode) then err invalid_mode else elim (hash event) [
          | none ↦ err hash_failed
          | some h ↦ ok (record {
            schema = provider_observation_schema;
            message_id = deterministic_id event h;
            produced_at = produced_at;
            mode = mode;
            baseline_complete = baseline_complete;
            observation = payload_of_event event;
          })
        ]
      ]

  -- ProviderObservationV1.Event
  unfoldable pub event_of_message : ProviderObservation F → Result (Event F)
  unfolding event_of_payload
  event_of_message message =
      if not (message.schema == provider_observation_schema)
      then err unsupported_schema
      else elim (validate json_valid (event_of_payload message.observation)) [
        | some e ↦ err (invalid_event e)
        | none ↦ ok (event_of_payload message.observation)
      ]

  -- UnmarshalProviderObservation, on what json.Unmarshal gives
  unfoldable pub unmarshal_provider_observation :
      Option (ProviderObservation F) → Result (ProviderObservation F)
  unfolding event_of_message valid_ingestion_mode
  unmarshal_provider_observation none = err malformed
  unmarshal_provider_observation (some message) =
      if not (message.schema == provider_observation_schema)
      then err unsupported_schema
      else if nat_eq message.message_id uuid_nil
          || is_zero message.produced_at
          || message.mode == ""
      then err incomplete_envelope
      else if not (valid_ingestion_mode message.mode)
      then err invalid_mode
      else elim (event_of_message message) [ err e ↦ err e | ok _ ↦ ok message ]
