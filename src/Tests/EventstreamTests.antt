-- ===== src/Tests/EventstreamTests.antt =====
-- Messages made and read.
use shaker.Prelude.{◌∷◌, ◌≡◌, refl, true, none, some, [], ℕ, ℤ, arith, Option, ◌+◌}
use shaker.Go.Float.{Milli, milli}
use shaker.Earthquake.Event.{Uuid, Event, inserted, validate}
use shaker.Eventstream.Messages.{
  ProviderObservation, IncidentChanged, Change, ok, provider_observation_schema,
}
use shaker.Eventstream.Snapshots.{canonical_incident, event_of_incident, payload_of_event}
use shaker.Eventstream.Contracts.{
  valid_ingestion_mode, new_incident_changed, change_of_message, unmarshal_incident_changed,
  new_provider_observation, event_of_message, unmarshal_provider_observation,
}
use shaker.Eventstream.Contracts.Laws.{
  observed, with_payload, published, published_previous, new_provider_observation-unmarshal,
  new_incident_changed-unmarshal,
}
use shaker.Tests.Samples.{milli_of, at_second, any_json, quake}

abbrev event : Event Milli
event = quake 4 "usgs" (at_second 100) (milli_of 5000)

abbrev hash : Event Milli → Option ℕ
hash _ = some 12

abbrev observation_id : Event Milli → ℕ → Uuid
observation_id _ h = h + 1

abbrev incident_id : Uuid → ℤ → Uuid
incident_id id _ = id + 1

abbrev observation : ProviderObservation Milli
observation = record {
  schema = provider_observation_schema;
  message_id = 13;
  produced_at = at_second 200;
  mode = "realtime";
  baseline_complete = true;
  observation = payload_of_event event;
}

-- the codec drops a blank of the payload
new_provider_observation-unmarshal_example :
    (unmarshal_provider_observation any_json (some (with_payload (123 ∷ 125 ∷ []) observation))
      ≡ ok (with_payload (123 ∷ 125 ∷ []) observation))
    × (event_of_message any_json (with_payload (123 ∷ 125 ∷ []) observation)
        ≡ ok (record (observed event) { raw_payload = 123 ∷ 125 ∷ [] }))
unfolding new_provider_observation validate
new_provider_observation-unmarshal_example =
    new_provider_observation-unmarshal any_json hash observation_id event "realtime" true
      (at_second 200) observation (123 ∷ 125 ∷ []) refl (λ e. omega arith) refl refl

abbrev change : Change Milli
change = record { kind = inserted; previous = none; current = event; changed_fields = [] }

abbrev message : IncidentChanged Milli
message = new_incident_changed incident_id change "realtime" true (at_second 200)

new_incident_changed-unmarshal_example :
    (unmarshal_incident_changed (some message) ≡ ok message)
    × (change_of_message message
        ≡ ok (record {
          kind = inserted;
          previous = published_previous none;
          current = published event;
          changed_fields = [];
        }))
unfolding valid_ingestion_mode
new_incident_changed-unmarshal_example =
    new_incident_changed-unmarshal incident_id change "realtime" true (at_second 200) refl refl
      (λ e. omega arith) (omega arith) (λ e. omega arith) refl

message_is_accepted : unmarshal_incident_changed (some message) ≡ ok message
unfolding unmarshal_incident_changed change_of_message new_incident_changed valid_ingestion_mode
    canonical_incident event_of_incident
message_is_accepted = refl
