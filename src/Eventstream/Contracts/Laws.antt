-- ===== src/Eventstream/Contracts/Laws.antt =====
-- internal/eventstream/contracts.go: what the messages carry from one service to the next.
use shaker.Prelude.{
  ◌≡◌, ◌≢◌, refl, ◌↔◌, Bool, true, false, String, Option, none, some, List, [], ℤ, pos, arith,
  eq_iff, ◌<ℤ◌, ℕ, Bool-cases, ap, inl, inr,
}
use shaker.Go.Float.{Float}
use shaker.Go.Time.{Time, zero_time, is_zero}
use shaker.Go.Text.{◌==◌}
use shaker.Earthquake.Solution.{
  SolutionClass, Lifecycle, effective_solution_class, effective_observation_channel,
}
use shaker.Earthquake.Event.{Uuid, uuid_nil, Event, validate}
use shaker.Eventstream.Messages.{
  provider_observation_schema, ProviderObservation, CanonicalIncident, IncidentChanged, Change, ok,
}
use shaker.Eventstream.Snapshots.{
  canonical_incident, event_of_incident, event_of_payload, payload_of_event,
}
use shaker.Eventstream.Contracts.{
  valid_ingestion_mode, new_incident_changed, change_of_message, unmarshal_incident_changed,
  new_provider_observation, event_of_message, unmarshal_provider_observation, is_change,
}

-- What an observation keeps of an event: all that a provider tells, with the class and the channel
-- that stand for missing ones, and none of what the service adds.
abbrev pub observed : {F : Type 0} → Event F → Event F
observed e = record e {
  id = uuid_nil;
  version = pos 0;
  first_seen_at = zero_time;
  last_seen_at = zero_time;
  created_at = zero_time;
  updated_at = zero_time;
  distance_km = none;
  observation_channel = effective_observation_channel e.observation_channel;
  solution_class = effective_solution_class e.solution_class;
  lifecycle = Lifecycle.other "";
}

-- What an incident keeps of an event.
abbrev pub published : {F : Type 0} → Event F → Event F
published e = record e {
  created_at = zero_time;
  raw_payload = [];
  distance_km = none;
  observation_channel = "";
  solution_class = SolutionClass.other "";
}

abbrev pub published_previous : {F : Type 0} → Option (Event F) → Option (Event F)
published_previous none = none
published_previous (some e) = some (published e)

-- The message with another raw payload.
abbrev pub with_payload : {F : Type 0} → List ℕ → ProviderObservation F → ProviderObservation F
with_payload rewritten m = record m {
  observation = record m.observation { raw_payload = rewritten };
}

valid_not_empty : (mode : String) → valid_ingestion_mode mode ≡ true → (mode == "") ≡ false
unfolding valid_ingestion_mode
valid_not_empty mode h = elim (Bool-cases (mode == "")) [
  | inr e ↦ e
  | inl e ↦ let empty : mode ≡ "" = (eq_iff mode "").0 e in cc (rw empty at h)
]

module _ {F : Type 0} ⦃f : Float F⦄ (json_valid : List ℕ → Bool) where
  observed-validate :
      (e : Event F) → validate json_valid e ≡ none → validate json_valid (observed e) ≡ none
  unfolding validate effective_solution_class
  observed-validate e h = ground arith

  event_of_payload-observed : (e : Event F) → event_of_payload (payload_of_event e) ≡ observed e
  unfolding event_of_payload payload_of_event
  event_of_payload-observed e = refl

  new_observation-valid :
      (hash : Event F → Option ℕ) (deterministic_id : Event F → ℕ → Uuid) (e : Event F)
      (mode : String) (baseline_complete : Bool) (produced_at : Time) (m : ProviderObservation F)
      → new_provider_observation json_valid hash deterministic_id e mode baseline_complete
          produced_at
        ≡ ok m
      → (validate json_valid e ≡ none)
        × (valid_ingestion_mode mode ≡ true)
        × (m.observation ≡ payload_of_event e)
        × (m.schema ≡ provider_observation_schema)
        × (m.mode ≡ mode)
        × (m.produced_at ≡ produced_at)
  unfolding new_provider_observation
  new_observation-valid hash deterministic_id e mode baseline_complete produced_at m h =
      ground arith

  event_of_message-observed :
      (e : Event F) (m : ProviderObservation F)
      → validate json_valid e ≡ none
      → m.observation ≡ payload_of_event e
      → m.schema ≡ provider_observation_schema
      → event_of_message json_valid m ≡ ok (observed e)
  unfolding event_of_message
  event_of_message-observed e m v o c =
      let same : event_of_payload m.observation ≡ observed e = rw o (event_of_payload-observed e) in
      rw c (rw same (rw (observed-validate e v) (ap ok same)))

  -- the validity and the payload of an event with another raw payload that is valid JSON
  rewritten-validate :
      (e : Event F) (rewritten : List ℕ)
      → validate json_valid e ≡ none
      → json_valid rewritten ≡ true
      → validate json_valid (record e { raw_payload = rewritten }) ≡ none
  unfolding validate
  rewritten-validate e rewritten v json = ground arith

  rewritten-payload :
      (e : Event F) (rewritten : List ℕ) (m : ProviderObservation F)
      → m.observation ≡ payload_of_event e
      → (with_payload rewritten m).observation
        ≡ payload_of_event (record e { raw_payload = rewritten })
  unfolding payload_of_event
  rewritten-payload e rewritten m o = rw o refl

  -- A message that NewProviderObservation makes, with an identity and a time, and whose raw payload the
  -- JSON codec has rewritten to any valid JSON, is accepted on the other side, and gives the event
  -- back with that payload: all else that the provider told, with the class and the channel made
  -- explicit, and none of what the service adds.
  pub new_provider_observation-unmarshal :
      (hash : Event F → Option ℕ) (deterministic_id : Event F → ℕ → Uuid) (e : Event F)
      (mode : String) (baseline_complete : Bool) (produced_at : Time) (m : ProviderObservation F)
      (rewritten : List ℕ)
      → new_provider_observation json_valid hash deterministic_id e mode baseline_complete
          produced_at
        ≡ ok m
      → m.message_id ≢ uuid_nil
      → is_zero produced_at ≡ false
      → json_valid rewritten ≡ true
      → (unmarshal_provider_observation json_valid (some (with_payload rewritten m))
          ≡ ok (with_payload rewritten m))
        × (event_of_message json_valid (with_payload rewritten m)
            ≡ ok (record (observed e) { raw_payload = rewritten }))
  unfolding unmarshal_provider_observation
  new_provider_observation-unmarshal hash deterministic_id e mode baseline_complete produced_at m
        rewritten h n z json =
      let (v, valid_mode, o, c, same_mode, same_time) =
        new_observation-valid hash deterministic_id e mode baseline_complete produced_at m h in
      let e' = record e { raw_payload = rewritten } in
      let m' = with_payload rewritten m in
      let back =
        event_of_message-observed e' m' (rewritten-validate e rewritten v json)
          (rewritten-payload e rewritten m o) c in
      let named = valid_not_empty mode valid_mode in (ground arith, back)

module _ {F : Type 0} where
  -- An incident comes back unchanged from the event that it is read as.
  pub canonical_incident-event_of_incident :
      (i : CanonicalIncident F) → canonical_incident (event_of_incident i) ≡ i
  unfolding canonical_incident event_of_incident
  canonical_incident-event_of_incident i = refl

  event_of_incident-published :
      (e : Event F) → event_of_incident (canonical_incident e) ≡ published e
  unfolding canonical_incident event_of_incident
  event_of_incident-published e = refl

  -- A change that is an insertion or an update of an identified event with a positive version, in a
  -- known mode, is accepted on the other side as it is, and gives back the kind, the changed fields
  -- and both events, less what an incident does not publish.
  pub new_incident_changed-unmarshal :
      (deterministic_id : Uuid → ℤ → Uuid) (change : Change F) (mode : String)
      (baseline_complete : Bool) (produced_at : Time)
      → is_change change.kind ≡ true
      → valid_ingestion_mode mode ≡ true
      → change.current.id ≢ uuid_nil
      → pos 0 <ℤ change.current.version
      → deterministic_id change.current.id change.current.version ≢ uuid_nil
      → is_zero produced_at ≡ false
      → (unmarshal_incident_changed
            (some (new_incident_changed deterministic_id change mode baseline_complete produced_at))
          ≡ ok (new_incident_changed deterministic_id change mode baseline_complete produced_at))
        × (change_of_message
              (new_incident_changed deterministic_id change mode baseline_complete produced_at)
            ≡ ok (record {
              kind = change.kind;
              previous = published_previous change.previous;
              current = published change.current;
              changed_fields = change.changed_fields;
            }))
  unfolding unmarshal_incident_changed change_of_message new_incident_changed canonical_incident
      event_of_incident
  new_incident_changed-unmarshal deterministic_id change mode baseline_complete produced_at k v i p
        d z =
      ground arith

  -- What is accepted as a change of an incident is the message itself, with an insertion or an
  -- update of an identified incident, in a known mode, and open to notifications exactly when it is
  -- live after the baseline.
  pub unmarshal_incident_changed-eligible :
      (message accepted : IncidentChanged F)
      → unmarshal_incident_changed (some message) ≡ ok accepted
      → (accepted ≡ message)
        × (is_change message.operation ≡ true)
        × (valid_ingestion_mode message.ingestion_mode ≡ true)
        × (message.incident.id ≢ uuid_nil)
        × (pos 0 <ℤ message.incident.version)
        × ((message.notifications_eligible ≡ true)
            ↔ ((message.ingestion_mode ≡ "realtime") × (message.baseline_complete ≡ true)))
  unfolding unmarshal_incident_changed change_of_message
  unmarshal_incident_changed-eligible message accepted h =
      ground (arith, eq_iff message.ingestion_mode "realtime")
