-- ===== src/Tests/MessagingTests.antt =====
-- A message delivered twice, and a row of the outbox relayed.
use shaker.Prelude.{
  ℕ, ◌≡◌, refl, true, false, none, some, Option, List, [], ◌∷◌, String, pos, ℤ, get_elem?, suc,
  Bool, ◌+◌, ◌*◌, ◌-ℤ◌, arith, eq_iff,
}
use shaker.Go.Float.{Milli, milli}
use shaker.Go.Time.{Time}
use shaker.Earthquake.Solution.{effective_solution_class, effective_observation_channel}
use shaker.Earthquake.Event.{Event, Uuid, inserted, validate}
use shaker.Eventstream.Messages.{
  ProviderObservation, IncidentChanged, Change, provider_observation_schema,
}
use shaker.Eventstream.Snapshots.{
  payload_of_event, event_of_payload, canonical_incident, event_of_incident,
}
use shaker.Eventstream.Contracts.{
  event_of_message, new_incident_changed, change_of_message, valid_ingestion_mode,
}
use shaker.Messaging.Inbox.{
  MessagePosition, Database, duplicate, through_inbox, conflicts, at_position, has_message,
  apply_provider_message, apply_incident_message,
}
use shaker.Messaging.Inbox.Once.{
  Delivered, consume, apply_provider_message-once, apply_incident_message-once,
}
use shaker.Go.Time.{second}
use shaker.Messaging.Outbox.{OutboxMessage, OutboxRelay, process}
use shaker.Messaging.Outbox.Relay.{IsOutOfReach, process-IsOutOfReach}
use shaker.Tests.Samples.{milli_of, at_second, any_json, quake}

abbrev event : Event Milli
event = quake 4 "usgs" (at_second 100) (milli_of 5000)

abbrev observation : ProviderObservation Milli
observation = record {
  schema = provider_observation_schema;
  message_id = 13;
  produced_at = at_second 200;
  mode = "realtime";
  baseline_complete = true;
  observation = payload_of_event event;
}

abbrev observed_at : MessagePosition
observed_at = record { topic = "provider.observations.v1"; partition = pos 0; offset = pos 8 }

-- The state is a number of applied events.
abbrev database : Database ℕ
database = record { inbox = []; state = 0 }

abbrev count_event : Event Milli → String → Bool → Time → ℕ → Option ℕ
count_event _ _ _ _ n = some (suc n)

abbrev counted : Database ℕ
counted = record { inbox = record { message_id = 13; position = observed_at } ∷ []; state = 1 }

-- Another message in between.
abbrev other : List (Delivered ℕ)
other =
    record {
      position = record { topic = "provider.observations.v1"; partition = pos 0; offset = pos 9 };
      message_id = 14;
      effect = λ n. some (suc n);
    }
    ∷ []

apply_provider_message-once_example :
    apply_provider_message any_json count_event observed_at observation
      (at_second 300)
      (consume other counted)
    ≡ duplicate
unfolding apply_provider_message event_of_message event_of_payload payload_of_event validate
    effective_solution_class effective_observation_channel through_inbox conflicts at_position
    has_message
apply_provider_message-once_example =
    apply_provider_message-once any_json count_event observed_at observation (at_second 201)
      (at_second 300) database counted other refl

abbrev incident_id : Uuid → ℤ → Uuid
incident_id id _ = id + 1

abbrev change : Change Milli
change = record { kind = inserted; previous = none; current = event; changed_fields = [] }

abbrev message : IncidentChanged Milli
message = new_incident_changed incident_id change "realtime" true (at_second 200)

abbrev changed_at : MessagePosition
changed_at = record { topic = "incident.changes.v1"; partition = pos 0; offset = pos 8 }

abbrev keep_alerts : Event Milli → Time → ℕ → Option ℕ
keep_alerts _ _ n = some n

abbrev count_change : Change Milli → String → Bool → Time → ℕ → Option ℕ
count_change _ _ _ _ n = some (suc n)

abbrev notified : Database ℕ
notified = record { inbox = record { message_id = 5; position = changed_at } ∷ []; state = 1 }

apply_incident_message-once_example :
    apply_incident_message keep_alerts count_change changed_at message
      (at_second 300)
      (consume other notified)
    ≡ duplicate
unfolding apply_incident_message change_of_message new_incident_changed canonical_incident
    event_of_incident valid_ingestion_mode through_inbox conflicts at_position has_message
apply_incident_message-once_example =
    apply_incident_message-once keep_alerts count_change changed_at message (at_second 201)
      (at_second 300) database notified other refl

-- A row that a worker has claimed.
abbrev claimed : OutboxMessage
claimed = record {
  id = 5;
  topic = "incident.changes.v1";
  key = "4";
  schema = "incident.changed.v1";
  payload = [];
  headers = [];
  attempt_count = 2;
  next_attempt_at = at_second 10;
  created_at = at_second 10;
  published_at = none;
  locked_at = some (at_second 11);
  locked_by = some "w1";
  last_error = none;
  updated_at = at_second 11;
}

abbrev relay : OutboxRelay
relay = record { worker = "w2"; batch = 50; lock_timeout = pos (30 * second) }

-- the lock of w1 is a second old
process-IsOutOfReach_example :
    get_elem?
      (process (λ t. t) (λ _. none) (λ _. false) relay (at_second 12) (at_second 13) (claimed ∷ []))
      0
    ≡ some claimed
unfolding ◌-ℤ◌
process-IsOutOfReach_example =
    process-IsOutOfReach (λ t. t) (λ _. none) (λ _. false) relay (at_second 12) (at_second 13)
      (claimed ∷ []) 0 claimed refl (λ _. refl, tt)
      (IsOutOfReach.is_locked (at_second 11) "w1" refl refl
        (λ e. ground (arith, eq_iff "w1" "w2", e)) (omega arith))
