-- ===== src/Tests/RepositoryTests.antt =====
-- An incident with two sources in the core's tables, and observations of it.
use shaker.Prelude.{
  ℕ, suc, ◌≡◌, refl, true, false, none, some, [], ◌∷◌, String, pos, ◌+ℤ◌, ◌-ℤ◌, ◌*ℤ◌, ◌/ℤ◌, arith,
}
use shaker.Go.Float.{Milli, milli, small_angles}
use shaker.Go.Sql.{order_by, insert_by, find_where, any_where, filter}
use shaker.Go.Time.{Time, time_sub}
use shaker.Earthquake.Solution.{SolutionClass, provider_priority, resolve_lifecycle}
use shaker.Earthquake.Event.{Event, Uuid, updated}
use shaker.Repository.Tables.{
  Incident, SourceRecord, Association, Tables, Services, AppliedChange, done, failed, refused,
  certain, first_provider_identity, find_source, associated_classes, incident_lifecycle,
}
use shaker.Earthquake.Correlation.{
  CorrelationMatch, correlate, production_correlation_policy, valid, score, surface_distance_km,
  seconds,
}
use shaker.Repository.Matching.{
  correlation_decision, correlated_catalog_provider, candidate_rows, candidate_of, cut_off,
  is_candidate, has_source,
}
use shaker.Go.Text.{contains}
use shaker.Repository.Matching.Laws.{IsJoined, correlation_decision-IsJoined}
use shaker.Repository.Changes.{columns}
use shaker.Repository.Statements.{Incoming}
use shaker.Repository.Known.{apply_known}
use shaker.Repository.Events.{run_statements, apply_event, incoming_of}
use shaker.Repository.Events.Repeats.{apply_known-repeated_update, counted_up}
use shaker.Repository.Events.Refinement.{MovesOne, apply_event-MovesOne}
use shaker.Repository.Consistency.{IsConsistent, IsFresh}
use shaker.Eventstream.Messages.{ProviderObservation, provider_observation_schema}
use shaker.Eventstream.Snapshots.{payload_of_event, event_of_payload}
use shaker.Messaging.Inbox.{MessagePosition, Database}
use shaker.Repository.Batch.{Effects, Store, apply_batch}
use shaker.Repository.Batch.Laws.{IsCounted, apply_batch-IsCounted}
use shaker.Tests.Samples.{any_json, milli_of, at_second, quake, string_before}

abbrev services : Services Milli
services = record {
  hash = λ payload. some payload;
  string_before = string_before;
  d_within = λ _ _ _ _ _. true;
  json_fields = λ _. [];
  draw = λ _. (50, 51);
  is_jsonb = any_json;
  interrupted = λ _ _. false;
}

abbrev source : Uuid → String → Time → SourceRecord
source id provider at = record {
  id = id;
  earthquake_id = 7;
  provider = provider;
  external_id = "a1";
  source_updated_at = at;
  payload_hash = 123 ∷ 125 ∷ [];
  raw_payload = 123 ∷ 125 ∷ [];
  source_url = none;
  detail_url = none;
  version = pos 1;
  first_seen_at = at;
  last_seen_at = at;
  created_at = at;
  updated_at = at;
  latest_observation_channel = "usgs_feed";
  solution_class = SolutionClass.confirmed;
}

abbrev association : Uuid → Association Milli
association id = record {
  source_record_id = id;
  earthquake_id = 7;
  method = "new_incident";
  confidence = certain;
  algorithm_version = "identity-v1";
  evidence = first_provider_identity;
  active = true;
  associated_at = at_second 100;
}

abbrev incident : Incident Milli
incident = record {
  event = columns (quake 7 "usgs" (at_second 100) (milli_of 5000));
  canonical_provenance = [];
}

abbrev tables : Tables Milli
tables = record {
  incidents = incident ∷ [];
  sources = source 9 "emsc" (at_second 200) ∷ source 8 "usgs" (at_second 100) ∷ [];
  observations = [];
  associations = association 9 ∷ association 8 ∷ [];
  revisions = [];
}

tables-IsConsistent : IsConsistent tables
unfolding incident_lifecycle associated_classes resolve_lifecycle any_where filter
tables-IsConsistent = record {
  derived = (refl, tt);
  linked = ((λ _. refl, (λ _. refl, tt)), ((λ _. refl, (λ _. refl, tt)), tt));
  anchored = (refl, (refl, tt));
  preferred = (refl, tt);
}

tables-IsFresh : IsFresh (50, 51) tables
tables-IsFresh = record {
  new_incident = (omega arith, tt);
  new_source = (omega arith, (omega arith, tt));
  apart = ((omega arith, omega arith), ((omega arith, omega arith), tt));
}

abbrev repeated : Event Milli
repeated = quake 0 "emsc" (at_second 200) (milli_of 5000)

abbrev from_emsc : Incoming Milli
unfolding incoming_of
from_emsc = incoming_of (at_second 300) repeated (123 ∷ 125 ∷ [])

matching_runs : Unit {0}
unfolding correlation_decision correlated_catalog_provider candidate_rows candidate_of cut_off
    is_candidate has_source filter order_by insert_by any_where correlate
    production_correlation_policy valid score surface_distance_km seconds time_sub ◌+ℤ◌ ◌-ℤ◌ ◌*ℤ◌
    ◌/ℤ◌
matching_runs = tt

event_runs : Unit {0}
unfolding apply_event run_statements apply_known
event_runs = tt

again_succeeds :
    (x : AppliedChange Milli × Tables Milli) × (apply_event services
        (at_second 300)
        1
        repeated
        tables
      ≡ done x)
unfolding event_runs provider_priority ◌+ℤ◌
again_succeeds = (_, refl)

-- an observation beyond the North Pole is refused by the CHECK of its latitude
beyond_is_refused :
    apply_event services
      (at_second 300)
      1
      (record (quake 0 "emsc" (at_second 300) (milli_of 5000)) {
        external_id = "b2";
        latitude = milli_of 200000;
      })
      tables
    ≡ failed refused
unfolding event_runs matching_runs contains
beyond_is_refused = refl

apply_event-MovesOne_example : MovesOne tables again_succeeds.0
apply_event-MovesOne_example =
    apply_event-MovesOne services (at_second 300) 1 repeated tables tables-IsFresh again_succeeds.0
      again_succeeds.1

apply_known-repeated_update_example :
    (x : AppliedChange Milli × Tables Milli) × (apply_known services from_emsc
        (source 9 "emsc" (at_second 200))
        incident.event
        tables
      ≡ done x)
    × (x.0.kind ≡ updated)
    × (x.1.sources ≡ counted_up from_emsc (source 9 "emsc" (at_second 200)) tables.sources)
unfolding find_source find_where from_emsc
apply_known-repeated_update_example =
    apply_known-repeated_update services from_emsc (source 9 "emsc" (at_second 200)) incident tables
      tables-IsConsistent refl refl refl refl refl

-- The rest of the database is a number of published changes.
abbrev effects : Effects Milli ℕ
effects = record {
  create_deliveries = λ _ _ _ _ _ n. some n;
  refresh = λ _ _ _ n. some n;
  enqueue = λ _ _ _ _ _ n. some (suc n);
}

abbrev store : Store Milli ℕ
store = record { tables = tables; rest = 0 }

abbrev observation : ProviderObservation Milli
observation = record {
  schema = provider_observation_schema;
  message_id = 13;
  produced_at = at_second 300;
  mode = "realtime";
  baseline_complete = true;
  observation = payload_of_event repeated;
}

abbrev observed_at : MessagePosition
observed_at = record { topic = "provider.observations.v1"; partition = pos 0; offset = pos 5 }

abbrev database : Database (Store Milli ℕ)
database = record { inbox = []; state = store }

abbrev told : Event Milli
told = event_of_payload (payload_of_event repeated)

apply_batch-IsCounted_example : IsCounted 1 (
    apply_batch services effects 1 "realtime" true true false (at_second 300) (repeated ∷ []) store)
apply_batch-IsCounted_example =
    apply_batch-IsCounted services effects 1 "realtime" true true false (at_second 300)
      (repeated ∷ []) store

-- An observation of a third catalogue, a second after the incident.
abbrev third : Event Milli
third = quake 0 "kndc" (at_second 101) (milli_of 5000)

abbrev joined : CorrelationMatch Milli
joined = record {
  incident_id = 7;
  score = milli_of 985;
  time_delta_seconds = milli_of 1000;
  distance_km = milli_of 0;
  magnitude_diff = some (milli_of 0);
  depth_diff_km = some (milli_of 0);
}

third_is_joined : (correlation_decision services third tables).match ≡ some joined
unfolding matching_runs contains
third_is_joined = refl

correlation_decision-IsJoined_example :
    (row : Incident Milli) × IsJoined services third tables joined row
correlation_decision-IsJoined_example =
    correlation_decision-IsJoined services third tables joined third_is_joined
