-- ===== src/Eventstream/Snapshots.antt =====
-- internal/eventstream/contracts.go: what a message keeps of an event, and the event that is read
-- from it.
use shaker.Prelude.{[], none, pos}
use shaker.Go.Time.{zero_time}
use shaker.Earthquake.Solution.{
  SolutionClass, Lifecycle, effective_solution_class, effective_observation_channel,
}
use shaker.Earthquake.Event.{uuid_nil, Event}
use shaker.Eventstream.Messages.{ProviderObservationPayload, CanonicalIncident}

-- canonicalIncident
unfoldable pub canonical_incident : {F : Type 0} → Event F → CanonicalIncident F
canonical_incident event = record {
  id = event.id;
  version = event.version;
  lifecycle = event.lifecycle;
  preferred_provider = event.provider;
  preferred_id = event.external_id;
  occurred_at = event.occurred_at;
  source_updated_at = event.source_updated_at;
  latitude = event.latitude;
  longitude = event.longitude;
  depth_km = event.depth_km;
  magnitude = event.magnitude;
  magnitude_type = event.magnitude_type;
  place = event.place;
  title = event.title;
  status = event.status;
  event_type = event.event_type;
  alert_level = event.alert_level;
  tsunami = event.tsunami;
  significance = event.significance;
  felt_reports = event.felt_reports;
  cdi = event.cdi;
  mmi = event.mmi;
  station_count = event.station_count;
  azimuthal_gap = event.azimuthal_gap;
  minimum_distance = event.minimum_distance;
  rms = event.rms;
  source_url = event.source_url;
  detail_url = event.detail_url;
  first_seen_at = event.first_seen_at;
  last_seen_at = event.last_seen_at;
  updated_at = event.updated_at;
}

-- CanonicalIncidentV1.event
unfoldable pub event_of_incident : {F : Type 0} → CanonicalIncident F → Event F
event_of_incident incident = record {
  id = incident.id;
  provider = incident.preferred_provider;
  external_id = incident.preferred_id;
  occurred_at = incident.occurred_at;
  source_updated_at = incident.source_updated_at;
  latitude = incident.latitude;
  longitude = incident.longitude;
  depth_km = incident.depth_km;
  magnitude = incident.magnitude;
  magnitude_type = incident.magnitude_type;
  place = incident.place;
  title = incident.title;
  status = incident.status;
  event_type = incident.event_type;
  alert_level = incident.alert_level;
  tsunami = incident.tsunami;
  significance = incident.significance;
  felt_reports = incident.felt_reports;
  cdi = incident.cdi;
  mmi = incident.mmi;
  station_count = incident.station_count;
  azimuthal_gap = incident.azimuthal_gap;
  minimum_distance = incident.minimum_distance;
  rms = incident.rms;
  source_url = incident.source_url;
  detail_url = incident.detail_url;
  version = incident.version;
  first_seen_at = incident.first_seen_at;
  last_seen_at = incident.last_seen_at;
  created_at = zero_time;
  updated_at = incident.updated_at;
  raw_payload = [];
  distance_km = none;
  observation_channel = "";
  solution_class = SolutionClass.other "";
  lifecycle = incident.lifecycle;
}

-- The event of ProviderObservationV1.Event, before its validation.
unfoldable pub event_of_payload : {F : Type 0} → ProviderObservationPayload F → Event F
event_of_payload payload = record {
  id = uuid_nil;
  provider = payload.provider;
  external_id = payload.external_id;
  occurred_at = payload.occurred_at;
  source_updated_at = payload.source_updated_at;
  latitude = payload.latitude;
  longitude = payload.longitude;
  depth_km = payload.depth_km;
  magnitude = payload.magnitude;
  magnitude_type = payload.magnitude_type;
  place = payload.place;
  title = payload.title;
  status = payload.status;
  event_type = payload.event_type;
  alert_level = payload.alert_level;
  tsunami = payload.tsunami;
  significance = payload.significance;
  felt_reports = payload.felt_reports;
  cdi = payload.cdi;
  mmi = payload.mmi;
  station_count = payload.station_count;
  azimuthal_gap = payload.azimuthal_gap;
  minimum_distance = payload.minimum_distance;
  rms = payload.rms;
  source_url = payload.source_url;
  detail_url = payload.detail_url;
  version = pos 0;
  first_seen_at = zero_time;
  last_seen_at = zero_time;
  created_at = zero_time;
  updated_at = zero_time;
  raw_payload = payload.raw_payload;
  distance_km = none;
  observation_channel = payload.observation_channel;
  solution_class = payload.solution_class;
  lifecycle = Lifecycle.other "";
}

-- The payload of NewProviderObservation.
unfoldable pub payload_of_event : {F : Type 0} → Event F → ProviderObservationPayload F
unfolding effective_observation_channel effective_solution_class
payload_of_event event = record {
  provider = event.provider;
  external_id = event.external_id;
  observation_channel = effective_observation_channel event.observation_channel;
  solution_class = effective_solution_class event.solution_class;
  occurred_at = event.occurred_at;
  source_updated_at = event.source_updated_at;
  latitude = event.latitude;
  longitude = event.longitude;
  depth_km = event.depth_km;
  magnitude = event.magnitude;
  magnitude_type = event.magnitude_type;
  place = event.place;
  title = event.title;
  status = event.status;
  event_type = event.event_type;
  alert_level = event.alert_level;
  tsunami = event.tsunami;
  significance = event.significance;
  felt_reports = event.felt_reports;
  cdi = event.cdi;
  mmi = event.mmi;
  station_count = event.station_count;
  azimuthal_gap = event.azimuthal_gap;
  minimum_distance = event.minimum_distance;
  rms = event.rms;
  source_url = event.source_url;
  detail_url = event.detail_url;
  raw_payload = event.raw_payload;
}
