-- ===== src/Tests/Samples.antt =====
-- Test data that several test modules share, over float64 as fixed point.
use shaker.Prelude.{ℕ, ◌*◌, Bool, true, none, some, String, List, [], ◌∷◌, pos, ltb}
use shaker.Go.Float.{Milli}
use shaker.Go.Time.{Time, second}
use shaker.Earthquake.Solution.{SolutionClass, Lifecycle}
use shaker.Earthquake.Event.{Uuid, Event}

-- a number of thousandths
abbrev pub milli_of : ℕ → Milli
milli_of n = some (pos n)

abbrev pub at_second : ℕ → Time
at_second n = pos (n * second)

-- texts of equal length in hexadecimal are ordered as their numbers
abbrev pub string_before : Uuid → Uuid → Bool
string_before = ltb

abbrev pub any_json : List ℕ → Bool
any_json _ = true

abbrev pub quake : Uuid → String → Time → Milli → Event Milli
quake id provider at magnitude = record {
  id = id;
  provider = provider;
  external_id = "a1";
  occurred_at = at;
  source_updated_at = at;
  latitude = milli_of 43000;
  longitude = milli_of 77000;
  depth_km = some (milli_of 10000);
  magnitude = some magnitude;
  magnitude_type = some "mb";
  place = none;
  title = none;
  status = none;
  event_type = some "earthquake";
  alert_level = none;
  tsunami = none;
  significance = none;
  felt_reports = none;
  cdi = none;
  mmi = none;
  station_count = none;
  azimuthal_gap = none;
  minimum_distance = none;
  rms = none;
  source_url = none;
  detail_url = none;
  version = pos 1;
  first_seen_at = at;
  last_seen_at = at;
  created_at = at;
  updated_at = at;
  raw_payload = 123 ∷ 125 ∷ [];
  distance_km = none;
  observation_channel = "usgs_feed";
  solution_class = SolutionClass.confirmed;
  lifecycle = Lifecycle.confirmed;
}
