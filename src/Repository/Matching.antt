-- ===== src/Repository/Matching.antt =====
-- internal/repository/postgres/repository.go: correlationDecision, the incident of another catalogue
-- that an observation of an unknown identity belongs to.
pub mod Laws
use shaker.Prelude.{
  Bool, true, false, not, ◌&&◌, ◌||◌, String, Option, none, some, List, [], ◌∷◌, map, pos, ltb_ℤ,
  leb_ℤ, eqb_ℤ, ◌+ℤ◌, ◌-ℤ◌, abs_ℤ, ltb, length, take, if◌then◌else◌, ◌==◌ as nat_eq,
}
use shaker.Go.Float.{Float, Math, lit, mul}
use shaker.Go.Time.{Time, zero_time}
use shaker.Go.Text.{◌==◌, contains}
use shaker.Go.Sql.{filter, order_by, any_where}
use shaker.Earthquake.Solution.{SolutionClass, Lifecycle}
use shaker.Earthquake.Event.{Uuid, uuid_nil, Event}
use shaker.Earthquake.Correlation.{
  CorrelationCandidate, CorrelationDecision, correlate, production_correlation_policy,
}
use shaker.Repository.Tables.{Incident, SourceRecord, Association, Tables, Services}

-- correlatedCatalogProvider
unfoldable pub correlated_catalog_provider : String → Bool
correlated_catalog_provider provider =
    provider == "emsc" || provider == "usgs" || provider == "geofon" || provider == "kndc"

-- an active association of the incident with a source that a test holds of
unfoldable pub has_source : {F : Type 0} → (SourceRecord → Bool) → Uuid → Tables F → Bool
unfolding any_where
has_source test id db =
    any_where
      (λ a.
        nat_eq (Association.earthquake_id a) id
        && a.active
        && any_where (λ s. nat_eq (SourceRecord.id s) a.source_record_id && test s) db.sources)
      db.associations

-- s.provider IN (...) AND s.provider <> $6, and s.provider = $6
abbrev pub of_other_catalog : String → SourceRecord → Bool
of_other_catalog provider s =
    contains ("emsc" ∷ "usgs" ∷ "geofon" ∷ "kndc" ∷ []) s.provider && not (s.provider == provider)

abbrev pub of_provider : String → SourceRecord → Bool
of_provider provider s = s.provider == provider

abbrev pub is_set : {F : Type 0} → Option F → Bool
is_set none = false
is_set (some _) = true

module _ {F : Type 0} ⦃f : Float F⦄ where
  -- what the rows of the query leave of an event
  unfoldable pub candidate_of : Incident F → CorrelationCandidate F
  candidate_of row = record {
    incident_id = row.event.id;
    event = record {
      id = uuid_nil;
      provider = row.event.provider;
      external_id = "";
      occurred_at = row.event.occurred_at;
      source_updated_at = zero_time;
      latitude = row.event.latitude;
      longitude = row.event.longitude;
      depth_km = row.event.depth_km;
      magnitude = row.event.magnitude;
      magnitude_type = none;
      place = none;
      title = none;
      status = none;
      event_type = none;
      alert_level = none;
      tsunami = none;
      significance = none;
      felt_reports = none;
      cdi = none;
      mmi = none;
      station_count = none;
      azimuthal_gap = none;
      minimum_distance = none;
      rms = none;
      source_url = none;
      detail_url = none;
      version = pos 0;
      first_seen_at = zero_time;
      last_seen_at = zero_time;
      created_at = zero_time;
      updated_at = zero_time;
      raw_payload = [];
      distance_km = none;
      observation_channel = "";
      solution_class = SolutionClass.other "";
      lifecycle = Lifecycle.other "";
    };
  }

  -- the WHERE clause
  unfoldable pub is_candidate : Services F → Event F → Tables F → Incident F → Bool
  unfolding has_source
  is_candidate services incoming db row =
      let policy = production_correlation_policy in
      leb_ℤ (incoming.occurred_at -ℤ policy.maximum_time_delta) row.event.occurred_at
      && leb_ℤ row.event.occurred_at (incoming.occurred_at +ℤ policy.maximum_time_delta)
      && is_set row.event.magnitude
      && services.d_within row.event.latitude row.event.longitude incoming.latitude
          incoming.longitude (mul policy.maximum_distance_km (lit 1000))
      && has_source (of_other_catalog incoming.provider) row.event.id db
      && not (has_source (of_provider incoming.provider) row.event.id db)

  -- the ORDER BY clause
  abbrev pub nearer_in_time : Time → Incident F → Incident F → Bool
  nearer_in_time at a b =
      let before_a = abs_ℤ (a.event.occurred_at -ℤ at) in
      let before_b = abs_ℤ (b.event.occurred_at -ℤ at) in
      ltb_ℤ before_a before_b || eqb_ℤ before_a before_b && ltb a.event.id b.event.id

  unfoldable pub candidate_rows : Services F → Event F → Tables F → List (Incident F)
  unfolding is_candidate filter order_by
  candidate_rows services incoming db = take 100 (
      order_by (nearer_in_time incoming.occurred_at)
        (filter (is_candidate services incoming db) db.incidents))

  abbrev no_decision : CorrelationDecision F
  no_decision = record { match = none; ambiguous = false; ranked = [] }

  -- a cut-off list may lack the best candidate
  unfoldable pub cut_off :
      List (CorrelationCandidate F) → CorrelationDecision F → CorrelationDecision F
  cut_off candidates decision =
      if nat_eq (length candidates) 100
      then record decision { match = none; ambiguous = true }
      else decision

  -- correlationDecision
  unfoldable pub correlation_decision :
      ⦃m : Math F⦄ → Services F → Event F → Tables F → CorrelationDecision F
  unfolding correlated_catalog_provider candidate_rows candidate_of cut_off correlate
  correlation_decision services incoming db =
      if not (correlated_catalog_provider incoming.provider) || not (is_set incoming.magnitude)
      then no_decision
      else let candidates = map candidate_of (candidate_rows services incoming db) in
        cut_off candidates
          (correlate services.string_before production_correlation_policy incoming candidates)
