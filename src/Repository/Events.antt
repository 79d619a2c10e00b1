-- ===== src/Repository/Events.antt =====
-- internal/repository/postgres/repository.go: applyEvent, one observation in one transaction.
pub mod History
pub mod Outcomes
pub mod Kinds
pub mod Refinement
pub mod Repeats
use shaker.Prelude.{
  ℕ, zero, suc, Bool, true, false, ◌&&◌, String, none, some, List, [], ◌∷◌, pos, if◌then◌else◌,
}
use shaker.Go.Float.{Float, Math}
use shaker.Go.Time.{Time}
use shaker.Go.Text.{◌==◌}
use shaker.Go.Sql.{any_where}
use shaker.Earthquake.Solution.{
  effective_solution_class, effective_observation_channel, resolve_lifecycle,
  prefer_canonical_source,
}
use shaker.Earthquake.Event.{Uuid, Event, inserted}
use shaker.Earthquake.Correlation.{
  CorrelationPolicy, CorrelationMatch, CorrelationDecision, production_correlation_policy,
}
use shaker.Repository.Known.{apply_known}
use shaker.Repository.Tables.{
  Incident, SourceRecord, Evidence, first_provider_identity, no_match, selected, Confidence,
  certain, scored, Association, source_associated, Tables, AppliedChange, Services, bad_payload,
  refused, requires_match, out_of_fuel, Result, done, failed, ◌>>=◌, find_source,
  load_incident_with_preferred_source,
}
use shaker.Repository.Matching.{correlation_decision}
use shaker.Repository.Statements.{
  Incoming, insert_provider_observation, update_incident_association, update_canonical_from_source,
}
use shaker.Repository.Constraints.{admits}
use shaker.Repository.Changes.{columns, canonical_provenance}

module _ {F : Type 0} where
  -- the row of INSERT INTO earthquake_source_records
  unfoldable pub new_source : Incoming F → Uuid → Uuid → SourceRecord
  new_source o source_id id = record {
    id = source_id;
    earthquake_id = id;
    provider = o.event.provider;
    external_id = o.event.external_id;
    source_updated_at = o.event.source_updated_at;
    payload_hash = o.hash;
    raw_payload = o.event.raw_payload;
    source_url = o.event.source_url;
    detail_url = o.event.detail_url;
    version = pos 1;
    first_seen_at = o.now;
    last_seen_at = o.now;
    created_at = o.now;
    updated_at = o.now;
    latest_observation_channel = o.channel;
    solution_class = o.solution;
  }

  -- the statements that insert a source record, its observation and its association
  unfoldable pub insert_source :
      Incoming F → Uuid → Uuid → String → Confidence F → String → Evidence F → Tables F → Tables F
  unfolding new_source insert_provider_observation
  insert_source o source_id id method confidence version evidence db =
      let association : Association F = record {
        source_record_id = source_id;
        earthquake_id = id;
        method = method;
        confidence = confidence;
        algorithm_version = version;
        evidence = evidence;
        active = true;
        associated_at = o.now;
      } in
      record db {
        sources = new_source o source_id id ∷ db.sources;
        observations = insert_provider_observation o source_id (pos 1) db.observations;
        associations = association ∷ db.associations;
      }

-- the values that applyEvent takes from an observation
unfoldable pub incoming_of : {F : Type 0} → Time → Event F → List ℕ → Incoming F
unfolding effective_observation_channel effective_solution_class
incoming_of now event hash = record {
  event = event;
  hash = hash;
  channel = effective_observation_channel event.observation_channel;
  solution = effective_solution_class event.solution_class;
  now = now;
}

-- the lifecycle of an incident with one source
unfoldable pub alone : {F : Type 0} → Incoming F → Event F
unfolding resolve_lifecycle
alone o = record o.event { lifecycle = resolve_lifecycle (o.solution ∷ []) }

module _ {F : Type 0} ⦃f : Float F⦄ where
  -- the algorithm and the evidence of a new incident
  unfoldable pub new_incident_evidence : CorrelationDecision F → String × Evidence F
  unfolding production_correlation_policy
  new_incident_evidence decision = evidence_of decision.ambiguous decision.ranked
    where
      evidence_of : Bool → List (CorrelationMatch F) → String × Evidence F
      evidence_of ambiguous [] = ("identity-v1", first_provider_identity)
      evidence_of ambiguous (match ∷ rest) =
          let outcome =
            if ambiguous then "ambiguous_candidates" else "below_acceptance_threshold" in
          (
            CorrelationPolicy.version (production_correlation_policy {F = F}),
            no_match outcome (match ∷ rest),
          )

  -- insertCorrelatedSource
  unfoldable pub insert_correlated_source :
      Services F
      → Incoming F
      → CorrelationDecision F
      → Tables F
      → Result (AppliedChange F × Tables F)
  unfolding load_incident_with_preferred_source insert_source prefer_canonical_source
      update_canonical_from_source update_incident_association production_correlation_policy
  insert_correlated_source services o decision db = elim decision.match [
    | none ↦ failed requires_match
    | some match ↦ load_incident_with_preferred_source match.incident_id db >>= λ found.
        let existing = found.0.event in
        let source_id = (services.draw db).1 in
        let policy = production_correlation_policy in
        let stored =
          insert_source o source_id existing.id "heuristic" (scored match.score) policy.version
            (selected policy match decision.ranked) db in
        let changed =
          (
            "source_association",
            source_associated o.event.provider o.event.external_id match.score policy.version,
          )
          ∷ [] in
        if prefer_canonical_source existing.provider found.1 o.event.provider o.solution
        then done
            (update_canonical_from_source services o existing source_id (pos 1) changed stored)
        else done (update_incident_association o existing source_id changed stored)
  ]

  abbrev pub has_preferred_key : Event F → Incident F → Bool
  has_preferred_key e row =
      row.event.provider == e.provider && row.event.external_id == e.external_id

  -- the event that applyEvent returns for a new incident, and the row that it inserts
  unfoldable pub new_incident : Incoming F → Uuid → Event F
  new_incident o id = record o.event {
    id = id;
    version = pos 1;
    first_seen_at = o.now;
    last_seen_at = o.now;
    created_at = o.now;
    updated_at = o.now;
  }

  -- the statements of a new incident
  unfoldable pub insert_incident :
      Services F → Incoming F → CorrelationDecision F → Tables F → AppliedChange F × Tables F
  unfolding new_incident canonical_provenance insert_source new_incident_evidence
  insert_incident services o decision db =
      let (id, source_id) = services.draw db in
      let current = new_incident o id in
      let row : Incident F = record {
        event = columns current;
        canonical_provenance = canonical_provenance current (pos 1);
      } in
      let because = new_incident_evidence decision in
      let applied : AppliedChange F = record {
        kind = inserted;
        previous = none;
        current = current;
        changed_fields = [];
        source_record_id = source_id;
      } in
      (
        applied,
        insert_source o source_id id "new_incident" certain because.0 because.1
            (record db { incidents = row ∷ db.incidents }),
      )

  module _ ⦃m : Math F⦄ (services : Services F) (now : Time) where
    -- the statements of applyEvent. It starts again when the insertion of the incident finds its preferred identity
    -- taken, on fuel.
    unfoldable pub run_statements : ℕ → Event F → Tables F → Result (AppliedChange F × Tables F)
    unfolding find_source apply_known correlation_decision insert_correlated_source insert_incident
        any_where incoming_of alone
    run_statements zero incoming db = failed out_of_fuel
    run_statements (suc fuel) incoming db = elim (services.hash incoming.raw_payload) [
      | none ↦ failed bad_payload
      | some hash ↦
          let o = incoming_of now incoming hash in
          elim (find_source incoming.provider incoming.external_id db) [
            | some found ↦ apply_known services o found.0 found.1.event db
            | none ↦
                let decision = correlation_decision services incoming db in
                let fresh = record o { event = alone o } in
                elim decision.match [
                  | some match ↦ insert_correlated_source services o decision db
                  | none ↦ elim (any_where (has_preferred_key incoming) db.incidents) [
                    | true ↦ run_statements fuel (alone o) db
                    | false ↦ done (insert_incident services fresh decision db)
                  ]
                ]
          ]
    ]

    -- applyEvent: a statement that the database refuses ends it with an error. Each row is written
    -- once, so that the constraints can be read off the tables behind the statements.
    unfoldable pub apply_event : ℕ → Event F → Tables F → Result (AppliedChange F × Tables F)
    unfolding run_statements admits
    apply_event fuel incoming db = run_statements fuel incoming db >>= λ x.
        if admits services incoming x.1 then done x else failed refused
