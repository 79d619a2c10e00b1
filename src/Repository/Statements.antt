-- ===== src/Repository/Statements.antt =====
-- internal/repository/postgres/repository.go: the statements that applyEvent runs on the tables, and
-- the changes that it reports.
use shaker.Prelude.{
  ℕ, Bool, ◌&&◌, String, Option, none, some, List, [], ◌∷◌, ℤ, if◌then◌else◌, ◌==◌ as nat_eq,
}
use shaker.Go.Time.{Time, equal}
use shaker.Go.Text.{◌==◌}
use shaker.Go.Sql.{update_where, any_where}
use shaker.Earthquake.Solution.{SolutionClass, Lifecycle, class_eq, lifecycle_eq}
use shaker.Earthquake.Event.{Uuid, Event, ChangeKind, updated}
use shaker.Repository.Changes.{
  bytes_equal, canonical_provenance, changed_fields, columns, note_lifecycle, set_all, set_changed,
}
use shaker.Repository.Tables.{
  Incident, SourceRecord, Observation, lifecycle_changed, Changed, Revision, Tables, AppliedChange,
  Services, next_version, has_id, incident_lifecycle,
}

-- The values that applyEvent computes from an observation before it looks at its branches.
pub record Incoming (F : Type 0) : Type 0 where
  pub event : Event F
  pub hash : List ℕ
  pub channel : String
  pub solution : SolutionClass
  pub now : Time

abbrev same_observation : Observation → Observation → Bool
same_observation a b =
    nat_eq a.source_record_id b.source_record_id
    && a.channel == b.channel
    && class_eq a.solution_class b.solution_class
    && equal a.source_updated_at b.source_updated_at
    && bytes_equal a.payload_hash b.payload_hash

abbrev coalesce : Option String → Option String → Option String
coalesce none stored = stored
coalesce (some url) stored = some url

module _ {F : Type 0} where
  -- insertProviderObservation
  unfoldable pub insert_provider_observation :
      Incoming F → Uuid → ℤ → List Observation → List Observation
  unfolding any_where bytes_equal
  insert_provider_observation o source_id source_version rows =
      let row : Observation = record {
        source_record_id = source_id;
        source_version = source_version;
        channel = o.channel;
        solution_class = o.solution;
        source_updated_at = o.event.source_updated_at;
        payload_hash = o.hash;
        raw_payload = o.event.raw_payload;
        received_at = o.now;
      } in
      if any_where (same_observation row) rows then rows else row ∷ rows

  -- the columns that every UPDATE of a source record sets
  unfoldable pub seen_source : Incoming F → SourceRecord → SourceRecord
  seen_source o s = record s {
    source_url = coalesce o.event.source_url s.source_url;
    detail_url = coalesce o.event.detail_url s.detail_url;
    last_seen_at = o.now;
    updated_at = o.now;
  }

  -- UPDATE earthquake_source_records ... WHERE id, after the observation is inserted
  unfoldable pub update_source :
      Incoming F → SourceRecord → ℤ → (SourceRecord → SourceRecord) → Tables F → Tables F
  unfolding insert_provider_observation update_where
  update_source o s version g db = record db {
    observations = insert_provider_observation o s.id version db.observations;
    sources = update_where (λ row. nat_eq (SourceRecord.id row) s.id) g db.sources;
  }

  -- UPDATE earthquakes ... WHERE id
  unfoldable pub update_incident : Uuid → (Incident F → Incident F) → Tables F → Tables F
  unfolding update_where
  update_incident id g db = record db { incidents = update_where (has_id id) g db.incidents }

  -- INSERT INTO earthquake_revisions
  unfoldable pub insert_revision : Incoming F → Uuid → Uuid → ℤ → Changed F → Tables F → Tables F
  insert_revision o id source_id version changed db =
      let row : Revision F = record {
        earthquake_id = id;
        source_record_id = source_id;
        version = version;
        source_updated_at = o.event.source_updated_at;
        changed_fields = changed;
        raw_payload = o.event.raw_payload;
        created_at = o.now;
      } in
      record db { revisions = row ∷ db.revisions }

  abbrev pub seen_at : Time → Incident F → Incident F
  seen_at now row = record row { event = record row.event { last_seen_at = now; updated_at = now } }

  -- the event `current` of applyLifecycleChange and updateIncidentAssociation, and its row
  abbrev pub next_incident : Time → Lifecycle → Event F → Event F
  unfolding next_version
  next_incident now lifecycle e = record e {
    version = next_version e.version;
    last_seen_at = now;
    updated_at = now;
    lifecycle = lifecycle;
  }

  -- UPDATE earthquakes SET lifecycle, version, last_seen_at, updated_at
  unfoldable pub set_lifecycle : Event F → Incident F → Incident F
  set_lifecycle current row = record row {
    event = record row.event {
      version = current.version;
      last_seen_at = current.last_seen_at;
      updated_at = current.updated_at;
      lifecycle = current.lifecycle;
    };
  }

  -- the end that applyLifecycleChange and updateIncidentAssociation share
  unfoldable pub advance_incident :
      Incoming F → Event F → Uuid → Lifecycle → Changed F → Tables F → AppliedChange F × Tables F
  unfolding update_incident set_lifecycle insert_revision
  advance_incident o existing source_id lifecycle changed db =
      let current = next_incident o.now lifecycle existing in
      let applied : AppliedChange F = record {
        kind = updated;
        previous = some existing;
        current = current;
        changed_fields = changed;
        source_record_id = source_id;
      } in
      (
        applied,
        insert_revision o existing.id source_id current.version changed
            (update_incident existing.id (set_lifecycle current) db),
      )

  -- applyLifecycleChange
  unfoldable pub apply_lifecycle_change :
      Incoming F → Event F → Uuid → ChangeKind → Tables F → AppliedChange F × Tables F
  unfolding incident_lifecycle update_incident advance_incident set_changed
  apply_lifecycle_change o existing source_id unchanged_kind db =
      let lifecycle = incident_lifecycle existing.id db in
      let seen : AppliedChange F = record {
        kind = unchanged_kind;
        previous = some existing;
        current = existing;
        changed_fields = [];
        source_record_id = source_id;
      } in
      if lifecycle_eq lifecycle existing.lifecycle
      then (seen, update_incident existing.id (seen_at o.now) db)
      else advance_incident o existing source_id lifecycle
          (set_changed "lifecycle" (lifecycle_changed existing.lifecycle lifecycle) []) db

  -- updateIncidentAssociation
  unfoldable pub update_incident_association :
      Incoming F → Event F → Uuid → Changed F → Tables F → AppliedChange F × Tables F
  unfolding incident_lifecycle advance_incident note_lifecycle
  update_incident_association o existing source_id changed db =
      let lifecycle = incident_lifecycle existing.id db in
      advance_incident o existing source_id lifecycle
        (note_lifecycle existing.lifecycle lifecycle changed) db

  -- the event `incoming` of updateCanonicalFromSource as it is stored
  unfoldable pub adopted : Incoming F → Event F → Lifecycle → Event F
  unfolding next_version
  adopted o existing lifecycle = record o.event {
    id = existing.id;
    version = next_version existing.version;
    first_seen_at = existing.first_seen_at;
    last_seen_at = o.now;
    created_at = existing.created_at;
    updated_at = o.now;
    lifecycle = lifecycle;
  }

  -- UPDATE earthquakes SET of all columns but the identity, the first sight and the creation
  unfoldable pub set_columns : Event F → ℤ → Incident F → Incident F
  unfolding canonical_provenance
  set_columns current source_version row = record {
    event = record (columns current) {
      id = row.event.id;
      first_seen_at = row.event.first_seen_at;
      created_at = row.event.created_at;
    };
    canonical_provenance = canonical_provenance current source_version;
  }

  -- updateCanonicalFromSource
  unfoldable pub update_canonical_from_source :
      Services F
      → Incoming F
      → Event F
      → Uuid
      → ℤ
      → Changed F
      → Tables F
      → AppliedChange F × Tables F
  unfolding incident_lifecycle adopted changed_fields set_all note_lifecycle update_incident
      set_columns insert_revision
  update_canonical_from_source services o existing source_id source_version additional db =
      let current = adopted o existing (incident_lifecycle existing.id db) in
      let fields = changed_fields (services.json_fields existing) (services.json_fields current) in
      let changed =
        note_lifecycle existing.lifecycle current.lifecycle (set_all additional fields) in
      let applied : AppliedChange F = record {
        kind = updated;
        previous = some existing;
        current = current;
        changed_fields = changed;
        source_record_id = source_id;
      } in
      (
        applied,
        insert_revision o existing.id source_id current.version changed
            (update_incident existing.id (set_columns current source_version) db),
      )
