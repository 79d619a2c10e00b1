-- ===== src/Repository/Events/History.antt =====
-- internal/repository/postgres/repository.go: an incident as its current view and the log of its
-- revisions, and applyEvent as one step of one such history.
use shaker.Prelude.{
  ◌≡◌, refl, ◌∙◌, ◌≢◌, inl, inr, Bool, Option, none, some, List, ◌∷◌, ℤ, pos, arith, Bool-cases,
  ◌==◌ as nat_eq,
}
use shaker.Go.Time.{Time}
use shaker.Go.Sql.{filter, find_where}
use shaker.Go.Sql.Rows.{find_where-updated, find_where-other}
use shaker.Earthquake.Solution.{lifecycle_eq}
use shaker.Earthquake.Event.{Uuid, ChangeKind}
use shaker.Repository.Tables.{
  Incident, Tables, Revision, Changed, Services, next_version, has_id, incident_lifecycle,
}
use shaker.Repository.Statements.{
  Incoming, seen_at, update_incident, set_lifecycle, next_incident, insert_revision,
  apply_lifecycle_change, advance_incident, update_incident_association,
  update_canonical_from_source, adopted, set_columns,
}

pub record History (F : Type 0) : Type 0 where
  pub view : Option (Incident F)
  pub log : List (Revision F)

module _ {F : Type 0} where
  abbrev of_incident : Uuid → Revision F → Bool
  of_incident id r = nat_eq r.earthquake_id id

  -- the history of an incident in the tables
  unfoldable pub history : Uuid → Tables F → History F
  unfolding find_where filter
  history id db = record {
    view = find_where (has_id id) db.incidents;
    log = filter (of_incident id) db.revisions;
  }

  -- A version follows another and is what its revision logs; the identity, the first sight and the
  -- creation of the incident stay.
  pub record IsNext (row row2 : Incident F) (r : Revision F) : Type 0 where
    pub version : row2.event.version ≡ next_version row.event.version
    pub logged : r.version ≡ row2.event.version
    pub id : row2.event.id ≡ row.event.id
    pub first_seen_at : row2.event.first_seen_at ≡ row.event.first_seen_at
    pub created_at : row2.event.created_at ≡ row.event.created_at

  -- The steps of a history: a first version without a revision, another sight of the same version, a
  -- next version with its revision.
  pub data Step : History F → History F → Type 0 where
    created :
        (row : Incident F) (log : List (Revision F))
        → row.event.version ≡ pos 1
        → Step (record { view = none; log = log }) (record { view = some row; log = log })
    seen :
        (row : Incident F) (log : List (Revision F)) (now : Time)
        → Step
            (record { view = some row; log = log })
            (record { view = some (seen_at now row); log = log })
    advanced :
        (row row2 : Incident F) (r : Revision F) (log : List (Revision F))
        → IsNext row row2 r
        → Step (record { view = some row; log = log }) (record { view = some row2; log = r ∷ log })

  -- One incident makes a step, and the history of every other one is the same.
  pub record Moves (id : Uuid) (db db2 : Tables F) : Type 0 where
    pub step : Step (history id db) (history id db2)
    pub others : (other : Uuid) → other ≢ id → history other db2 ≡ history other db

  abbrev logged_row : Incoming F → Uuid → Uuid → ℤ → Changed F → Revision F
  logged_row o id sid version changed = record {
    earthquake_id = id;
    source_record_id = sid;
    version = version;
    source_updated_at = o.event.source_updated_at;
    changed_fields = changed;
    raw_payload = o.event.raw_payload;
    created_at = o.now;
  }

  module _ (o : Incoming F) (id sid : Uuid) (version : ℤ) (changed : Changed F)
      (db : Tables F) where
    own_revision :
        history id (insert_revision o id sid version changed db)
        ≡ record (history id db) { log = logged_row o id sid version changed ∷ (history id db).log }
    unfolding history insert_revision
    own_revision = ground arith

    other_revision :
        (other : Uuid)
        → other ≢ id
        → history other (insert_revision o id sid version changed db) ≡ history other db
    unfolding history insert_revision
    other_revision other apart = ground arith

  module _ (o : Incoming F) (row : Incident F) (db db2 : Tables F)
      (same_incidents : db2.incidents ≡ db.incidents)
      (same_revisions : db2.revisions ≡ db.revisions)
      (found : find_where (has_id row.event.id) db.incidents ≡ some row) where
    -- An UPDATE of the incident changes its view only.
    own_update :
        (h : Incident F → Incident F)
        → ((r : Incident F) → (h r).event.id ≡ r.event.id)
        → history row.event.id (update_incident row.event.id h db2)
          ≡ record { view = some (h row); log = filter (of_incident row.event.id) db.revisions }
    unfolding update_incident history
    own_update h keeps =
        rw
          (
            same_incidents,
            same_revisions,
            find_where-updated (has_id row.event.id) h (λ r. rw (keeps r)) db.incidents row found,
          )
          refl

    other_update :
        (h : Incident F → Incident F)
        → ((r : Incident F) → (h r).event.id ≡ r.event.id)
        → (other : Uuid) → other ≢ row.event.id
        → history other (update_incident row.event.id h db2) ≡ history other db
    unfolding update_incident history
    other_update h keeps other apart =
        rw
          (
            same_incidents,
            same_revisions,
            find_where-other (has_id other) (has_id row.event.id) h (λ r. rw (keeps r))
                (λ r is. ground (arith, is, apart)) db.incidents,
          )
          refl

    own_before :
        history row.event.id db
        ≡ record { view = some row; log = filter (of_incident row.event.id) db.revisions }
    unfolding history
    own_before = rw found refl

    seen-Moves : Moves row.event.id db (update_incident row.event.id (seen_at o.now) db2)
    seen-Moves = record {
      step =
          rw (own_before, own_update (seen_at o.now) (λ r. refl))
            (Step.seen row (filter (of_incident row.event.id) db.revisions) o.now);
      others = other_update (seen_at o.now) λ r. refl;
    }

    -- An UPDATE to the next version, with its revision.
    advanced-Moves :
        (h : Incident F → Incident F) (sid : Uuid) (version : ℤ) (changed : Changed F)
        → ((r : Incident F) → (h r).event.id ≡ r.event.id)
        → (h row).event.version ≡ next_version row.event.version
        → version ≡ (h row).event.version
        → (h row).event.first_seen_at ≡ row.event.first_seen_at
        → (h row).event.created_at ≡ row.event.created_at
        → Moves row.event.id db (
            insert_revision o row.event.id sid version changed (update_incident row.event.id h db2))
    advanced-Moves h sid version changed keeps next logged first birth =
        let id = row.event.id in
        let updated = update_incident id h db2 in
        let log = filter (of_incident id) db.revisions in
        let is_next : IsNext row (h row) (logged_row o id sid version changed) = record {
          version = next;
          logged = logged;
          id = keeps row;
          first_seen_at = first;
          created_at = birth;
        } in
        record {
          step =
              rw (own_before, own_revision o id sid version changed updated, own_update h keeps)
                (Step.advanced row (h row) (logged_row o id sid version changed) log is_next);
          others = λ other apart.
              other_revision o id sid version changed updated other apart
              ∙ other_update h keeps other apart;
        }

    pub apply_lifecycle_change-Moves :
        (sid : Uuid) (kind : ChangeKind)
        → Moves row.event.id db (apply_lifecycle_change o row.event sid kind db2).1
    unfolding apply_lifecycle_change advance_incident set_lifecycle next_version
    apply_lifecycle_change-Moves sid kind =
        let lifecycle = incident_lifecycle row.event.id db2 in
        elim (Bool-cases (lifecycle_eq lifecycle row.event.lifecycle)) [
          | inl same ↦ rw same seen-Moves
          | inr differs ↦ rw differs (
              advanced-Moves (set_lifecycle (next_incident o.now lifecycle row.event)) sid _ _
                (λ r. refl) refl refl refl refl)
        ]

    pub update_incident_association-Moves :
        (sid : Uuid) (changed : Changed F)
        → Moves row.event.id db (update_incident_association o row.event sid changed db2).1
    unfolding update_incident_association advance_incident set_lifecycle next_version
    update_incident_association-Moves sid changed =
        let lifecycle = incident_lifecycle row.event.id db2 in
        advanced-Moves (set_lifecycle (next_incident o.now lifecycle row.event)) sid _ _ (λ r. refl)
          refl refl refl refl

    pub update_canonical_from_source-Moves :
        (services : Services F) (sid : Uuid) (version : ℤ) (changed : Changed F)
        → Moves row.event.id db
            (update_canonical_from_source services o row.event sid version changed db2).1
    unfolding update_canonical_from_source set_columns adopted
    update_canonical_from_source-Moves services sid version changed =
        advanced-Moves
          (set_columns (adopted o row.event (incident_lifecycle row.event.id db2)) version) sid _ _
          (λ r. refl) refl refl refl refl
