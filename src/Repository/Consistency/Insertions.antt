-- ===== src/Repository/Consistency/Insertions.antt =====
-- The statements that insert a source record with its association, for a known incident or a new one.
use shaker.Prelude.{
  ◌≡◌, refl, sym, ap, ◌∙◌, ◌≢◌, inl, inr, true, ◌++◌, String, some, List, [], ◌∷◌, All, All-imp,
  All-and, arith, Bool-cases, eq_iff, ◌==◌ as nat_eq,
}
use shaker.Go.Sql.{any_where, find_where}
use shaker.Go.Sql.Rows.{find_where-All, any_where-find_where}
use shaker.Earthquake.Solution.{resolve_lifecycle}
use shaker.Earthquake.Event.{Uuid}
use shaker.Repository.Tables.{
  Incident, SourceRecord, Association, Tables, Confidence, Evidence, has_id, incident_lifecycle,
  associated_classes,
}
use shaker.Repository.Statements.{Incoming}
use shaker.Repository.Events.{insert_source, new_source}
use shaker.Repository.Consistency.{
  IsConsistent, IsPending, IsDerived, IsLinked, IsAnchored, HasPreferred, IsFresh, IsNotSource,
  IsApart, IsNotId,
}
use shaker.Repository.Consistency.Classes.{
  joined-new, associated_classes-new, associated_classes-none,
}

module _ {F : Type 0} (o : Incoming F) (sid : Uuid) (e : Uuid) where
  -- what a new association of the two asks of a source record
  abbrev Joins : SourceRecord → Type 0
  Joins s = s.id ≡ sid → s.earthquake_id ≡ e

  Joins-new :
      (sources : List SourceRecord)
      → All (IsNotSource sid) sources
      → All Joins (new_source o sid e ∷ sources)
  unfolding new_source
  Joins-new sources fresh =
      (λ _. refl, All-imp (IsNotSource sid) Joins (λ s away is. absurd (away is)) sources fresh)

  IsLinked-old :
      (sources : List SourceRecord) (a : Association F)
      → a.source_record_id ≢ sid
      → IsLinked sources a
      → IsLinked (new_source o sid e ∷ sources) a
  unfolding new_source
  IsLinked-old sources a away linked = (λ is. absurd (away (sym is)), linked)

module _ {F : Type 0} (o : Incoming F) (db : Tables F) (ids : Uuid × Uuid) (fresh : IsFresh ids db)
    (method : String) (confidence : Confidence F) (version : String) (evidence : Evidence F) where
  -- Another incident keeps its lifecycle.
  insert_source-lifecycle :
      (id e : Uuid)
      → e ≢ id
      → incident_lifecycle id (insert_source o ids.1 e method confidence version evidence db)
        ≡ incident_lifecycle id db
  unfolding insert_source incident_lifecycle associated_classes new_source
  insert_source-lifecycle id e away =
      let apart =
        All-imp (IsApart ids) (λ a. Association.source_record_id a ≢ ids.1) (λ a h. h.0)
          db.associations fresh.apart in
      let same =
        associated_classes-new id (new_source o ids.1 e) db.sources db.associations apart in
      let classes = associated_classes id (new_source o ids.1 e ∷ db.sources) db.associations in
      elim (Bool-cases (nat_eq e id)) [
        | inl is ↦ absurd (away (ground (arith, is)))
        | inr not ↦ rw not (ap resolve_lifecycle same)
      ]

  -- A new incident has the lifecycle of its one source.
  insert_source-alone :
      (id : Uuid)
      → id ≡ ids.0
      → incident_lifecycle id (insert_source o ids.1 ids.0 method confidence version evidence db)
        ≡ resolve_lifecycle (o.solution ∷ [])
  unfolding insert_source incident_lifecycle associated_classes new_source
  insert_source-alone id is =
      let apart =
        All-imp (IsApart ids) (λ a. Association.earthquake_id a ≢ id) (λ a h of. h.1 (of ∙ is))
          db.associations fresh.apart in
      let own = joined-new (new_source o ids.1 ids.0) db.sources fresh.new_source in
      let others =
        associated_classes-none id (new_source o ids.1 ids.0 ∷ db.sources) db.associations apart in
      let here : nat_eq ids.0 id ≡ true = ground (arith, is) in
      rw (here, others) (ap resolve_lifecycle (ap (λ classes. classes ++ []) own))

  insert_source-IsLinked :
      (e : Uuid)
      → All (IsLinked db.sources) db.associations
      → All (IsLinked (new_source o ids.1 e ∷ db.sources)) db.associations
  insert_source-IsLinked e linked =
      All-imp _ (IsLinked (new_source o ids.1 e ∷ db.sources))
        (λ a h. IsLinked-old o ids.1 e db.sources a h.0.0 h.1) db.associations
        (All-and (IsApart ids) (IsLinked db.sources) db.associations fresh.apart linked)

  module _ (c : IsConsistent db) where
    -- A source record that joins a known incident leaves it pending.
    pub insert_source-IsPending :
        (id : Uuid) (row : Incident F)
        → find_where (has_id id) db.incidents ≡ some row
        → IsPending row.event.id row.event.lifecycle
            (insert_source o ids.1 row.event.id method confidence version evidence db)
    unfolding insert_source new_source any_where
    insert_source-IsPending id row found =
        let held = find_where-All (IsDerived db) (has_id id) db.incidents c.derived row found in
        let here = any_where-find_where (has_id id) db.incidents row found in
        let others = insert_source-lifecycle in
        record {
          derived =
              All-imp (IsDerived db) _
                (λ other derived. elim (Bool-cases (has_id row.event.id other)) [
                  | inl same ↦ ground (arith, derived, held.0, same)
                  | inr away ↦ rw away (
                      derived
                      ∙ sym (
                          insert_source-lifecycle other.event.id row.event.id
                            (ground (arith, away))))
                ])
                db.incidents c.derived;
          linked = (
            Joins-new o ids.1 row.event.id db.sources fresh.new_source,
            insert_source-IsLinked row.event.id c.linked,
          );
          anchored = (ground (arith, here, held.1), c.anchored);
          preferred =
              All-imp (HasPreferred db.sources) _ (λ other h. ground (arith, h)) db.incidents
                c.preferred;
        }

    -- The two rows of a new incident keep the tables consistent.
    pub insert_incident-IsConsistent :
        (row : Incident F)
        → row.event.id ≡ ids.0
        → row.event.provider ≡ o.event.provider
        → row.event.external_id ≡ o.event.external_id
        → row.event.lifecycle ≡ resolve_lifecycle (o.solution ∷ [])
        → IsConsistent (
            insert_source o ids.1 ids.0 method confidence version evidence
              (record db { incidents = row ∷ db.incidents }))
    unfolding insert_source new_source any_where incident_lifecycle
    insert_incident-IsConsistent row id provider external_id lifecycle = record {
      derived = (
        lifecycle ∙ sym (insert_source-alone row.event.id id),
        All-imp _ _
            (λ other h.
              h.1 ∙ sym (insert_source-lifecycle other.event.id ids.0 (λ is. h.0 (sym is))))
            db.incidents
            (All-and (IsNotId ids.0) (IsDerived db) db.incidents fresh.new_incident c.derived),
      );
      linked = (
        Joins-new o ids.1 ids.0 db.sources fresh.new_source,
        insert_source-IsLinked ids.0 c.linked,
      );
      anchored = (
        ground (arith, id),
        All-imp (IsAnchored db.incidents) _ (λ s h. ground (arith, h)) db.sources c.anchored,
      );
      preferred = (
        rw (id, provider, external_id)
            (ground (
              arith,
              eq_iff o.event.provider o.event.provider,
              eq_iff o.event.external_id o.event.external_id,
            )),
        All-imp (HasPreferred db.sources) _ (λ other h. ground (arith, h)) db.incidents c.preferred,
      );
    }
