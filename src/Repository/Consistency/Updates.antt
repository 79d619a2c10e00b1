-- ===== src/Repository/Consistency/Updates.antt =====
-- The statements on source records and incidents, and the consistency of the tables.
use shaker.Prelude.{
  ◌≡◌, sym, ap, ◌∙◌, inl, inr, Bool, String, some, ℤ, All, All-imp, arith, Bool-cases, Option-cases,
}
use shaker.Go.Sql.{find_where}
use shaker.Go.Sql.Rows.{All-update_where, find_where-All, any_where-update_where}
use shaker.Earthquake.Solution.{resolve_lifecycle}
use shaker.Earthquake.Event.{Uuid}
use shaker.Repository.Tables.{
  Incident, SourceRecord, Tables, has_id, has_key, find_source, incident_lifecycle,
}
use shaker.Repository.Statements.{Incoming, update_source}
use shaker.Repository.Consistency.{
  IsConsistent, IsPending, IsDerived, IsLinked, SameIncident, IsAnchored, HasPreferred,
  is_preferred_of,
}
use shaker.Repository.Consistency.Classes.{KeepsKeys, BelongsTo, associated_classes-update}

module _ {F : Type 0} where
  -- The query of applyEvent finds a source record with the key, and the incident of the record.
  pub find_source_lem :
      (provider external_id : String) (db : Tables F) (s : SourceRecord) (row : Incident F)
      → find_source provider external_id db ≡ some (s, row)
      → (find_where (has_key provider external_id) db.sources ≡ some s)
        × (find_where (has_id s.earthquake_id) db.incidents ≡ some row)
  unfolding find_source
  find_source_lem provider external_id db s row found =
      elim (Option-cases (find_where (has_key provider external_id) db.sources)) [
        | inl e ↦ ground (arith, e, found)
        | inr e ↦ elim (Option-cases (find_where (has_id e.0.earthquake_id) db.incidents)) [
          | inl e2 ↦ ground (arith, e.1, e2, found)
          | inr e2 ↦ ground (arith, e.1, e2.1, found)
        ]
      ]

  module _ (db : Tables F) (c : IsConsistent db) where
    belongs :
        (key : SourceRecord → Bool) (s : SourceRecord) (e : Uuid)
        → find_where key db.sources ≡ some s
        → e ≡ s.earthquake_id
        → All (BelongsTo s.id e) db.associations
    belongs key s e found own =
        All-imp (IsLinked db.sources) (BelongsTo s.id e)
          (λ a linked same.
            ground (arith, (find_where-All _ key db.sources linked s found).0, own, same))
          db.associations c.linked

    -- A change of a source record leaves its incident pending, with the lifecycle that it had.
    pub update_source-IsPending :
        (o : Incoming F) (s : SourceRecord) (row : Incident F) (version : ℤ)
        (g : SourceRecord → SourceRecord)
        → find_source o.event.provider o.event.external_id db ≡ some (s, row)
        → KeepsKeys g
        → IsPending row.event.id row.event.lifecycle (update_source o s version g db)
    unfolding update_source incident_lifecycle
    update_source-IsPending o s row version g found keeps =
        let keys = find_source_lem o.event.provider o.event.external_id db s row found in
        let held =
          find_where-All (IsDerived db) (has_id s.earthquake_id) db.incidents c.derived row
            keys.1 in
        let here : row.event.id ≡ s.earthquake_id = ground (arith, held.1) in
        let own =
          belongs (has_key o.event.provider o.event.external_id) s row.event.id keys.0 here in
        record {
          derived =
              All-imp (IsDerived db) _
                (λ other derived. elim (Bool-cases (has_id row.event.id other)) [
                  | inl same ↦ ground arith
                  | inr apart ↦ rw apart (
                      derived
                      ∙ sym (
                          ap resolve_lifecycle (
                            associated_classes-update other.event.id row.event.id s.id g db.sources
                              db.associations keeps (ground (arith, apart)) own)))
                ])
                db.incidents c.derived;
          linked =
              All-imp (IsLinked db.sources) _
                (λ a linked.
                  All-update_where (SameIncident a) (SameIncident a) _ g
                    (λ r h _ is. (keeps r).1 ∙ h (sym (keeps r).0 ∙ is)) (λ r h _. h) db.sources
                    linked)
                db.associations c.linked;
          anchored =
              All-update_where (IsAnchored db.incidents) (IsAnchored db.incidents) _ g
                (λ r h _. rw ((keeps r).1) h) (λ r h _. h) db.sources c.anchored;
          preferred =
              All-imp (HasPreferred db.sources) _
                (λ other h.
                  any_where-update_where (is_preferred_of other) _ g
                    (λ r. rw ((keeps r).1, (keeps r).2, (keeps r).3)) db.sources
                  ∙ h)
                db.incidents c.preferred;
        }
