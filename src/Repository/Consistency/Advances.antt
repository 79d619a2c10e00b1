-- ===== src/Repository/Consistency/Advances.antt =====
-- The last statements of applyEvent, on the incident, make the tables consistent again.
use shaker.Prelude.{
  ◌≡◌, refl, sym, ap, ◌∙◌, inl, inr, Bool, true, ◌&&◌, ℤ, All-imp, arith, Bool-cases, eq_iff,
  ◌==◌ as nat_eq,
}
use shaker.Go.Sql.{any_where}
use shaker.Go.Sql.Rows.{All-update_where, any_where-update_where}
use shaker.Earthquake.Solution.{Lifecycle, lifecycle_eq}
use shaker.Earthquake.Event.{Uuid, Event, ChangeKind}
use shaker.Repository.Tables.{
  Incident, SourceRecord, Tables, Changed, Services, next_version, has_id, has_key,
  incident_lifecycle,
}
use shaker.Repository.Statements.{
  Incoming, update_incident, insert_revision, advance_incident, apply_lifecycle_change, seen_at,
  set_lifecycle, next_incident, update_incident_association, update_canonical_from_source, adopted,
  set_columns,
}
use shaker.Repository.Consistency.{IsConsistent, IsPending, IsDerivedBut, IsAnchored, HasPreferred}

lifecycle_eq_sound : (a b : Lifecycle) → lifecycle_eq a b ≡ true → a ≡ b
lifecycle_eq_sound (Lifecycle.other s) (Lifecycle.other t) h = ground (arith, eq_iff s t)
lifecycle_eq_sound a b h = ground arith

module _ {F : Type 0} (e : Uuid) (stored : Lifecycle) (db : Tables F)
    (p : IsPending e stored db) where
  update_incident-IsConsistent :
      (h : Incident F → Incident F)
      → ((r : Incident F) → (h r).event.id ≡ r.event.id)
      → ((r : Incident F)
          → r.event.lifecycle ≡ stored
          → (h r).event.lifecycle ≡ incident_lifecycle e db)
      → ((r : Incident F)
          → r.event.id ≡ e
          → HasPreferred db.sources r
          → HasPreferred db.sources (h r))
      → IsConsistent (update_incident e h db)
  unfolding update_incident incident_lifecycle
  update_incident-IsConsistent h keeps sets prefers = record {
    derived =
        All-update_where (IsDerivedBut e stored db) _ (has_id e) h
          (λ r d is.
            sets r (ground (arith, is, d))
            ∙ ap (λ i. incident_lifecycle i db) (sym (keeps r ∙ ground (arith, is))))
          (λ r d is. ground (arith, is, d)) db.incidents p.derived;
    linked = p.linked;
    anchored =
        All-imp (IsAnchored db.incidents) _
          (λ s a.
            any_where-update_where (has_id s.earthquake_id) (has_id e) h (λ r. rw (keeps r))
              db.incidents
            ∙ a)
          db.sources p.anchored;
    preferred =
        All-update_where (HasPreferred db.sources) (HasPreferred db.sources) (has_id e) h
          (λ r d is. prefers r (ground (arith, is)) d) (λ r d is. d) db.incidents p.preferred;
  }

  -- A revision is a record of what happened, on which nothing rests.
  insert_revision-IsConsistent :
      (db2 : Tables F) (o : Incoming F) (source_id : Uuid) (version : ℤ) (changed : Changed F)
      → IsConsistent db2
      → IsConsistent (insert_revision o e source_id version changed db2)
  unfolding insert_revision incident_lifecycle
  insert_revision-IsConsistent db2 o source_id version changed c = record {
    derived = c.derived;
    linked = c.linked;
    anchored = c.anchored;
    preferred = c.preferred;
  }

module _ {F : Type 0} (o : Incoming F) (existing : Event F) (db : Tables F)
    (p : IsPending existing.id existing.lifecycle db) where
  advance_incident-IsConsistent :
      (source_id : Uuid) (changed : Changed F)
      → IsConsistent
          (advance_incident o existing source_id (incident_lifecycle existing.id db) changed db).1
  unfolding advance_incident set_lifecycle next_version
  advance_incident-IsConsistent source_id changed =
      insert_revision-IsConsistent existing.id existing.lifecycle db p _ o source_id _ changed (
        update_incident-IsConsistent existing.id existing.lifecycle db p
          (set_lifecycle (next_incident o.now (incident_lifecycle existing.id db) existing))
          (λ r. refl) (λ r d. refl) λ r is d. d)

  pub apply_lifecycle_change-IsConsistent :
      (source_id : Uuid) (kind : ChangeKind)
      → IsConsistent (apply_lifecycle_change o existing source_id kind db).1
  unfolding apply_lifecycle_change
  apply_lifecycle_change-IsConsistent source_id kind =
      elim (Bool-cases (lifecycle_eq (incident_lifecycle existing.id db) existing.lifecycle)) [
        | inl same ↦ rw same (
            update_incident-IsConsistent existing.id existing.lifecycle db p (seen_at o.now)
              (λ r. refl) (λ r d. d ∙ sym (lifecycle_eq_sound _ _ same)) λ r is d. d)
        | inr other ↦ rw other (advance_incident-IsConsistent source_id _)
      ]

  pub update_incident_association-IsConsistent :
      (source_id : Uuid) (changed : Changed F)
      → IsConsistent (update_incident_association o existing source_id changed db).1
  unfolding update_incident_association
  update_incident_association-IsConsistent source_id changed =
      advance_incident-IsConsistent source_id _

  abbrev pub is_key_of : SourceRecord → Bool
  is_key_of s = nat_eq s.earthquake_id existing.id && has_key o.event.provider o.event.external_id s

  pub update_canonical_from_source-IsConsistent :
      (services : Services F) (source_id : Uuid) (version : ℤ) (additional : Changed F)
      → any_where is_key_of db.sources ≡ true
      → IsConsistent
          (update_canonical_from_source services o existing source_id version additional db).1
  unfolding update_canonical_from_source set_columns adopted
  update_canonical_from_source-IsConsistent services source_id version additional present =
      insert_revision-IsConsistent existing.id existing.lifecycle db p _ o source_id _ _ (
        update_incident-IsConsistent existing.id existing.lifecycle db p _ (λ r. refl) (λ r d. refl)
          λ r is d. rw is present)
