-- ===== src/Repository/Events/Kinds.antt =====
-- internal/repository/postgres/repository.go: the kinds of change that applyEvent tells.
use shaker.Prelude.{ℕ, zero, suc, ◌≡◌, refl, inl, inr, true, [], ℤ, pos, Bool-cases, Option-cases}
use shaker.Go.Float.{Float, Math}
use shaker.Go.Time.{Time}
use shaker.Go.Sql.{any_where}
use shaker.Earthquake.Solution.{lifecycle_eq}
use shaker.Earthquake.Event.{Uuid, Event, ChangeKind}
use shaker.Earthquake.Correlation.{CorrelationDecision}
use shaker.Repository.Tables.{
  Tables, Changed, Services, AppliedChange, find_source, incident_lifecycle,
}
use shaker.Repository.Matching.{correlation_decision}
use shaker.Repository.Statements.{
  Incoming, update_source, apply_lifecycle_change, advance_incident, update_incident_association,
  update_canonical_from_source,
}
use shaker.Repository.Events.{
  insert_incident, run_statements, apply_event, incoming_of, alone, has_preferred_key,
}
use shaker.Repository.Events.Outcomes.{
  is_change_kind, Yields, Yields-done, apply_known-Yields, insert_correlated_source-Yields,
  apply_event-Yields,
}

module _ {F : Type 0} (o : Incoming F) (existing : Event F) (source_id : Uuid) where
  keep-kind :
      (kind : ChangeKind) (db : Tables F)
      → is_change_kind kind ≡ true
      → is_change_kind (apply_lifecycle_change o existing source_id kind db).0.kind ≡ true
  unfolding apply_lifecycle_change advance_incident
  keep-kind kind db known =
      elim (Bool-cases (lifecycle_eq (incident_lifecycle existing.id db) existing.lifecycle)) [
        | inl same ↦ rw same known
        | inr differs ↦ rw differs refl
      ]

  join-kind :
      (changed : Changed F) (db : Tables F)
      → is_change_kind (update_incident_association o existing source_id changed db).0.kind ≡ true
  unfolding update_incident_association advance_incident
  join-kind changed db = refl

adopt-kind :
    {F : Type 0} (services : Services F) (o : Incoming F) (existing : Event F) (source_id : Uuid)
    (version : ℤ) (changed : Changed F) (db : Tables F)
    → is_change_kind
        (update_canonical_from_source services o existing source_id version changed db).0.kind
      ≡ true
unfolding update_canonical_from_source
adopt-kind services o existing source_id version changed db = refl

insert-kind :
    {F : Type 0} ⦃f : Float F⦄ (services : Services F) (o : Incoming F)
    (decision : CorrelationDecision F) (db : Tables F)
    → is_change_kind (insert_incident services o decision db).0.kind ≡ true
unfolding insert_incident
insert-kind services o decision db = refl

module _ {F : Type 0} ⦃f : Float F⦄ ⦃m : Math F⦄ (services : Services F) (now : Time) where
  run_statements-is_change_kind :
      (fuel : ℕ) (incoming : Event F) (db : Tables F)
      → Yields
          (λ x. is_change_kind (AppliedChange.kind x.0) ≡ true)
          (run_statements services now fuel incoming db)
  unfolding run_statements
  run_statements-is_change_kind zero incoming db = λ x e. cc
  run_statements-is_change_kind (suc fuel) incoming db =
      let P : AppliedChange F × Tables F → Type 0 =
        λ x. is_change_kind (AppliedChange.kind x.0) ≡ true in
      elim (Option-cases (services.hash incoming.raw_payload)) [
        | inl bad ↦ λ x e. cc (rw (run_statements, bad) at e)
        | inr (hash, hashed) ↦
            let o = incoming_of now incoming hash in
            let decision = correlation_decision services incoming db in
            elim (Option-cases (find_source incoming.provider incoming.external_id db)) [
              | inr ((s, row), found) ↦
                  rw (run_statements, hashed, found)
                    (apply_known-Yields P services o s row.event db
                      (λ kind version g known.
                        keep-kind o row.event s.id kind (update_source o s version g db) known)
                      λ version g.
                        adopt-kind services o row.event s.id version []
                          (update_source o s version g db))
              | inl absent ↦ elim (Option-cases decision.match) [
                | inr (match, matched) ↦
                    rw (run_statements, hashed, absent, matched)
                      (insert_correlated_source-Yields P services o db decision
                        (λ r id changed db2 _. join-kind o r.event id changed db2)
                        λ r id changed db2 _. adopt-kind services o r.event id (pos 1) changed db2)
                | inl unmatched ↦
                    elim (Bool-cases (any_where (has_preferred_key incoming) db.incidents)) [
                      | inl taken ↦
                          rw (run_statements, hashed, absent, unmatched, taken)
                            (run_statements-is_change_kind fuel (alone o) db)
                      | inr free ↦
                          rw (run_statements, hashed, absent, unmatched, free)
                            (Yields-done P _
                              (insert-kind services (record o { event = alone o }) decision db))
                    ]
              ]
            ]
      ]

  -- applyEvent tells one of the four kinds of change.
  pub apply_event-is_change_kind :
      (fuel : ℕ) (incoming : Event F) (db : Tables F)
      → Yields
          (λ x. is_change_kind (AppliedChange.kind x.0) ≡ true)
          (apply_event services now fuel incoming db)
  apply_event-is_change_kind fuel incoming db =
      apply_event-Yields _ services now fuel incoming db
        (run_statements-is_change_kind fuel incoming db)
