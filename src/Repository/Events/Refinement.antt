-- ===== src/Repository/Events/Refinement.antt =====
-- internal/repository/postgres/repository.go: applyEvent implements a set of histories, each of which
-- only ever gains a first version, another sight of its version, or a next version.
use shaker.Prelude.{
  ℕ, zero, suc, ◌≡◌, refl, sym, ap, ◌∙◌, subst, ◌≢◌, inl, inr, true, false, ◌&&◌, none, some, [],
  pos, arith, Bool-cases, Option-cases, All-imp, ◌==◌ as nat_eq,
}
use shaker.Go.Float.{Float, Math}
use shaker.Go.Time.{Time}
use shaker.Go.Sql.{find_where, any_where}
use shaker.Go.Sql.Rows.{find_where-none, find_where-test}
use shaker.Earthquake.Solution.{SolutionClass}
use shaker.Earthquake.Event.{Uuid, Event}
use shaker.Earthquake.Correlation.{CorrelationDecision}
use shaker.Repository.Tables.{
  Incident, SourceRecord, Tables, Services, AppliedChange, done, has_id, has_key, find_source,
  load_incident_with_preferred_source,
}
use shaker.Repository.Matching.{correlation_decision}
use shaker.Repository.Statements.{Incoming, update_source}
use shaker.Repository.Consistency.{IsFresh, IsNotId}
use shaker.Repository.Consistency.Updates.{find_source_lem}
use shaker.Repository.Events.{
  insert_incident, new_incident, insert_source, run_statements, apply_event, incoming_of, alone,
  has_preferred_key,
}
use shaker.Repository.Known.{apply_known}
use shaker.Repository.Events.History.{
  Step, Moves, history, apply_lifecycle_change-Moves, update_incident_association-Moves,
  update_canonical_from_source-Moves,
}
use shaker.Repository.Events.Outcomes.{
  Yields, Yields-done, apply_known-Yields, insert_correlated_source-Yields, apply_event-Yields,
}

==_refl : (n : ℕ) → nat_eq n n ≡ true
==_refl n = ground arith

==_apart : (a b : ℕ) → a ≢ b → nat_eq a b ≡ false
==_apart a b apart = ground arith

module _ {F : Type 0} (db : Tables F) where
  -- Exactly one history makes a step.
  abbrev pub MovesOne : AppliedChange F × Tables F → Type 0
  MovesOne x = (id : Uuid) × Moves id db x.1

  at_own_id :
      (id : Uuid) (row : Incident F)
      → find_where (has_id id) db.incidents ≡ some row
      → find_where (has_id row.event.id) db.incidents ≡ some row
  at_own_id id row found =
      let is : id ≡ row.event.id =
        ground (arith, find_where-test (has_id id) db.incidents row found) in
      subst (λ i. find_where (has_id i) db.incidents ≡ some row) is found

  apply_known-MovesOne :
      (services : Services F) (o : Incoming F) (s : SourceRecord) (row : Incident F)
      → find_where (has_id row.event.id) db.incidents ≡ some row
      → Yields MovesOne (apply_known services o s row.event db)
  unfolding update_source
  apply_known-MovesOne services o s row found =
      apply_known-Yields MovesOne services o s row.event db
        (λ kind version g known. (
          row.event.id,
          apply_lifecycle_change-Moves o row db (update_source o s version g db) refl refl found
              s.id kind,
        ))
        λ version g. (
          row.event.id,
          update_canonical_from_source-Moves o row db (update_source o s version g db) refl refl
              found services s.id version [],
        )

  loaded_at_own_id :
      (id : Uuid) (row : Incident F) (solution : SolutionClass)
      → load_incident_with_preferred_source id db ≡ done (row, solution)
      → find_where (has_id row.event.id) db.incidents ≡ some row
  unfolding load_incident_with_preferred_source
  loaded_at_own_id id row solution loaded =
      elim (Option-cases (find_where (has_id id) db.incidents)) [
        | inl e ↦ absurd (ground (arith, e, loaded))
        | inr (other, e) ↦
            elim (Option-cases (
              find_where
                (λ s.
                  nat_eq (SourceRecord.earthquake_id s) id
                  && has_key other.event.provider other.event.external_id s)
                db.sources)) [
                  | inl e2 ↦ absurd (ground (arith, e, e2, loaded))
                  | inr e2 ↦
                      at_own_id id row (e ∙ ap (λ r. some r) (ground (arith, e, e2.1, loaded)))
                ]
      ]

  insert_incident-Moves :
      ⦃f : Float F⦄ (services : Services F) (o : Incoming F) (decision : CorrelationDecision F)
      → IsFresh (services.draw db) db
      → Moves (services.draw db).0 db (insert_incident services o decision db).1
  unfolding insert_incident insert_source new_incident history
  insert_incident-Moves services o decision fresh =
      let id = (services.draw db).0 in
      let unused : find_where (has_id id) db.incidents ≡ none =
        find_where-none (has_id id) db.incidents (
          All-imp (IsNotId id) _ (λ r away. ground (arith, away)) db.incidents
            fresh.new_incident) in
      record {
        step = rw (unused, ==_refl id) (Step.created _ _ refl);
        others = λ other apart. rw (==_apart id other (λ is. apart (sym is))) refl;
      }

module _ {F : Type 0} ⦃f : Float F⦄ ⦃m : Math F⦄ (services : Services F) (now : Time) where
  run_statements-MovesOne :
      (fuel : ℕ) (incoming : Event F) (db : Tables F)
      → IsFresh (services.draw db) db
      → Yields (MovesOne db) (run_statements services now fuel incoming db)
  unfolding run_statements
  run_statements-MovesOne zero incoming db fresh = λ x e. cc
  run_statements-MovesOne (suc fuel) incoming db fresh =
      elim (Option-cases (services.hash incoming.raw_payload)) [
        | inl bad ↦ λ x e. cc (rw (run_statements, bad) at e)
        | inr (hash, hashed) ↦
            let o = incoming_of now incoming hash in
            let decision = correlation_decision services incoming db in
            elim (Option-cases (find_source incoming.provider incoming.external_id db)) [
              | inr ((s, row), found) ↦
                  let keys =
                    find_source_lem incoming.provider incoming.external_id db s row found in
                  rw (run_statements, hashed, found)
                    (apply_known-MovesOne db services o s row
                      (at_own_id db s.earthquake_id row keys.1))
              | inl absent ↦ elim (Option-cases decision.match) [
                | inr (match, matched) ↦
                    rw (run_statements, hashed, absent, matched)
                      (insert_correlated_source-Yields (MovesOne db) services o db decision
                        (λ r id changed db2 j. (
                          r.event.id,
                          update_incident_association-Moves o r db db2 j.same_incidents
                              j.same_revisions (loaded_at_own_id db j.id r j.solution j.loaded) id
                              changed,
                        ))
                        λ r id changed db2 j. (
                          r.event.id,
                          update_canonical_from_source-Moves o r db db2 j.same_incidents
                              j.same_revisions (loaded_at_own_id db j.id r j.solution j.loaded)
                              services id (pos 1) changed,
                        ))
                | inl unmatched ↦
                    elim (Bool-cases (any_where (has_preferred_key incoming) db.incidents)) [
                      | inl taken ↦
                          rw (run_statements, hashed, absent, unmatched, taken)
                            (run_statements-MovesOne fuel (alone o) db fresh)
                      | inr free ↦
                          rw (run_statements, hashed, absent, unmatched, free)
                            (Yields-done (MovesOne db) _ (
                              _,
                              insert_incident-Moves db services (record o { event = alone o })
                                  decision fresh,
                            ))
                    ]
              ]
            ]
      ]

  -- A successful applyEvent makes one step of the history of one incident, and leaves the histories
  -- of all others: it enters a first version where there was no such incident, or it sees the version
  -- again, or the version counts up by one and the revision of the new version is logged, with the
  -- identity, the first sight and the creation of the incident kept. The drawn identity must be new.
  pub apply_event-MovesOne :
      (fuel : ℕ) (incoming : Event F) (db : Tables F)
      → IsFresh (services.draw db) db
      → Yields (MovesOne db) (apply_event services now fuel incoming db)
  apply_event-MovesOne fuel incoming db fresh =
      apply_event-Yields (MovesOne db) services now fuel incoming db
        (run_statements-MovesOne fuel incoming db fresh)
