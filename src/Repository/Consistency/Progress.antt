-- ===== src/Repository/Consistency/Progress.antt =====
-- applyEvent on a known source record: it succeeds, and keeps the tables consistent.
use shaker.Prelude.{
  subst, ◌≡◌, refl, ◌∙◌, inl, inr, Bool, true, not, ◌&&◌, ◌||◌, some, [], ℤ, arith, Bool-cases,
  ◌==◌ as nat_eq,
}
use shaker.Go.Time.{before, equal}
use shaker.Go.Text.{◌==◌}
use shaker.Go.Sql.{any_where, find_where}
use shaker.Go.Sql.Rows.{
  find_where-All, find_where-any_where, any_where-found, any_where-update_where,
}
use shaker.Earthquake.Solution.{SolutionClass, prefer_canonical_source}
use shaker.Earthquake.Event.{Uuid, Event, updated}
use shaker.Repository.Tables.{
  Incident, SourceRecord, Tables, Services, AppliedChange, Result, done, has_id, has_key,
  find_source, load_incident_with_preferred_source, incident_preferred_solution, next_version,
}
use shaker.Repository.Statements.{Incoming, seen_source, update_source}
use shaker.Repository.Changes.{bytes_equal}
use shaker.Repository.Known.{
  apply_stale, apply_repeated, apply_weaker, apply_newer, apply_known, newer_source, is_weaker,
}
use shaker.Repository.Consistency.{IsConsistent, IsPending, HasPreferred}
use shaker.Repository.Consistency.Classes.{KeepsKeys}
use shaker.Repository.Consistency.Updates.{find_source_lem, update_source-IsPending}
use shaker.Repository.Consistency.Advances.{
  apply_lifecycle_change-IsConsistent, update_canonical_from_source-IsConsistent,
}

-- The result of a transaction that succeeds and leaves consistent tables.
abbrev pub Succeeds : {F : Type 0} → Result (AppliedChange F × Tables F) → Type 0
Succeeds {F} r = (x : AppliedChange F × Tables F) × (r ≡ done x) × IsConsistent x.1

abbrev is_key : {F : Type 0} → Uuid → Event F → SourceRecord → Bool
is_key id e s = nat_eq s.earthquake_id id && has_key e.provider e.external_id s

module _ {F : Type 0} (db : Tables F) (id : Uuid) (row : Incident F) where
  -- Where the preferred identity of an incident has its source, loading the incident succeeds.
  pub load_incident-done :
      find_where (has_id id) db.incidents ≡ some row
      → row.event.id ≡ id
      → HasPreferred db.sources row
      → (solution : SolutionClass) × (load_incident_with_preferred_source id db
          ≡ done (row, solution))
  unfolding load_incident_with_preferred_source
  load_incident-done found is preferred =
      let (s, source, _) =
        find_where-any_where (is_key id row.event) db.sources
          (subst (λ i. any_where (is_key i row.event) db.sources ≡ true) is preferred) in
      (s.solution_class, ground (arith, found, source))

module _ {F : Type 0} (db : Tables F) (c : IsConsistent db) (services : Services F) (o : Incoming F)
    (s : SourceRecord) (row : Incident F)
    (found : find_source o.event.provider o.event.external_id db ≡ some (s, row)) where
  pending :
      (version : ℤ) (g : SourceRecord → SourceRecord)
      → KeepsKeys g
      → IsPending row.event.id row.event.lifecycle (update_source o s version g db)
  pending version g keeps = update_source-IsPending db c o s row version g found keeps

  apply_stale-IsConsistent : IsConsistent (apply_stale o s row.event db).1
  unfolding apply_stale seen_source
  apply_stale-IsConsistent =
      apply_lifecycle_change-IsConsistent o row.event _
        (pending s.version _ λ r. (refl, refl, refl, refl)) s.id _

  apply_repeated-IsConsistent : IsConsistent (apply_repeated o s row.event db).1
  unfolding apply_repeated seen_source
  apply_repeated-IsConsistent =
      apply_lifecycle_change-IsConsistent o row.event _
        (pending s.version _ λ r. (refl, refl, refl, refl)) s.id _

  apply_weaker-IsConsistent : IsConsistent (apply_weaker o s row.event db).1
  unfolding apply_weaker seen_source
  apply_weaker-IsConsistent =
      apply_lifecycle_change-IsConsistent o row.event _
        (pending s.version _ λ r. (refl, refl, refl, refl)) s.id _

  apply_newer-Succeeds : Succeeds (apply_newer services o s row.event db)
  unfolding apply_newer newer_source seen_source update_source incident_preferred_solution
  apply_newer-Succeeds =
      let (source, incident) =
        find_source_lem o.event.provider o.event.external_id db s row found in
      let version = next_version s.version in
      let stored = update_source o s version (newer_source o version) db in
      let p = pending version (newer_source o version) λ r. (refl, refl, refl, refl) in
      let (preferred, is) =
        find_where-All (HasPreferred stored.sources) _ db.incidents p.preferred row incident in
      let is_present : any_where (is_key row.event.id o.event) db.sources ≡ true =
        any_where-found _ (is_key row.event.id o.event) db.sources s source
          (ground (arith, is, find_where-All _ _ db.sources c.anchored s source)) in
      let present =
        any_where-update_where (is_key row.event.id o.event) _ (newer_source o version) (λ r. refl)
          db.sources
        ∙ is_present in
      let adopt =
        update_canonical_from_source-IsConsistent o row.event stored p services s.id version []
          present in
      let keep = apply_lifecycle_change-IsConsistent o row.event stored p s.id updated in
      let own : find_where (has_id row.event.id) db.incidents ≡ some row =
        subst (λ i. find_where (has_id i) db.incidents ≡ some row) (ground (arith, is)) incident in
      let (solution, loaded) = load_incident-done stored row.event.id row own refl preferred in
      elim (Bool-cases (
        not (row.event.provider == o.event.provider)
        || not (row.event.external_id == o.event.external_id))) [
          | inr same ↦ rw same (_, refl, adopt)
          | inl other ↦
              rw (other, loaded)
                (elim (Bool-cases (
                  prefer_canonical_source row.event.provider solution o.event.provider
                    o.solution)) [
                      | inl better ↦ rw better (_, refl, adopt)
                      | inr worse ↦ rw worse (_, refl, keep)
                    ])
        ]

  -- On a known source record applyEvent succeeds and keeps the tables consistent.
  pub apply_known-Succeeds : Succeeds (apply_known services o s row.event db)
  unfolding apply_known
  apply_known-Succeeds =
      let same_time = equal o.event.source_updated_at row.event.source_updated_at in
      elim (Bool-cases (before o.event.source_updated_at row.event.source_updated_at)) [
        | inl older ↦ rw older (_, refl, apply_stale-IsConsistent)
        | inr current ↦
            rw current (elim (Bool-cases (same_time && bytes_equal s.payload_hash o.hash)) [
              | inl again ↦ rw again (_, refl, apply_repeated-IsConsistent)
              | inr changed ↦
                  rw changed (elim (Bool-cases (is_weaker s.solution_class o.solution)) [
                    | inl weaker ↦ rw weaker (_, refl, apply_weaker-IsConsistent)
                    | inr newer ↦ rw newer apply_newer-Succeeds
                  ])
            ])
      ]
