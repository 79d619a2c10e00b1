-- ===== src/Repository/Events/Repeats.antt =====
-- internal/repository/postgres/repository.go: an observation that applyEvent has already stored.
use shaker.Prelude.{
  ◌≡◌, refl, sym, ◌∙◌, inl, inr, true, false, not, ◌||◌, some, List, arith, Bool-cases, eq_iff,
  ◌==◌ as nat_eq,
}
use shaker.Go.Time.{before}
use shaker.Go.Sql.{update_where}
use shaker.Go.Text.{◌==◌}
use shaker.Earthquake.Solution.{SolutionClass, lifecycle_eq, prefer_canonical_source}
use shaker.Earthquake.Event.{Event, updated}
use shaker.Repository.Tables.{
  Incident, SourceRecord, Tables, Services, AppliedChange, Result, ◌>>=◌, done, failed,
  next_version, find_source, incident_lifecycle, incident_preferred_solution,
}
use shaker.Repository.Statements.{
  Incoming, update_source, apply_lifecycle_change, advance_incident, insert_revision,
  update_incident, update_canonical_from_source,
}
use shaker.Repository.Known.{apply_newer, newer_source, apply_known, is_weaker}
use shaker.Repository.Consistency.{IsConsistent}
use shaker.Repository.Consistency.Progress.{apply_known-Succeeds}

-- The source records after a newer observation of one of them.
abbrev pub counted_up :
    {F : Type 0} → Incoming F → SourceRecord → List SourceRecord → List SourceRecord
unfolding update_where
counted_up o s rows =
    update_where (λ r. nat_eq (SourceRecord.id r) s.id) (newer_source o (next_version s.version))
      rows

-- A result is an update that leaves certain source records.
abbrev IsUpdate : {F : Type 0} → List SourceRecord → Result (AppliedChange F × Tables F) → Type 0
IsUpdate {F} rows r =
    (x : AppliedChange F × Tables F) → r ≡ done x → (x.0.kind ≡ updated) × (x.1.sources ≡ rows)

>>=-IsUpdate :
    {F : Type 0} (rows : List SourceRecord) (m : Result SolutionClass)
    (k : SolutionClass → Result (AppliedChange F × Tables F))
    → ((c : SolutionClass) → IsUpdate rows (k c))
    → IsUpdate rows (m >>= k)
>>=-IsUpdate rows (done c) k h x e = h c x e
>>=-IsUpdate rows (failed error) k h x e = cc

module _ {F : Type 0} (services : Services F) (o : Incoming F) (s : SourceRecord)
    (existing : Event F) (db : Tables F) where
  done-IsUpdate :
      (y : AppliedChange F × Tables F) → y.0.kind ≡ updated → IsUpdate y.1.sources (done y)
  done-IsUpdate y h x e = ground (arith, h, e)

  keep-IsUpdate :
      (db2 : Tables F)
      → IsUpdate db2.sources (done (apply_lifecycle_change o existing s.id updated db2))
  unfolding apply_lifecycle_change advance_incident insert_revision update_incident
  keep-IsUpdate db2 =
      elim (Bool-cases (lifecycle_eq (incident_lifecycle existing.id db2) existing.lifecycle)) [
        | inl same ↦ rw same (done-IsUpdate _ refl)
        | inr other ↦ rw other (done-IsUpdate _ refl)
      ]

  -- Every outcome of a newer observation is an update.
  apply_newer-IsUpdate : IsUpdate (counted_up o s db.sources) (apply_newer services o s existing db)
  unfolding apply_newer update_canonical_from_source insert_revision update_incident update_source
      counted_up
  apply_newer-IsUpdate =
      let stored =
        update_source o s (next_version s.version) (newer_source o (next_version s.version)) db in
      elim (Bool-cases (
        not (existing.provider == o.event.provider)
        || not (existing.external_id == o.event.external_id))) [
          | inr same ↦ rw same (done-IsUpdate _ refl)
          | inl other ↦ rw other (
              >>=-IsUpdate stored.sources (incident_preferred_solution existing.id stored) _ λ c.
                elim (Bool-cases
                  (prefer_canonical_source existing.provider c o.event.provider o.solution)) [
                    | inl better ↦ rw better (done-IsUpdate _ refl)
                    | inr worse ↦ rw worse (keep-IsUpdate stored)
                  ])
        ]

  is_weaker-same : (c : SolutionClass) → is_weaker c c ≡ false
  unfolding is_weaker
  is_weaker-same (SolutionClass.other t) = ground (arith, eq_iff t t)
  is_weaker-same c = ground arith

  later_is_newer :
      before existing.source_updated_at o.event.source_updated_at ≡ true
      → s.solution_class ≡ o.solution
      → apply_known services o s existing db ≡ apply_newer services o s existing db
  unfolding apply_known
  later_is_newer later same = ground (arith, is_weaker-same o.solution)

module _ {F : Type 0} (services : Services F) (o : Incoming F) (s : SourceRecord) (row : Incident F)
    (db : Tables F) where
  -- In consistent tables, an observation repeats what its source record holds: the same payload, time
  -- and class. If its time is later than that of the incident, whose view another source gives,
  -- applyEvent takes the repetition for news: it succeeds with an update, and counts up the version
  -- of the source record.
  pub apply_known-repeated_update :
      IsConsistent db
      → find_source o.event.provider o.event.external_id db ≡ some (s, row)
      → s.payload_hash ≡ o.hash
      → s.source_updated_at ≡ o.event.source_updated_at
      → s.solution_class ≡ o.solution
      → before row.event.source_updated_at s.source_updated_at ≡ true
      → (x : AppliedChange F × Tables F) × (apply_known services o s row.event db ≡ done x)
        × (x.0.kind ≡ updated)
        × (x.1.sources ≡ counted_up o s db.sources)
  apply_known-repeated_update c found payload time class later =
      let (x, succeeds, _) = apply_known-Succeeds db c services o s row found in
      let news = later_is_newer services o s row.event db (rw (sym time) later) class in
      let (kind, rows) = apply_newer-IsUpdate services o s row.event db x (sym news ∙ succeeds) in
      (x, succeeds, kind, rows)
