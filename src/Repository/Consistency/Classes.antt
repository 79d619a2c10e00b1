-- ===== src/Repository/Consistency/Classes.antt =====
-- incidentLifecycle joins only what concerns its incident.
use shaker.Prelude.{
  ◌≡◌, refl, ap, ◌≢◌, inl, inr, ◌&&◌, List, [], ◌∷◌, ◌++◌, map, All, arith, Bool-cases,
  ◌==◌ as nat_eq,
}
use shaker.Go.Sql.{filter, update_where}
use shaker.Earthquake.Solution.{SolutionClass}
use shaker.Earthquake.Event.{Uuid}
use shaker.Repository.Tables.{SourceRecord, Association, associated_classes}
use shaker.Repository.Consistency.{IsNotSource}

abbrev pub joined : Uuid → List SourceRecord → List SolutionClass
unfolding filter
joined id sources =
    map (λ s. SourceRecord.solution_class s) (filter (λ s. nat_eq (SourceRecord.id s) id) sources)

abbrev pub KeepsKeys : (SourceRecord → SourceRecord) → Type 0
KeepsKeys g =
    (s : SourceRecord)
    → ((g s).id ≡ s.id)
      × ((g s).earthquake_id ≡ s.earthquake_id)
      × ((g s).provider ≡ s.provider)
      × ((g s).external_id ≡ s.external_id)

joined-update :
    (sid id : Uuid) (g : SourceRecord → SourceRecord) (sources : List SourceRecord)
    → KeepsKeys g
    → id ≢ sid
    → joined id (update_where (λ s. nat_eq (SourceRecord.id s) sid) g sources) ≡ joined id sources
unfolding filter update_where
joined-update sid id g [] keeps apart = refl
joined-update sid id g (s ∷ sources) keeps apart =
    ground (arith, (keeps s).0, joined-update sid id g sources keeps apart)

module _ {F : Type 0} where
  abbrev pub BelongsTo : Uuid → Uuid → Association F → Type 0
  BelongsTo sid e a = a.source_record_id ≡ sid → a.earthquake_id ≡ e

  -- Changes of a source record change no class of an incident that it is not linked to.
  pub associated_classes-update :
      (id e sid : Uuid) (g : SourceRecord → SourceRecord) (sources : List SourceRecord)
      (associations : List (Association F))
      → KeepsKeys g
      → id ≢ e
      → All (BelongsTo sid e) associations
      → associated_classes id
          (update_where (λ s. nat_eq (SourceRecord.id s) sid) g sources)
          associations
        ≡ associated_classes id sources associations
  unfolding associated_classes
  associated_classes-update id e sid g sources [] keeps apart h = refl
  associated_classes-update id e sid g sources (a ∷ rest) keeps apart h =
      let later = associated_classes-update id e sid g sources rest keeps apart h.1 in
      elim (Bool-cases (nat_eq a.earthquake_id id && a.active)) [
        | inr skipped ↦ rw skipped later
        | inl taken ↦
            let away : a.source_record_id ≢ sid = λ same. ground (arith, taken, apart, h.0 same) in
            let here = joined-update sid a.source_record_id g sources keeps away in
            rw (taken, later) (ap (λ classes. classes ++ associated_classes id sources rest) here)
      ]

  -- A source record that no association joins adds no class.
  pub associated_classes-new :
      (id : Uuid) (s : SourceRecord) (sources : List SourceRecord)
      (associations : List (Association F))
      → All (λ a. Association.source_record_id a ≢ s.id) associations
      → associated_classes id (s ∷ sources) associations
        ≡ associated_classes id sources associations
  unfolding associated_classes filter
  associated_classes-new id s sources [] h = refl
  associated_classes-new id s sources (a ∷ rest) h =
      ground (arith, h.0, associated_classes-new id s sources rest h.1)

  -- An incident without associations has no classes.
  pub associated_classes-none :
      (id : Uuid) (sources : List SourceRecord) (associations : List (Association F))
      → All (λ a. Association.earthquake_id a ≢ id) associations
      → associated_classes id sources associations ≡ []
  unfolding associated_classes
  associated_classes-none id sources [] h = refl
  associated_classes-none id sources (a ∷ rest) h =
      ground (arith, h.0, associated_classes-none id sources rest h.1)

joined-none :
    (id : Uuid) (sources : List SourceRecord)
    → All (IsNotSource id) sources
    → joined id sources ≡ []
unfolding filter
joined-none id [] h = refl
joined-none id (s ∷ sources) h = ground (arith, h.0, joined-none id sources h.1)

-- A new source record is all that its association joins.
pub joined-new :
    (s : SourceRecord) (sources : List SourceRecord)
    → All (IsNotSource s.id) sources
    → joined s.id (s ∷ sources) ≡ s.solution_class ∷ []
unfolding filter
joined-new s sources h = ground (arith, joined-none s.id sources h)
