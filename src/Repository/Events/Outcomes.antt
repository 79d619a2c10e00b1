-- ===== src/Repository/Events/Outcomes.antt =====
-- internal/repository/postgres/repository.go: how a transaction of applyEvent can end.
use shaker.Prelude.{
  ℕ, ◌≡◌, refl, subst, ◌⊎◌, inl, inr, true, false, Bool, not, ◌&&◌, ◌||◌, [], ◌∷◌, ℤ, pos,
  Bool-cases, Option-cases,
}
use shaker.Go.Float.{Float, Math}
use shaker.Go.Time.{Time, before, equal}
use shaker.Go.Text.{◌==◌}
use shaker.Earthquake.Solution.{SolutionClass, prefer_canonical_source}
use shaker.Earthquake.Event.{Uuid, Event, ChangeKind, updated, unchanged, stale, other}
use shaker.Earthquake.Correlation.{
  CorrelationPolicy, CorrelationDecision, production_correlation_policy,
}
use shaker.Repository.Tables.{
  Incident, SourceRecord, Tables, Changed, source_associated, scored, selected, Services,
  AppliedChange, ApplyError, Result, ◌>>=◌, done, failed, next_version, incident_preferred_solution,
  load_incident_with_preferred_source,
}
use shaker.Repository.Statements.{
  Incoming, update_source, apply_lifecycle_change, update_incident_association,
  update_canonical_from_source,
}
use shaker.Repository.Constraints.{admits}
use shaker.Repository.Changes.{bytes_equal}
use shaker.Repository.Events.{insert_correlated_source, insert_source, run_statements, apply_event}
use shaker.Repository.Known.{
  apply_stale, apply_repeated, apply_weaker, apply_newer, newer_source, apply_known, is_weaker,
}

-- What holds of a result that is no error.
abbrev pub Yields {ℓ} : {A : Type 0} → (A → Type ℓ) → Result A → Type ℓ
Yields P r = (x : _) → r ≡ done x → P x

done_injective : {A : Type 0} (y x : A) → done y ≡ done x → y ≡ x
done_injective y x e = cc

pub Result-cases :
    {A : Type 0} (r : Result A) → ((e : ApplyError) × (r ≡ failed e)) ⊎ ((a : A) × (r ≡ done a))
Result-cases (failed e) = inl (e, refl)
Result-cases (done a) = inr (a, refl)

module _ {ℓ} {A : Type 0} (P : A → Type ℓ) where
  pub Yields-done : (y : A) → P y → Yields P (done y)
  Yields-done y h x e = subst P (done_injective y x e) h

  pub Yields-bind :
      {B : Type 0} (m : Result B) (k : B → Result A)
      → ((b : B) → m ≡ done b → Yields P (k b))
      → Yields P (m >>= k)
  Yields-bind (done b) k h x e = h b refl x e
  Yields-bind (failed error) k h x e = cc

-- the kinds that applyEvent tells
abbrev pub is_change_kind : ChangeKind → Bool
is_change_kind (other _) = false
is_change_kind _ = true

module _ {F : Type 0} (P : AppliedChange F × Tables F → Type 0) (services : Services F)
    (o : Incoming F) (s : SourceRecord) (existing : Event F) (db : Tables F)
    (keep : (kind : ChangeKind) (version : ℤ) (g : SourceRecord → SourceRecord)
      → is_change_kind kind ≡ true
      → P (apply_lifecycle_change o existing s.id kind (update_source o s version g db)))
    (adopt : (version : ℤ) (g : SourceRecord → SourceRecord)
      → P (
          update_canonical_from_source services o existing s.id version []
            (update_source o s version g db))) where
  apply_newer-Yields : Yields P (apply_newer services o s existing db)
  unfolding apply_newer
  apply_newer-Yields =
      let version = next_version s.version in
      let stored = update_source o s version (newer_source o version) db in
      elim (Bool-cases (
        not (existing.provider == o.event.provider)
        || not (existing.external_id == o.event.external_id))) [
          | inr same ↦ rw same (Yields-done P _ (adopt version (newer_source o version)))
          | inl differs ↦ rw differs (
              Yields-bind P (incident_preferred_solution existing.id stored) _ λ c _.
                elim (Bool-cases
                  (prefer_canonical_source existing.provider c o.event.provider o.solution)) [
                    | inl better ↦
                        rw better (Yields-done P _ (adopt version (newer_source o version)))
                    | inr worse ↦
                        rw worse
                          (Yields-done P _ (keep updated version (newer_source o version) refl))
                  ])
        ]

  -- On a known source record applyEvent keeps the view of the incident or adopts a new one.
  pub apply_known-Yields : Yields P (apply_known services o s existing db)
  unfolding apply_known apply_stale apply_repeated apply_weaker
  apply_known-Yields =
      let same_time = equal o.event.source_updated_at existing.source_updated_at in
      elim (Bool-cases (before o.event.source_updated_at existing.source_updated_at)) [
        | inl older ↦ rw older (Yields-done P _ (keep stale s.version _ refl))
        | inr current ↦
            rw current (elim (Bool-cases (same_time && bytes_equal s.payload_hash o.hash)) [
              | inl again ↦ rw again (Yields-done P _ (keep unchanged s.version _ refl))
              | inr changed ↦
                  rw changed (elim (Bool-cases (is_weaker s.solution_class o.solution)) [
                    | inl weaker ↦ rw weaker (Yields-done P _ (keep unchanged s.version _ refl))
                    | inr newer ↦ rw newer apply_newer-Yields
                  ])
            ])
      ]

module _ {F : Type 0} ⦃f : Float F⦄ (P : AppliedChange F × Tables F → Type 0)
    (services : Services F) (o : Incoming F) (db : Tables F) where
  -- An incident of the tables, and the tables after the insertion of a source record.
  pub record IsJoining (row : Incident F) (db2 : Tables F) : Type 0 where
    pub id : Uuid
    pub solution : SolutionClass
    pub loaded : load_incident_with_preferred_source id db ≡ done (row, solution)
    pub same_incidents : db2.incidents ≡ db.incidents
    pub same_revisions : db2.revisions ≡ db.revisions

  -- A correlated source lets its incident keep its view or adopt a new one.
  pub insert_correlated_source-Yields :
      (decision : CorrelationDecision F)
      → ((row : Incident F) (source_id : Uuid) (changed : Changed F) (db2 : Tables F)
          → IsJoining row db2
          → P (update_incident_association o row.event source_id changed db2))
      → ((row : Incident F) (source_id : Uuid) (changed : Changed F) (db2 : Tables F)
          → IsJoining row db2
          → P (update_canonical_from_source services o row.event source_id (pos 1) changed db2))
      → Yields P (insert_correlated_source services o decision db)
  unfolding insert_correlated_source insert_source
  insert_correlated_source-Yields decision keep adopt = elim (Option-cases decision.match) [
    | inl none_found ↦ λ x e. cc (rw none_found at e)
    | inr (match, found) ↦ rw found (
        Yields-bind P (load_incident_with_preferred_source match.incident_id db) _ λ b loaded.
          let version = CorrelationPolicy.version (production_correlation_policy {F = F}) in
          let id = (services.draw db).1 in
          let changed : Changed F =
            (
              "source_association",
              source_associated o.event.provider o.event.external_id match.score version,
            )
            ∷ [] in
          let stored =
            insert_source o id b.0.event.id "heuristic" (scored match.score) version
              (selected production_correlation_policy match decision.ranked) db in
          let joining : IsJoining b.0 stored = record {
            id = match.incident_id;
            solution = b.1;
            loaded = loaded;
            same_incidents = refl;
            same_revisions = refl;
          } in
          elim (Bool-cases
            (prefer_canonical_source b.0.event.provider b.1 o.event.provider o.solution)) [
              | inl better ↦ rw better (Yields-done P _ (adopt b.0 id changed stored joining))
              | inr worse ↦ rw worse (Yields-done P _ (keep b.0 id changed stored joining))
            ])
  ]

module _ {F : Type 0} ⦃f : Float F⦄ ⦃m : Math F⦄ (P : AppliedChange F × Tables F → Type 0)
    (services : Services F) (now : Time) where
  -- What holds behind the statements holds behind applyEvent where the database admits them.
  pub apply_event-Yields :
      (fuel : ℕ) (incoming : Event F) (db : Tables F)
      → Yields P (run_statements services now fuel incoming db)
      → Yields P (apply_event services now fuel incoming db)
  unfolding apply_event
  apply_event-Yields fuel incoming db h =
      Yields-bind P (run_statements services now fuel incoming db) _ λ x works.
        elim (Bool-cases (admits services incoming x.1)) [
          | inl e ↦ rw e (Yields-done P x (h x works))
          | inr e ↦ λ y refusal. cc (rw e at refusal)
        ]
