-- ===== src/Repository/Known.antt =====
-- internal/repository/postgres/repository.go: applyEvent on an observation whose source record the
-- tables have.
use shaker.Prelude.{Bool, not, ◌&&◌, ◌||◌, [], ℤ, if◌then◌else◌}
use shaker.Go.Time.{before, equal}
use shaker.Go.Text.{◌==◌}
use shaker.Earthquake.Solution.{
  SolutionClass, retracted, valid, class_eq, stronger_solution, prefer_canonical_source,
}
use shaker.Earthquake.Event.{Event, updated, unchanged, stale}
use shaker.Repository.Tables.{
  SourceRecord, Tables, AppliedChange, Services, Result, done, ◌>>=◌, next_version,
  incident_preferred_solution,
}
use shaker.Repository.Statements.{
  Incoming, seen_source, update_source, apply_lifecycle_change, update_canonical_from_source,
}
use shaker.Repository.Changes.{bytes_equal}

-- solution != retracted && oldSolution.Valid() && StrongerSolution(...) == oldSolution && ...
unfoldable pub is_weaker : SolutionClass → SolutionClass → Bool
unfolding stronger_solution
is_weaker old solution =
    not (class_eq solution retracted)
    && valid old
    && class_eq (stronger_solution old solution) old
    && not (class_eq solution old)

module _ {F : Type 0} where
  -- the branch of an older observation
  unfoldable pub apply_stale :
      Incoming F → SourceRecord → Event F → Tables F → AppliedChange F × Tables F
  unfolding seen_source update_source stronger_solution apply_lifecycle_change
  apply_stale o s existing db = apply_lifecycle_change o existing s.id stale (
      update_source o s s.version
        (λ row. record (seen_source o row) {
          solution_class = stronger_solution s.solution_class o.solution;
        })
        db)

  -- the branch of the same payload again
  unfoldable pub apply_repeated :
      Incoming F → SourceRecord → Event F → Tables F → AppliedChange F × Tables F
  unfolding seen_source update_source stronger_solution apply_lifecycle_change
  apply_repeated o s existing db =
      let promoted = stronger_solution s.solution_class o.solution in
      let latest =
        if class_eq promoted o.solution then o.channel else s.latest_observation_channel in
      apply_lifecycle_change o existing s.id unchanged (
        update_source o s s.version
          (λ row. record (seen_source o row) {
            latest_observation_channel = latest;
            solution_class = promoted;
          })
          db)

  -- the branch of a weaker solution
  unfoldable pub apply_weaker :
      Incoming F → SourceRecord → Event F → Tables F → AppliedChange F × Tables F
  unfolding seen_source update_source apply_lifecycle_change
  apply_weaker o s existing db =
      apply_lifecycle_change o existing s.id unchanged
        (update_source o s s.version (seen_source o) db)

  -- the row of a source record after a newer observation
  unfoldable pub newer_source : Incoming F → ℤ → SourceRecord → SourceRecord
  unfolding seen_source
  newer_source o version row = record (seen_source o row) {
    source_updated_at = o.event.source_updated_at;
    payload_hash = o.hash;
    raw_payload = o.event.raw_payload;
    version = version;
    latest_observation_channel = o.channel;
    solution_class = o.solution;
  }

  -- the branch of a newer observation
  unfoldable pub apply_newer :
      Services F
      → Incoming F
      → SourceRecord
      → Event F
      → Tables F
      → Result (AppliedChange F × Tables F)
  unfolding newer_source update_source apply_lifecycle_change update_canonical_from_source
      incident_preferred_solution prefer_canonical_source next_version
  apply_newer services o s existing db =
      let version = next_version s.version in
      let stored = update_source o s version (newer_source o version) db in
      let adopt = update_canonical_from_source services o existing s.id version [] stored in
      let keep = apply_lifecycle_change o existing s.id updated stored in
      if not (existing.provider == o.event.provider)
        || not (existing.external_id == o.event.external_id)
      then incident_preferred_solution existing.id stored >>= (λ preferred.
        if prefer_canonical_source existing.provider preferred o.event.provider o.solution
        then done adopt
        else done keep)
      else done adopt

  -- applyEvent behind a query that has found the source record
  unfoldable pub apply_known :
      Services F
      → Incoming F
      → SourceRecord
      → Event F
      → Tables F
      → Result (AppliedChange F × Tables F)
  unfolding apply_stale apply_repeated apply_weaker apply_newer is_weaker bytes_equal
  apply_known services o s existing db =
      if before o.event.source_updated_at existing.source_updated_at
      then done (apply_stale o s existing db)
      else if equal o.event.source_updated_at existing.source_updated_at
          && bytes_equal s.payload_hash o.hash
      then done (apply_repeated o s existing db)
      else if is_weaker s.solution_class o.solution
      then done (apply_weaker o s existing db)
      else apply_newer services o s existing db
