-- ===== src/Repository/Constraints.antt =====
-- migrations/202606290001_initial.sql and migrations/202607140001_incident_correlation.sql: the
-- constraints on the tables that applyEvent writes. A statement that breaks one fails.
use shaker.Prelude.{
  Bool, true, false, not, ◌&&◌, Option, none, some, List, [], ◌∷◌, ℤ, pos, negsuc, leb_ℤ, eqb_ℤ,
  ◌==◌ as nat_eq,
}
use shaker.Go.Float.{Float, le, is_nan, lit, neg_lit}
use shaker.Go.Text.{◌==◌}
use shaker.Go.Sql.{any_where}
use shaker.Earthquake.Solution.{Lifecycle, valid}
use shaker.Earthquake.Event.{Event}
use shaker.Repository.Tables.{
  Incident, SourceRecord, Observation, Confidence, certain, scored, Association, Revision, Tables,
  Services,
}

unfoldable pub all_where {ℓ} : {A : Type ℓ} → (A → Bool) → List A → Bool
all_where p [] = true
all_where p (a ∷ rows) = p a && all_where p rows

-- UNIQUE, on the columns that a test compares
unfoldable pub is_unique {ℓ} : {A : Type ℓ} → (A → A → Bool) → List A → Bool
unfolding any_where
is_unique same [] = true
is_unique same (a ∷ rows) = not (any_where (same a) rows) && is_unique same rows

-- CHECK (lifecycle IN (...))
abbrev is_lifecycle : Lifecycle → Bool
is_lifecycle (Lifecycle.other _) = false
is_lifecycle _ = true

-- an INTEGER column, which may be NULL
abbrev fits_integer : Option ℤ → Bool
fits_integer none = true
fits_integer (some n) = leb_ℤ (negsuc 2147483647) n && leb_ℤ n (pos 2147483647)

abbrev same_key : {F : Type 0} → Incident F → Incident F → Bool
same_key a b = a.event.provider == b.event.provider && a.event.external_id == b.event.external_id

abbrev same_source_key : SourceRecord → SourceRecord → Bool
same_source_key a b = a.provider == b.provider && a.external_id == b.external_id

abbrev same_revision : {F : Type 0} → Revision F → Revision F → Bool
same_revision a b = nat_eq a.source_record_id b.source_record_id && eqb_ℤ a.version b.version

module _ {F : Type 0} ⦃f : Float F⦄ where
  abbrev is_number : Option F → Bool
  is_number none = true
  is_number (some x) = not (is_nan x)

  -- the CHECKs and the INTEGER columns of earthquakes
  unfoldable pub incident_allowed : Incident F → Bool
  incident_allowed row =
      le (neg_lit 90) row.event.latitude
      && le row.event.latitude (lit 90)
      && le (neg_lit 180) row.event.longitude
      && le row.event.longitude (lit 180)
      && is_number row.event.depth_km
      && is_number row.event.magnitude
      && fits_integer row.event.significance
      && fits_integer row.event.felt_reports
      && fits_integer row.event.station_count
      && leb_ℤ (pos 1) row.event.version
      && is_lifecycle row.event.lifecycle

  -- CHECK (confidence IS NULL OR (confidence >= 0 AND confidence <= 1))
  abbrev confidence_allowed : Confidence F → Bool
  confidence_allowed certain = true
  confidence_allowed (scored x) = le (lit 0) x && le x (lit 1)

  -- an association is inserted active, and a source has one that is
  abbrev same_active : Association F → Association F → Bool
  same_active a b = nat_eq a.source_record_id b.source_record_id && a.active && b.active

  -- Whether the database runs the statements that turn its tables into these: no row breaks a
  -- constraint, the payload that every branch stores is JSON, and nothing else fails.
  unfoldable pub admits : Services F → Event F → Tables F → Bool
  unfolding all_where is_unique any_where incident_allowed
  admits services incoming db =
      not (services.interrupted incoming db)
      && services.is_jsonb incoming.raw_payload
      && all_where incident_allowed db.incidents
      && all_where (λ s. leb_ℤ (pos 1) (SourceRecord.version s) && valid s.solution_class)
          db.sources
      && all_where (λ r. leb_ℤ (pos 1) (Observation.source_version r) && valid r.solution_class)
          db.observations
      && all_where (λ a. confidence_allowed (Association.confidence a)) db.associations
      && is_unique same_key db.incidents
      && is_unique same_source_key db.sources
      && is_unique same_active db.associations
      && is_unique same_revision db.revisions
