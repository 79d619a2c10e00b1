-- ===== src/Repository/Consistency.antt =====
-- What the core's tables keep true between transactions, which internal/repository/postgres
-- /repository.go relies on: foreign keys, and a lifecycle that is derived from the sources.
pub mod Classes
pub mod Updates
pub mod Insertions
pub mod Advances
pub mod Progress
pub mod Transaction
use shaker.Prelude.{◌≡◌, ◌≢◌, Bool, true, ◌&&◌, List, All, if◌then◌else◌, ◌==◌ as nat_eq}
use shaker.Go.Sql.{any_where}
use shaker.Earthquake.Solution.{Lifecycle}
use shaker.Earthquake.Event.{Uuid}
use shaker.Repository.Tables.{
  Incident, SourceRecord, Association, Tables, has_id, has_key, incident_lifecycle,
}

-- the source record that carries the preferred identity of an incident
abbrev pub is_preferred_of : {F : Type 0} → Incident F → SourceRecord → Bool
is_preferred_of row s =
    nat_eq s.earthquake_id row.event.id && has_key row.event.provider row.event.external_id s

abbrev pub IsNotSource : Uuid → SourceRecord → Type 0
IsNotSource id s = s.id ≢ id

module _ {F : Type 0} where
  -- the lifecycle of a row is that of its active sources
  abbrev pub IsDerived : Tables F → Incident F → Type 0
  IsDerived db row = row.event.lifecycle ≡ incident_lifecycle row.event.id db

  -- the same, but for one incident, which has the lifecycle `stored`
  abbrev pub IsDerivedBut : Uuid → Lifecycle → Tables F → Incident F → Type 0
  IsDerivedBut id stored db row =
      row.event.lifecycle ≡ (if has_id id row then stored else incident_lifecycle row.event.id db)

  -- An association and the source record that it joins name one incident.
  abbrev pub SameIncident : Association F → SourceRecord → Type 0
  SameIncident a s = s.id ≡ a.source_record_id → s.earthquake_id ≡ a.earthquake_id

  abbrev pub IsLinked : List SourceRecord → Association F → Type 0
  IsLinked sources a = All (SameIncident a) sources

  abbrev pub IsAnchored : List (Incident F) → SourceRecord → Type 0
  IsAnchored incidents s = any_where (has_id s.earthquake_id) incidents ≡ true

  abbrev pub HasPreferred : List SourceRecord → Incident F → Type 0
  HasPreferred sources row = any_where (is_preferred_of row) sources ≡ true

  -- The tables within a transaction, while one incident has the lifecycle `stored`.
  pub record IsPending (id : Uuid) (stored : Lifecycle) (db : Tables F) : Type 0 where
    pub derived : All (IsDerivedBut id stored db) db.incidents
    pub linked : All (IsLinked db.sources) db.associations
    pub anchored : All (IsAnchored db.incidents) db.sources
    pub preferred : All (HasPreferred db.sources) db.incidents

  -- Each incident has the lifecycle of its active sources and the source of its preferred identity,
  -- and source records and associations have their incident.
  pub record IsConsistent (db : Tables F) : Type 0 where
    pub derived : All (IsDerived db) db.incidents
    pub linked : All (IsLinked db.sources) db.associations
    pub anchored : All (IsAnchored db.incidents) db.sources
    pub preferred : All (HasPreferred db.sources) db.incidents

  -- No row has an identity that gen_random_uuid draws.
  abbrev pub IsNotId : Uuid → Incident F → Type 0
  IsNotId id row = row.event.id ≢ id

  abbrev pub IsApart : Uuid × Uuid → Association F → Type 0
  IsApart ids a = (a.source_record_id ≢ ids.1) × (a.earthquake_id ≢ ids.0)

  pub record IsFresh (ids : Uuid × Uuid) (db : Tables F) : Type 0 where
    pub new_incident : All (IsNotId ids.0) db.incidents
    pub new_source : All (IsNotSource ids.1) db.sources
    pub apart : All (IsApart ids) db.associations
