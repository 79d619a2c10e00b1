-- ===== src/Repository/Changes.antt =====
-- internal/repository/postgres/repository.go: what a change records (bytesEqual, canonicalProvenance,
-- changedFields).
use shaker.Prelude.{
  ℕ, Bool, true, not, ◌&&◌, ◌||◌, String, none, List, [], ◌∷◌, map, ℤ, length, if◌then◌else◌,
  ◌==◌ as nat_eq,
}
use shaker.Go.Text.{◌==◌}
use shaker.Go.Sql.{filter}
use shaker.Earthquake.Solution.{
  SolutionClass, Lifecycle, lifecycle_eq, effective_observation_channel,
}
use shaker.Earthquake.Event.{Event}
use shaker.Repository.Tables.{Provenance, ChangedValue, field_changed, lifecycle_changed, Changed}

-- bytesEqual
abbrev equal_bytes : List ℕ → List ℕ → Bool
equal_bytes [] ys = true
equal_bytes (x ∷ xs) [] = true
equal_bytes (x ∷ xs) (y ∷ ys) = nat_eq x y && equal_bytes xs ys

unfoldable pub bytes_equal : List ℕ → List ℕ → Bool
bytes_equal a b = nat_eq (length a) (length b) && equal_bytes a b

-- the columns of a row of earthquakes
abbrev pub columns : {F : Type 0} → Event F → Event F
columns e = record e {
  raw_payload = [];
  distance_km = none;
  observation_channel = "";
  solution_class = SolutionClass.other "";
}

abbrev canonical_fields : List String
canonical_fields =
    "occurred_at" ∷ "source_updated_at" ∷ "latitude" ∷ "longitude" ∷ "depth_km" ∷ "magnitude"
    ∷ "magnitude_type" ∷ "place" ∷ "title" ∷ "status" ∷ "event_type" ∷ "alert_level" ∷ "tsunami"
    ∷ "significance" ∷ "felt_reports" ∷ "cdi" ∷ "mmi" ∷ "station_count" ∷ "azimuthal_gap"
    ∷ "minimum_distance" ∷ "rms" ∷ "source_url" ∷ "detail_url" ∷ []

-- canonicalProvenance
unfoldable pub canonical_provenance : {F : Type 0} → Event F → ℤ → List (String × Provenance)
unfolding effective_observation_channel
canonical_provenance e source_version =
    let source : Provenance = record {
      provider = e.provider;
      external_id = e.external_id;
      source_version = source_version;
      channel = effective_observation_channel e.observation_channel;
    } in
    map (λ field. (field, source)) canonical_fields

abbrev null_bytes : List ℕ
null_bytes = 110 ∷ 117 ∷ 108 ∷ 108 ∷ []

-- the encoded value of a key, null where it is missing
unfoldable pub json_of : String → List (String × List ℕ) → List ℕ
json_of key [] = null_bytes
json_of key ((k, v) ∷ rest) = let later = json_of key rest in if k == key then v else later

abbrev is_bookkeeping : String → Bool
is_bookkeeping k =
    k == "id"
    || k == "version"
    || k == "first_seen_at"
    || k == "last_seen_at"
    || k == "created_at"
    || k == "updated_at"

-- changedFields, on the JSON objects of the two events
unfoldable pub changed_fields :
    {F : Type 0} → List (String × List ℕ) → List (String × List ℕ) → Changed F
unfolding json_of bytes_equal
changed_fields am [] = []
changed_fields am ((k, v) ∷ bm) =
    let rest = changed_fields am bm in
    if is_bookkeeping k || bytes_equal (json_of k am) v
    then rest
    else (k, field_changed (json_of k am) v) ∷ rest

-- changed[key] = value
unfoldable pub set_changed : {F : Type 0} → String → ChangedValue F → Changed F → Changed F
unfolding filter
set_changed key value changed = (key, value) ∷ filter (λ entry. not (entry.0 == key)) changed

-- the assignments of additionalChanged
unfoldable pub set_all : {F : Type 0} → Changed F → Changed F → Changed F
unfolding set_changed
set_all [] changed = changed
set_all ((k, v) ∷ more) changed = set_all more (set_changed k v changed)

unfoldable pub note_lifecycle : {F : Type 0} → Lifecycle → Lifecycle → Changed F → Changed F
unfolding set_changed
note_lifecycle old current changed =
    if lifecycle_eq old current
    then changed
    else set_changed "lifecycle" (lifecycle_changed old current) changed
