-- ===== src/Repository/Notices.antt =====
-- internal/repository/postgres/repository.go: the tables that createDeliveries writes, the payload of
-- a notification and the links to the sources of an incident.
use shaker.Prelude.{
  ℕ, Bool, true, false, ◌&&◌, ◌++◌, String, Option, none, some, List, [], ◌∷◌, ℤ, ltb_ℤ, eqb_ℤ,
  if◌then◌else◌, ◌==◌ as nat_eq,
}
use shaker.Go.Float.{Float}
use shaker.Go.Time.{Time}
use shaker.Go.Text.{◌==◌}
use shaker.Go.Sql.{filter, order_by, any_where}
use shaker.Earthquake.Solution.{Lifecycle}
use shaker.Earthquake.Event.{Uuid, Event}
use shaker.Notification.Subscription.{Subscription, intensity_decision_boundary}
use shaker.Notification.Alert.{TelegramAlertMessage}
use shaker.Notification.Delivery.{Delivery}
use shaker.Shaking.{Estimate}
use shaker.Repository.Tables.{SourceRecord, Association, Tables}

-- a row of notification_intensity_evaluations, without its constant columns
pub record Evaluation (F : Type 0) : Type 0 where
  pub subscription_id : Uuid
  pub earthquake_id : Uuid
  pub earthquake_version : ℤ
  pub estimate : Estimate F
  pub threshold_mmi : F
  pub decision_boundary_mmi : F
  pub decision : String
  pub created_at : Time

-- the counters of createDeliveries
pub record Counters : Type 0 where
  pub intensity_candidates : ℕ
  pub intensity_evaluations : ℕ
  pub notify : ℕ
  pub below_threshold : ℕ
  pub estimate_errors : ℕ
  pub triggers : ℕ

-- a row of notification_matching_audits, without its constant columns
pub record Audit (F : Type 0) : Type 0 where
  pub earthquake_id : Uuid
  pub earthquake_version : ℤ
  pub mode : String
  pub baseline_complete : Bool
  pub candidate_minimum_mmi : F
  pub candidate_radius_km : F
  pub selected : ℕ
  pub counters : Counters
  pub created_at : Time

pub record Notices (F : Type 0) : Type 0 where
  pub subscriptions : List (Subscription F)
  pub alerts : List TelegramAlertMessage
  pub deliveries : List Delivery
  pub evaluations : List (Evaluation F)
  pub audits : List (Audit F)

-- the map that notificationPayload encodes
pub record Payload (F : Type 0) : Type 0 where
  pub delivery_id : Uuid
  pub type : String
  pub lifecycle : Lifecycle
  pub created_at : Time
  pub earthquake : Event F
  pub sources : List (String × String)
  pub language : Option String
  pub shaking : Option (Estimate F)

-- What others do: the encoding of a payload, strings.TrimSpace, ST_Distance in metres between two
-- points given by latitude and longitude, the identity that uuid.New gives to a notification for a
-- subscription, and the one that gen_random_uuid gives to an alert row.
pub record Outside (F : Type 0) : Type 0 where
  pub encode : Payload F → List ℕ
  pub trim : String → String
  pub distance : F → F → F → F → F
  pub uuid_new : Uuid → String → Uuid
  pub draw_alert : List TelegramAlertMessage → Uuid

abbrev is_empty : Lifecycle → Bool
is_empty (Lifecycle.other s) = s == ""
is_empty _ = false

-- notificationPayload
unfoldable pub notification_payload :
    {F : Type 0}
    → Outside F
    → Uuid
    → String
    → Event F
    → List (String × String)
    → Option String
    → Option (Estimate F)
    → Time
    → List ℕ
notification_payload outside delivery_id trigger event links language estimate now =
    outside.encode (record {
      delivery_id = delivery_id;
      type = trigger;
      lifecycle = if is_empty event.lifecycle then Lifecycle.confirmed else event.lifecycle;
      created_at = now;
      earthquake = event;
      sources = links;
      language = language;
      shaking = estimate;
    })

-- string(lifecycle)
unfoldable pub lifecycle_text : Lifecycle → String
lifecycle_text Lifecycle.preliminary = "preliminary"
lifecycle_text Lifecycle.confirmed = "confirmed"
lifecycle_text Lifecycle.reviewed = "reviewed"
lifecycle_text Lifecycle.retracted = "retracted"
lifecycle_text (Lifecycle.other s) = s

-- COALESCE(source_url,detail_url)
abbrev pub source_link : SourceRecord → Option String
source_link s = elim s.source_url [ none ↦ s.detail_url | some url ↦ some url ]

-- the sources that the active associations of an incident join
unfoldable pub associated_sources :
    {F : Type 0} → Uuid → List SourceRecord → List (Association F) → List SourceRecord
unfolding filter
associated_sources id sources [] = []
associated_sources id sources (a ∷ rest) =
    let others = associated_sources id sources rest in
    if nat_eq a.earthquake_id id && a.active
    then filter (λ s. nat_eq (SourceRecord.id s) a.source_record_id) sources ++ others
    else others

-- links[provider] for the first row of each provider
unfoldable pub first_links : List (String × String) → List SourceRecord → List (String × String)
unfolding any_where
first_links links [] = links
first_links links (s ∷ rest) = elim (source_link s) [
  | none ↦ first_links links rest
  | some link ↦ elim (any_where (λ entry. entry.0 == s.provider) links) [
    | true ↦ first_links links rest
    | false ↦ first_links ((s.provider, link) ∷ links) rest
  ]
]

-- providerSourceLinks: of each provider, the link of its latest source
unfoldable pub provider_source_links : {F : Type 0} → Uuid → Tables F → List (String × String)
unfolding associated_sources first_links order_by
provider_source_links id db = first_links [] (
    order_by (λ a b. ltb_ℤ (SourceRecord.source_updated_at b) a.source_updated_at)
      (associated_sources id db.sources db.associations))

module _ {F : Type 0} ⦃f : Float F⦄ where
  abbrev same_evaluation : Evaluation F → Evaluation F → Bool
  same_evaluation a b =
      nat_eq a.subscription_id b.subscription_id
      && nat_eq a.earthquake_id b.earthquake_id
      && eqb_ℤ a.earthquake_version b.earthquake_version
      && a.estimate.model_version == b.estimate.model_version

  -- insertIntensityEvaluation
  unfoldable pub insert_intensity_evaluation :
      Uuid → Event F → F → Estimate F → String → Time → List (Evaluation F) → List (Evaluation F)
  unfolding any_where intensity_decision_boundary
  insert_intensity_evaluation subscription_id event threshold estimate decision now rows =
      let row : Evaluation F = record {
        subscription_id = subscription_id;
        earthquake_id = event.id;
        earthquake_version = event.version;
        estimate = estimate;
        threshold_mmi = threshold;
        decision_boundary_mmi = intensity_decision_boundary threshold;
        decision = decision;
        created_at = now;
      } in
      if any_where (same_evaluation row) rows then rows else row ∷ rows
