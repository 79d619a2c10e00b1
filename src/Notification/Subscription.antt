-- ===== src/Notification/Subscription.antt =====
-- internal/domain/notification/model.go: a subscription, the events it matches and the triggers that
-- a new version of an event raises for it.
pub mod Validation
pub mod Raised
pub mod Accepted
use shaker.Prelude.{
  ℕ, Bool, true, false, not, ◌&&◌, ◌||◌, String, Option, none, some, List, [], ◌∷◌, ◌++◌, ℤ, ltb,
  leb_ℤ, if◌then◌else◌,
}
use shaker.Go.Float.{Float, lt, le, sub, ratio, max_one}
use shaker.Go.Time.{Time, Duration, time_sub}
use shaker.Go.Text.{◌==◌, lower_eq, contains}
use shaker.Earthquake.Event.{Uuid, Event}

pub data Trigger : Type 0 where
  new_event magnitude_threshold_crossed intensity_threshold_crossed tsunami_activated
        alert_level_increased :
      Trigger

pub record Subscription (F : Type 0) : Type 0 where
  pub id : Uuid
  pub name : String
  pub status : String
  pub channel : String
  pub subscription_kind : String
  pub webhook_url : String
  pub encrypted_webhook_secret : List ℕ
  pub telegram_chat_id : Option ℤ
  pub telegram_chat_username : Option String
  pub notification_language : Option String
  pub minimum_magnitude : Option F
  pub maximum_magnitude : Option F
  pub minimum_intensity : Option F
  pub center_latitude : Option F
  pub center_longitude : Option F
  pub radius_km : Option F
  pub tsunami_only : Bool
  pub allowed_alert_levels : List String
  pub allowed_event_types : List String
  pub notify_on_new : Bool
  pub notify_on_threshold_crossing : Bool
  pub notify_on_tsunami_change : Bool
  pub notify_on_alert_increase : Bool
  pub maximum_event_age : Duration
  pub created_at : Time
  pub updated_at : Time

-- AlertSeverity
unfoldable pub alert_severity : Option String → ℕ
alert_severity none = 0
alert_severity (some v) =
    if lower_eq v "green"
    then 1
    else if lower_eq v "yellow"
    then 2
    else if lower_eq v "orange"
    then 3
    else if lower_eq v "red"
    then 4
    else 0

-- p != nil && *p
abbrev pub holds : Option Bool → Bool
holds none = false
holds (some b) = b

-- values is not empty and has no *value
abbrev pub excluded : List String → Option String → Bool
excluded [] v = false
excluded (x ∷ xs) none = true
excluded (x ∷ xs) (some v) = not (contains (x ∷ xs) v)

-- append(result, t) under the condition b
abbrev pub when : Bool → Trigger → List Trigger
when b t = if b then t ∷ [] else []

module _ {F : Type 0} ⦃f : Float F⦄ where
  -- IntensityDecisionBoundary
  unfoldable pub intensity_decision_boundary : F → F
  intensity_decision_boundary threshold_mmi = max_one (sub threshold_mmi (ratio 1 2))

  -- matchesNonMagnitude
  unfoldable pub matches_non_magnitude : Subscription F → Event F → Bool
  matches_non_magnitude s e =
      if s.tsunami_only && not (holds e.tsunami)
      then false
      else if excluded s.allowed_alert_levels e.alert_level
      then false
      else not (excluded s.allowed_event_types e.event_type)

  -- limit != nil && (value == nil || *value < *limit)
  abbrev pub below : Option F → Option F → Bool
  below (some limit) (some value) = lt value limit
  below (some limit) none = true
  below none value = false

  -- limit != nil && (value == nil || *value > *limit)
  abbrev pub above : Option F → Option F → Bool
  above (some limit) (some value) = lt limit value
  above (some limit) none = true
  above none value = false

  unfoldable pub matches : Subscription F → Event F → Bool
  matches s e =
      if below s.minimum_magnitude e.magnitude
      then false
      else if above s.maximum_magnitude e.magnitude
      then false
      else matches_non_magnitude s e

  -- limit != nil && current != nil && (old == nil || *old < *limit) && *current >= *limit
  abbrev pub crosses : Option F → Option F → Option F → Bool
  crosses (some limit) (some old) (some current) = lt old limit && le limit current
  crosses (some limit) none (some current) = le limit current
  crosses _ _ _ = false

  -- The conditions of Triggers on the first observation of an event.
  abbrev pub is_news : Subscription F → Event F → String → Time → Bool → Bool
  is_news s current mode now baseline_complete =
      mode == "realtime"
      && baseline_complete
      && s.notify_on_new
      && leb_ℤ (time_sub now current.occurred_at) s.maximum_event_age

  -- The triggers of a later version of an event.
  abbrev pub changes : Subscription F → Event F → Event F → List Trigger
  changes s old current =
      when
        (s.notify_on_threshold_crossing
          && crosses s.minimum_magnitude old.magnitude current.magnitude)
        magnitude_threshold_crossed
      ++ when (s.notify_on_tsunami_change && holds current.tsunami && not (holds old.tsunami))
          tsunami_activated
      ++ when
          (s.notify_on_alert_increase
            && ltb (alert_severity old.alert_level) (alert_severity current.alert_level))
          alert_level_increased

  unfoldable pub triggers :
      Subscription F → Option (Event F) → Event F → String → Time → Bool → List Trigger
  triggers s old current mode now baseline_complete =
      if not (s.status == "active") || not (matches s current) then [] else elim old [
        | none ↦ when (is_news s current mode now baseline_complete) new_event
        | some o ↦ changes s o current
      ]

  -- p == nil || *p < boundary
  abbrev pub short_of : Option F → F → Bool
  short_of none boundary = true
  short_of (some value) boundary = lt value boundary

  unfoldable pub intensity_triggers :
      Subscription F
      → Option (Event F)
      → Event F
      → Option F
      → F
      → String
      → Time
      → Bool
      → List Trigger
  intensity_triggers s old current old_upper_mmi current_upper_mmi mode now baseline_complete =
      elim s.minimum_intensity [
        | none ↦ []
        | some threshold ↦
            let boundary = intensity_decision_boundary threshold in
            if not (s.status == "active")
              || lt current_upper_mmi boundary
              || not (matches_non_magnitude s current)
            then []
            else elim old [
              | none ↦ when (is_news s current mode now baseline_complete) new_event
              | some o ↦
                  when (s.notify_on_threshold_crossing && short_of old_upper_mmi boundary)
                    intensity_threshold_crossed
            ]
      ]
