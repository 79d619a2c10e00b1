-- ===== src/Repository/Deliveries.antt =====
-- internal/repository/postgres/repository.go: createDeliveries, the notifications of a change.
pub mod Added
pub mod Counts
use shaker.Prelude.{
  suc, ◌+◌, Bool, String, Option, none, some, List, [], ◌∷◌, length, if◌then◌else◌,
}
use shaker.Go.Float.{Float, Math, lit}
use shaker.Go.Time.{Time}
use shaker.Go.Text.{◌==◌}
use shaker.Earthquake.Event.{Event}
use shaker.Notification.Subscription.{
  Subscription, Trigger, triggers, intensity_triggers, intensity_decision_boundary,
}
use shaker.Notification.Alert.{TelegramAlertMessage}
use shaker.Notification.Alert.Table.{upsert_telegram_alert_message}
use shaker.Shaking.{Logs, Estimate, estimate_at, candidate_radius_km, surface_distance_km}
use shaker.Repository.Tables.{Tables, AppliedChange, Services}
use shaker.Repository.Notices.{
  Counters, Audit, Notices, Outside, notification_payload, lifecycle_text, provider_source_links,
  insert_intensity_evaluation,
}
use shaker.Repository.Selection.{
  trigger_text, new_delivery, insert_delivery, area_of, distance_km, select_subscriptions,
  by_intensity,
}

abbrev pub decided : List Trigger → String
decided [] = "below_threshold"
decided (_ ∷ _) = "notify"

unfoldable pub count_decision : List Trigger → Counters → Counters
count_decision [] c = record c { below_threshold = suc c.below_threshold }
count_decision (_ ∷ _) c = record c { notify = suc c.notify }

abbrev pub add_triggers : List Trigger → Counters → Counters
add_triggers raised c = record c { triggers = c.triggers + length raised }

abbrev pub with_counters :
    {F : Type 0} → Counters → Option (Notices F) → Option (Counters × Notices F)
with_counters c none = none
with_counters c (some notices) = some (c, notices)

-- the alert rows that an upsert leaves, or its error
abbrev pub with_alerts :
    {F : Type 0} → Notices F → Option (List TelegramAlertMessage) → Option (Notices F)
with_alerts notices none = none
with_alerts notices (some alerts) = some (record notices { alerts = alerts })

abbrev pub no_counts : Counters
no_counts = record {
  intensity_candidates = 0;
  intensity_evaluations = 0;
  notify = 0;
  below_threshold = 0;
  estimate_errors = 0;
  triggers = 0;
}

module _ {F : Type 0} ⦃f : Float F⦄ where
  module _ ⦃m : Math F⦄ ⦃l : Logs F⦄ (outside : Outside F) (change : AppliedChange F)
      (mode : String) (baseline : Bool) (now : Time) (links : List (String × String)) where
    -- one round of the loop over the triggers of a subscription; `none` is an error
    unfoldable pub notify :
        Subscription F → Event F → Option (Estimate F) → Trigger → Notices F → Option (Notices F)
    unfolding notification_payload lifecycle_text trigger_text insert_delivery new_delivery
    notify s current estimate trigger notices =
        let id = outside.uuid_new s.id (trigger_text trigger) in
        let payload =
          notification_payload outside id (trigger_text trigger) current links
            s.notification_language estimate now in
        if s.channel == "telegram"
        then with_alerts notices (
            upsert_telegram_alert_message notices.subscriptions (outside.draw_alert notices.alerts)
              s.id current.id current.version (lifecycle_text current.lifecycle) payload now
              notices.alerts)
        else some (record notices {
          deliveries =
              insert_delivery
                (new_delivery id s.id current.id current.version (trigger_text trigger) payload now)
                notices.deliveries;
        })

    unfoldable pub notify_all :
        Subscription F
        → Event F
        → Option (Estimate F)
        → List Trigger
        → Notices F
        → Option (Notices F)
    unfolding notify
    notify_all s current estimate [] notices = some notices
    notify_all s current estimate (trigger ∷ rest) notices =
        elim (notify s current estimate trigger notices) [
          | none ↦ none
          | some later ↦ notify_all s current estimate rest later
        ]

    -- the upper bound that the previous version had at the centre of the subscription
    unfoldable pub old_upper : Option (Event F) → Option (F × F) → Option F
    unfolding surface_distance_km estimate_at
    old_upper (some previous) (some area) =
        elim (estimate_at outside.trim previous.magnitude previous.depth_km
          (surface_distance_km area.0 area.1 previous.latitude previous.longitude)
          previous.magnitude_type) [ none ↦ none | some e ↦ some e.upper_mmi ]
    old_upper _ _ = none

    -- one round of the loop over the subscriptions
    unfoldable pub match_subscription :
        Subscription F → Counters × Notices F → Option (Counters × Notices F)
    unfolding notify_all old_upper count_decision distance_km triggers intensity_triggers
        insert_intensity_evaluation estimate_at
    match_subscription s (c, notices) =
        let distance = distance_km outside change.current (area_of s) in
        let current = record change.current { distance_km = distance } in
        elim (by_intensity s distance) [
          | none ↦
              let raised = triggers s change.previous change.current mode now baseline in
              with_counters (add_triggers raised c) (notify_all s current none raised notices)
          | some place ↦
              let counted = record c { intensity_candidates = suc c.intensity_candidates } in
              elim (estimate_at outside.trim current.magnitude current.depth_km place.1
                current.magnitude_type) [
                  | none ↦
                      some (record counted { estimate_errors = suc c.estimate_errors }, notices)
                  | some e ↦
                      let evaluated = record counted {
                        intensity_evaluations = suc c.intensity_evaluations;
                      } in
                      let raised =
                        intensity_triggers s change.previous current
                          (old_upper change.previous (area_of s)) e.upper_mmi mode now baseline in
                      let noted = record notices {
                        evaluations =
                            insert_intensity_evaluation s.id current place.0 e (decided raised) now
                              notices.evaluations;
                      } in
                      with_counters (add_triggers raised (count_decision raised evaluated))
                        (notify_all s current (some e) raised noted)
                ]
        ]

    unfoldable pub match_all :
        List (Subscription F) → Counters × Notices F → Option (Counters × Notices F)
    unfolding match_subscription
    match_all [] state = some state
    match_all (s ∷ ss) state = elim (match_subscription s state) [
      | none ↦ none
      | some later ↦ match_all ss later
    ]

  -- createDeliveries; `none` is an error
  unfoldable pub create_deliveries :
      ⦃m : Math F⦄ ⦃l : Logs F⦄
      → Services F
      → Outside F
      → AppliedChange F
      → String
      → Bool
      → Time
      → Tables F
      → Notices F
      → Option (Notices F)
  unfolding candidate_radius_km intensity_decision_boundary select_subscriptions match_all
      provider_source_links
  create_deliveries services outside change mode baseline now db notices =
      let minimum = intensity_decision_boundary (lit 2) in
      let radius = candidate_radius_km change.current.magnitude change.current.depth_km minimum in
      let selected = select_subscriptions services change.current radius notices.subscriptions in
      let links = provider_source_links change.current.id db in
      elim (match_all outside change mode baseline now links selected (no_counts, notices)) [
        | none ↦ none
        | some state ↦
            let audit : Audit F = record {
              earthquake_id = change.current.id;
              earthquake_version = change.current.version;
              mode = mode;
              baseline_complete = baseline;
              candidate_minimum_mmi = minimum;
              candidate_radius_km = radius;
              selected = length selected;
              counters = state.0;
              created_at = now;
            } in
            some (record state.1 { audits = audit ∷ state.1.audits })
      ]
