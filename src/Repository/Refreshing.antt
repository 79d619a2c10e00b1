-- ===== src/Repository/Refreshing.antt =====
-- internal/repository/postgres/repository.go: refreshTelegramAlertMessages, the alerts of a changed
-- incident.
use shaker.Prelude.{
  true, false, not, ◌&&◌, String, Option, none, some, List, [], ◌∷◌, ◌==◌ as nat_eq,
}
use shaker.Go.Float.{Float, Math}
use shaker.Go.Time.{Time}
use shaker.Go.Text.{◌==◌}
use shaker.Go.Sql.{find_where}
use shaker.Earthquake.Event.{Uuid, Event}
use shaker.Notification.Subscription.{Subscription}
use shaker.Notification.Alert.{TelegramAlertMessage}
use shaker.Notification.Alert.Table.{upsert_telegram_alert_message}
use shaker.Shaking.{Logs, Estimate, estimate_at}
use shaker.Repository.Tables.{Tables}
use shaker.Repository.Notices.{
  Notices, Outside, notification_payload, lifecycle_text, provider_source_links,
  insert_intensity_evaluation,
}
use shaker.Repository.Selection.{area_of, distance_km}
use shaker.Repository.Deliveries.{with_alerts}

module _ {F : Type 0} ⦃f : Float F⦄ where
  -- the subscription of an alert row that is not disabled
  unfoldable pub open_subscription : Uuid → List (Subscription F) → Option (Subscription F)
  unfolding find_where
  open_subscription id =
      find_where λ s. nat_eq (Subscription.id s) id && not (s.status == "disabled")

  -- the threshold of a subscription and its distance, where both are known
  abbrev pub with_intensity : Option F → Option F → Option (F × F)
  with_intensity (some threshold) (some km) = some (threshold, km)
  with_intensity _ _ = none

  module _ ⦃m : Math F⦄ ⦃l : Logs F⦄ (outside : Outside F) (current : Event F) (now : Time)
      (links : List (String × String)) where
    -- the estimate of an alert, and the evaluations with it
    unfoldable pub estimate_alert :
        Subscription F → Event F → Notices F → Option (Estimate F) × Notices F
    unfolding estimate_at insert_intensity_evaluation
    estimate_alert s event notices = elim (with_intensity s.minimum_intensity event.distance_km) [
      | none ↦ (none, notices)
      | some place ↦
          elim (estimate_at outside.trim event.magnitude event.depth_km place.1
            event.magnitude_type) [
              | none ↦ (none, notices)
              | some e ↦ (
                some e,
                record notices {
                  evaluations =
                      insert_intensity_evaluation s.id current place.0 e "refresh" now
                        notices.evaluations;
                },
              )
            ]
    ]

    -- one round of the loop over the alerts; `none` is an error
    unfoldable pub refresh_alert : Subscription F → Notices F → Option (Notices F)
    unfolding estimate_alert distance_km notification_payload lifecycle_text
    refresh_alert s notices =
        let event = record current { distance_km = distance_km outside current (area_of s) } in
        let estimated = estimate_alert s event notices in
        let id = outside.uuid_new s.id "earthquake_update" in
        let payload =
          notification_payload outside id "earthquake_update" event links s.notification_language
            estimated.0 now in
        with_alerts estimated.1 (
          upsert_telegram_alert_message notices.subscriptions (outside.draw_alert notices.alerts)
            s.id current.id current.version (lifecycle_text current.lifecycle) payload now
            notices.alerts)

    unfoldable pub refresh_alerts : List TelegramAlertMessage → Notices F → Option (Notices F)
    unfolding refresh_alert open_subscription
    refresh_alerts [] notices = some notices
    refresh_alerts (a ∷ rest) notices = elim (nat_eq a.earthquake_id current.id) [
      | false ↦ refresh_alerts rest notices
      | true ↦ elim (open_subscription a.subscription_id notices.subscriptions) [
        | none ↦ refresh_alerts rest notices
        | some s ↦ elim (refresh_alert s notices) [
          | none ↦ none
          | some later ↦ refresh_alerts rest later
        ]
      ]
    ]

  -- refreshTelegramAlertMessages; `none` is an error
  unfoldable pub refresh_telegram_alert_messages :
      ⦃m : Math F⦄ ⦃l : Logs F⦄
      → Outside F
      → Event F
      → Time
      → Tables F
      → Notices F
      → Option (Notices F)
  unfolding refresh_alerts provider_source_links
  refresh_telegram_alert_messages outside current now db notices =
      refresh_alerts outside current now (provider_source_links current.id db) notices.alerts
        notices
