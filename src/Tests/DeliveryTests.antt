-- ===== src/Tests/DeliveryTests.antt =====
-- Alerts and deliveries.
use shaker.Prelude.{
  ℕ, ◌≡◌, refl, ◌≤◌, ◌<◌, ◌⊎◌, ◌*◌, ◌/◌, true, false, none, some, List, [], ◌∷◌, length, pos, arith,
  Option, get_elem?,
}
use shaker.Go.Float.{Milli, milli}
use shaker.Go.Time.{second, hour}
use shaker.Notification.Alert.{TelegramAlertMessage, new_row, refresh, claim_row, is_claimable}
use shaker.Notification.Alert.Rows.{
  IsConsistent, IsForward, Steps, done, step, claimed, refreshed, Steps-IsConsistent,
  refresh-is_claimable,
}
use shaker.Notification.Alert.Table.{has_id, claim_telegram_alert_messages}
use shaker.Notification.Alert.Table.Claims.{IsDue, IsClaimed, claim_telegram_alert_messages_lem}
use shaker.Notification.Delivery.{Delivery, pending, retry, dead}
use shaker.Notification.Worker.{
  TelegramSender, FormattedTelegramMessage, SendError, deliver_telegram_alert, report_row,
  retry_delay, backoff,
}
use shaker.Notification.Worker.Backoff.{retry_delay_bounds}
use shaker.Notification.Worker.Outcomes.{
  report_row-IsConsistent, after_failures, after_failures_lem,
}
use shaker.Tests.Samples.{at_second}

-- A row of version 2 that has just been inserted.
abbrev alert : TelegramAlertMessage
alert = new_row 1 (pos 77) 5 9 (pos 2) "confirmed" [] (at_second 10)

alert-IsConsistent : IsConsistent alert
alert-IsConsistent = ground arith

-- A worker claims the row, and a new version arrives.
abbrev changed : TelegramAlertMessage
changed = refresh (pos 3) "reviewed" [] (at_second 12) (claim_row "w1" (at_second 11) alert)

history : Steps alert changed
history =
    step (claimed "w1" (at_second 11)) (step (refreshed (pos 3) "reviewed" [] (at_second 12)) done)

Steps-IsConsistent_example : IsConsistent changed × IsForward alert changed
Steps-IsConsistent_example = Steps-IsConsistent history alert-IsConsistent

refresh-is_claimable_example :
    (is_claimable (at_second 12) (pos (300 * second)) changed ≡ true)
    × (changed.telegram_message_id ≡ none)
unfolding claim_row
refresh-is_claimable_example =
    refresh-is_claimable (claim_row "w1" (at_second 11) alert) (pos 3) "reviewed" [] (at_second 12)
      (pos (300 * second)) refl refl (omega arith)

abbrev subject : ℕ
subject = 5

abbrev incident : ℕ
incident = 9

abbrev claimed_alerts : List TelegramAlertMessage × List TelegramAlertMessage
claimed_alerts =
    claim_telegram_alert_messages (λ _. "user") (λ _. false) "w1" 10 (pos (300 * second))
      (at_second 12) (alert ∷ [])

claim_telegram_alert_messages_lem_example :
    (length claimed_alerts.0 ≤ 10)
    × ((get_elem? claimed_alerts.1 0 ≡ some alert)
        ⊎ ((after : TelegramAlertMessage) × (get_elem? claimed_alerts.1 0 ≡ some after)
            × IsClaimed "w1" (at_second 12) alert after
            × IsDue (at_second 12) (pos (300 * second)) alert
            × (false ≡ false)
            × (has_id claimed_alerts.0 1 ≡ true)))
claim_telegram_alert_messages_lem_example =
    claim_telegram_alert_messages_lem (λ _. "user") (λ _. false) "w1" 10 (pos (300 * second))
      (at_second 12) (alert ∷ []) 0 alert refl (λ _. refl, tt)

retry_delay_bounds_example :
    (backoff 3 / 2 ≤ retry_delay 3 7)
    × (retry_delay 3 7 ≤ backoff 3)
    × (5 * second ≤ 2 * (retry_delay 3 7))
    × (retry_delay 3 7 < hour)
unfolding backoff
retry_delay_bounds_example = retry_delay_bounds 3 7 (omega arith)

abbrev formatted : List ℕ → Option (FormattedTelegramMessage Milli)
formatted _ =
    some (record { text = "m5"; latitude = none; longitude = none; location_button = "map" })

abbrev telegram : TelegramSender Milli
telegram = record {
  send_alert_message = λ _ _. (pos 501, none);
  edit_alert_message = λ _ _ _. none;
}

report_row-IsConsistent_example :
    IsConsistent (
      report_row
        (λ t. t)
        (at_second 13)
        (deliver_telegram_alert formatted telegram 10 0 (at_second 11) alert)
        changed)
    × IsForward alert (
        report_row
          (λ t. t)
          (at_second 13)
          (deliver_telegram_alert formatted telegram 10 0 (at_second 11) alert)
          changed)
report_row-IsConsistent_example =
    report_row-IsConsistent formatted telegram 10 0 (at_second 11) (λ t. t) (at_second 13) alert
      changed alert-IsConsistent history

abbrev sent_alert : TelegramAlertMessage
sent_alert = record alert { telegram_message_id = some (pos 501) }

abbrev delivery : Delivery
delivery = record {
  id = 3;
  subscription_id = 5;
  earthquake_id = 9;
  earthquake_version = pos 2;
  trigger_type = "new_event";
  status = pending;
  attempt_count = 0;
  next_attempt_at = at_second 10;
  payload = [];
  locked_at = none;
  locked_by = none;
  sent_at = none;
  response_status = none;
  last_error = none;
  updated_at = at_second 10;
}

abbrev deliveries : List Delivery
deliveries = record delivery { status = dead } ∷ delivery ∷ []

abbrev other_delivery : ℕ
other_delivery = 3

abbrev refused : ℕ → SendError
refused _ = record { text = "webhook returned HTTP 500"; retry_after = pos 0 }

after_failures_lem_example :
    ((after_failures (λ t. t) 3 (at_second 10) refused 3 delivery).attempt_count ≡ 3)
    × (((3 < 3) × ((after_failures (λ t. t) 3 (at_second 10) refused 3 delivery).status ≡ retry))
        ⊎ ((3 ≤ 3) × ((after_failures (λ t. t) 3 (at_second 10) refused 3 delivery).status ≡ dead)))
after_failures_lem_example = after_failures_lem (λ t. t) 3 (at_second 10) refused 2 delivery refl
