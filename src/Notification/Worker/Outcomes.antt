-- ===== src/Notification/Worker/Outcomes.antt =====
-- internal/notification/worker.go: what becomes of an alert and of a delivery.
use shaker.Prelude.{
  ℕ, zero, suc, ◌+◌, ◌≤◌, ◌<◌, ◌≡◌, ◌≢◌, refl, ◌↔◌, ◌⊎◌, inl, inr, true, String, Option, none, some,
  List, ℤ, pos, ◌≤ℤ◌, ◌<ℤ◌, arith, ltb_ℤ, Bool-cases,
}
use shaker.Go.Time.{Time, time_add}
use shaker.Notification.Alert.{TelegramAlertMessage}
use shaker.Notification.Alert.Rows.{
  IsConsistent, IsForward, Step, Steps, step, done, completed, failed, Steps-IsConsistent,
  IsForward-trans,
}
use shaker.Notification.Delivery.{Delivery, retry, dead, complete_row}
use shaker.Notification.Worker.{
  FormattedTelegramMessage, TelegramSender, SendError, Report, complete, fail, attempt_alert,
  report_of, deliver_telegram_alert, report_row, retry_delay, deliver, deliver_row,
}

-- A report is of the attempt after those of the alert: its completion carries the version desired
-- at the claim, and its failure is final exactly when the attempts are used up, and is tried again
-- after the time that Telegram asks for or after the delay of the attempt.
abbrev pub IsReport : ℕ → ℕ → Time → TelegramAlertMessage → Report → Type 0
IsReport max_attempts jitter now alert (complete version message attempt) =
    (version ≡ alert.desired_earthquake_version) × (attempt ≡ suc alert.attempt_count)
IsReport max_attempts jitter now alert (fail attempt next is_dead error) =
    (attempt ≡ suc alert.attempt_count)
    × ((is_dead ≡ true) ↔ (max_attempts ≤ attempt))
    × (((asked : ℤ) × (pos 0 <ℤ asked) × (next ≡ time_add now asked))
        ⊎ (next ≡ time_add now (pos (retry_delay attempt jitter))))

report_of-IsReport :
    (max_attempts jitter : ℕ) (now : Time) (alert : TelegramAlertMessage) (r : ℤ × Option SendError)
    → IsReport max_attempts jitter now alert (report_of max_attempts jitter now alert r)
unfolding report_of
report_of-IsReport max_attempts jitter now alert (message, none) = (refl, refl)
report_of-IsReport max_attempts jitter now alert (message, some e) = (
  refl,
  ground arith,
  elim (Bool-cases (ltb_ℤ (pos 0) e.retry_after)) [
    | inl asked ↦ rw asked (inl (e.retry_after, ground arith, refl))
    | inr silent ↦ rw silent (inr refl)
  ],
)

module _ {F : Type 0} (telegram_message : List ℕ → Option (FormattedTelegramMessage F))
    (telegram : TelegramSender F) (max_attempts jitter : ℕ) (now : Time) where
  -- Every report is one: completed with the version that was claimed, or failed as above.
  deliver-IsReport :
      (alert : TelegramAlertMessage)
      → IsReport max_attempts jitter now alert
          (deliver_telegram_alert telegram_message telegram max_attempts jitter now alert)
  unfolding deliver_telegram_alert
  deliver-IsReport alert =
      report_of-IsReport max_attempts jitter now alert
        (attempt_alert telegram_message telegram alert)

  report-Step :
      (cut : String → String) (later : Time) (alert row : TelegramAlertMessage)
      → IsConsistent alert
      → (r : Report) → IsReport max_attempts jitter now alert r
      → alert.desired_earthquake_version ≤ℤ row.desired_earthquake_version
      → Step row (report_row cut later r row)
  unfolding report_row
  report-Step cut later alert row h (complete version message attempt) e le =
      completed version message attempt later (rw e.0 h.positive) (rw e.0 le)
  report-Step cut later alert row h (fail attempt next is_dead error) e le =
      failed cut attempt next is_dead error later

  -- While a worker delivers a consistent alert that it has claimed, any statements may change the
  -- row: its report then still keeps the row consistent, with its key, with the message of the chat
  -- once it has one, and with versions that only grow.
  pub report_row-IsConsistent :
      (cut : String → String) (later : Time) (alert row : TelegramAlertMessage)
      → IsConsistent alert
      → Steps alert row
      → IsConsistent (
          report_row cut later
            (deliver_telegram_alert telegram_message telegram max_attempts jitter now alert)
            row)
        × IsForward alert (
            report_row cut later
              (deliver_telegram_alert telegram_message telegram max_attempts jitter now alert)
              row)
  report_row-IsConsistent cut later alert row h steps =
      let (now_h, forward) = Steps-IsConsistent steps h in
      let (after_h, rest) =
        Steps-IsConsistent
          (step (report-Step cut later alert row h _ (deliver-IsReport alert) forward.desired_grows)
            done)
          now_h in
      (after_h, IsForward-trans forward rest)

  -- An alert that has its message is only edited: no sending function matters to it.
  pub deliver_telegram_alert-edit :
      (send : ℤ → FormattedTelegramMessage F → ℤ × Option SendError) (alert : TelegramAlertMessage)
      → alert.telegram_message_id ≢ none
      → deliver_telegram_alert telegram_message
          (record telegram { send_alert_message = send })
          max_attempts
          jitter
          now
          alert
        ≡ deliver_telegram_alert telegram_message telegram max_attempts jitter now alert
  unfolding deliver_telegram_alert attempt_alert
  deliver_telegram_alert-edit send alert has = ground arith

-- A delivery after a number of attempts that all failed.
unfoldable pub after_failures :
    (String → String) → ℕ → Time → (ℕ → SendError) → ℕ → Delivery → Delivery
unfolding deliver_row
after_failures cut max_attempts now error zero d = d
after_failures cut max_attempts now error (suc n) d =
    deliver_row cut max_attempts 0 now now none (some (error n))
      (after_failures cut max_attempts now error n d)

after_failures-attempt_count :
    (cut : String → String) (max_attempts : ℕ) (now : Time) (error : ℕ → SendError) (n : ℕ)
    (d : Delivery)
    → (after_failures cut max_attempts now error n d).attempt_count ≡ n + d.attempt_count
unfolding after_failures deliver_row deliver complete_row
after_failures-attempt_count cut max_attempts now error zero d = omega arith
after_failures-attempt_count cut max_attempts now error (suc n) d =
    ground (arith, after_failures-attempt_count cut max_attempts now error n d)

-- A delivery without attempts that fails every time is retried until its attempts are used up, and
-- is dead then; no attempt is left out of the count.
pub after_failures_lem :
    (cut : String → String) (max_attempts : ℕ) (now : Time) (error : ℕ → SendError) (n : ℕ)
    (d : Delivery)
    → d.attempt_count ≡ 0
    → ((after_failures cut max_attempts now error (suc n) d).attempt_count ≡ suc n)
      × (((suc n < max_attempts)
            × ((after_failures cut max_attempts now error (suc n) d).status ≡ retry))
          ⊎ ((max_attempts ≤ suc n)
              × ((after_failures cut max_attempts now error (suc n) d).status ≡ dead)))
unfolding after_failures deliver_row deliver complete_row
after_failures_lem cut max_attempts now error n d z =
    ground (arith, after_failures-attempt_count cut max_attempts now error n d)
