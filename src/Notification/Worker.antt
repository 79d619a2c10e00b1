-- ===== src/Notification/Worker.antt =====
-- internal/notification/worker.go: the delivery of alerts and notifications.
pub mod Backoff
pub mod Outcomes
use shaker.Prelude.{
  ℕ, ◌+◌, ◌-◌, ◌*◌, ◌/◌, ◌^◌, min, suc, Bool, not, ◌||◌, String, Option, none, some, ℤ, pos, negsuc,
  ◌%◌, ltb, leb, List, ltb_ℤ, if◌then◌else◌,
}
use shaker.Go.Time.{Time, Duration, time_add, time_sub, second, hour, after}
use shaker.Go.Text.{◌==◌}
use shaker.Notification.Alert.{TelegramAlertMessage, complete_row, fail_row}
use shaker.Notification.Delivery.{Delivery, Status, retry, sent, dead}
use shaker.Notification.Delivery as Deliveries

-- The delay before jitter: 5s << min(attempt-1, 9), and an hour at most. The attempt is at least 1.
unfoldable pub backoff : ℕ → ℕ
backoff attempt = let d = 5 * second * 2 ^ min (attempt - 1) 9 in if ltb hour d then hour else d

-- retryDelay; `jitter` is what rand.Int64N(d/2+1) gives, a number up to d/2
unfoldable pub retry_delay : ℕ → ℕ → ℕ
retry_delay attempt jitter = backoff attempt / 2 + jitter

-- The value of an int64 product, which wraps around.
abbrev pub to_int64 : ℕ → ℤ
to_int64 n = let r = n % 2 ^ 64 in if ltb r (2 ^ 63) then pos r else negsuc (2 ^ 64 - 1 - r)

-- parseRetryAfter, on what strconv.Atoi and http.ParseTime give of the header
unfoldable pub parse_retry_after : Option ℤ → Option Time → Time → Duration
parse_retry_after (some (ℤ.pos count)) date now = to_int64 (count * second)
parse_retry_after _ none now = pos 0
parse_retry_after _ (some date) now = if after date now then time_sub date now else pos 0

-- The error of a send: its text, and the RetryAfter that it carries (zero when it has none).
pub record SendError : Type 0 where
  pub text : String
  pub retry_after : Duration

-- A text with its coordinates, as telegramMessage formats them.
pub record FormattedTelegramMessage (F : Type 0) : Type 0 where
  pub text : String
  pub latitude : Option F
  pub longitude : Option F
  pub location_button : String

-- Telegram, and the decoding and formatting of a payload: a send gives the message's number (zero for
-- none) and an error; the number is positive with an error when only the location failed.
pub record TelegramSender (F : Type 0) : Type 0 where
  pub send_alert_message : ℤ → FormattedTelegramMessage F → ℤ × Option SendError
  pub edit_alert_message : ℤ → ℤ → FormattedTelegramMessage F → Option SendError

-- What the worker then does to the row.
pub data Report : Type 0 where
  complete : ℤ → ℤ → ℕ → Report
  fail : ℕ → Time → Bool → String → Report

-- err = nil where a message has been sent
abbrev pub unless_sent : ℤ × Option SendError → ℤ × Option SendError
unless_sent (message, none) = (message, none)
unless_sent (message, some e) = if ltb_ℤ (pos 0) message then (message, none) else (message, some e)

-- What deliverTelegramAlert makes of the message's number and the error.
unfoldable pub report_of : ℕ → ℕ → Time → TelegramAlertMessage → ℤ × Option SendError → Report
unfolding retry_delay backoff
report_of max_attempts jitter now alert (message_id, none) =
    complete alert.desired_earthquake_version message_id (suc alert.attempt_count)
report_of max_attempts jitter now alert (message_id, some e) =
    let attempt = suc alert.attempt_count in
    let next =
      if ltb_ℤ (pos 0) e.retry_after
      then time_add now e.retry_after
      else time_add now (pos (retry_delay attempt jitter)) in
    fail attempt next (leb max_attempts attempt) e.text

module _ {F : Type 0} (telegram_message : List ℕ → Option (FormattedTelegramMessage F))
    (telegram : TelegramSender F) where
  -- The send or the edit of deliverTelegramAlert: the message's number and the error.
  unfoldable pub attempt_alert : TelegramAlertMessage → ℤ × Option SendError
  attempt_alert alert = elim (telegram_message alert.desired_payload) [
    | none ↦ (pos 0, some (record { text = "decode Telegram delivery"; retry_after = pos 0 }))
    | some message ↦ elim alert.telegram_message_id [
      | none ↦ unless_sent (telegram.send_alert_message alert.telegram_chat_id message)
      | some id ↦ (id, telegram.edit_alert_message alert.telegram_chat_id id message)
    ]
  ]

  -- deliverTelegramAlert up to the statement on the row; `now` is the clock's first reading
  unfoldable pub deliver_telegram_alert : ℕ → ℕ → Time → TelegramAlertMessage → Report
  unfolding report_of attempt_alert
  deliver_telegram_alert max_attempts jitter now alert =
      report_of max_attempts jitter now alert (attempt_alert alert)

-- The statement on the row; `later` is the clock's second reading and `cut` is last_error[:1000].
unfoldable pub report_row :
    (String → String) → Time → Report → TelegramAlertMessage → TelegramAlertMessage
unfolding complete_row fail_row
report_row cut later (complete version message attempt) row =
    complete_row version message attempt later row
report_row cut later (fail attempt next is_dead error) row =
    fail_row cut attempt next is_dead error later row

-- The branch of send on the Telegram channel: the error, with its RetryAfter, or none.
unfoldable pub send_telegram :
    {F : Type 0}
    → (List ℕ → Option (FormattedTelegramMessage F))
    → Option (TelegramSender F)
    → Option ℤ
    → List ℕ
    → Option SendError
send_telegram telegram_message none chat payload =
    some (record { text = "telegram delivery is not configured"; retry_after = pos 0 })
send_telegram telegram_message (some telegram) none payload =
    some (record { text = "telegram delivery is not configured"; retry_after = pos 0 })
send_telegram telegram_message (some telegram) (some chat) payload =
    elim (telegram_message payload) [
      | none ↦ some (record { text = "decode Telegram delivery"; retry_after = pos 0 })
      | some message ↦ (unless_sent (telegram.send_alert_message chat message)).1
    ]

-- The end of send on the webhook channel: a code outside 200..299 is an error, and its Retry-After
-- is read.
unfoldable pub webhook_result : ℤ → Duration → Option SendError
webhook_result code retry_after =
    if ltb_ℤ code (pos 200) || not (ltb_ℤ code (pos 300))
    then some (record { text = "webhook returned HTTP"; retry_after = retry_after })
    else none

-- The exchange with a webhook, from the decryption of the secret to the end of the response: an
-- error before there is a response, or the status code and the parsed Retry-After.
pub data Exchange : Type 0 where
  broken : String → Exchange
  responded : ℤ → Duration → Exchange

-- send: the status code and the error
unfoldable pub send :
    {F : Type 0}
    → (List ℕ → Option (FormattedTelegramMessage F))
    → Option (TelegramSender F)
    → Exchange
    → String
    → Option ℤ
    → List ℕ
    → Option ℤ × Option SendError
unfolding send_telegram webhook_result
send telegram_message telegram exchange channel chat payload =
    if channel == "telegram"
    then (none, send_telegram telegram_message telegram chat payload)
    else if not (channel == "webhook")
    then (none, some (record { text = "unsupported notification channel"; retry_after = pos 0 }))
    else elim exchange [
      | broken text ↦ (none, some (record { text = text; retry_after = pos 0 }))
      | responded code retry_after ↦ (some code, webhook_result code retry_after)
    ]

-- What deliver makes of the result of send: the status, the attempt, the next time and the error.
pub record Result : Type 0 where
  pub status : Status
  pub attempt : ℕ
  pub next : Time
  pub error_text : Option String

unfoldable pub deliver : (String → String) → ℕ → ℕ → Time → ℕ → Option SendError → Result
unfolding retry_delay backoff
deliver cut max_attempts jitter now attempt_count err =
    let attempt = suc attempt_count in
    elim err [
      | none ↦ record { status = sent; attempt = attempt; next = now; error_text = none }
      | some e ↦ record {
        status = if leb max_attempts attempt then dead else retry;
        attempt = attempt;
        next =
            if ltb_ℤ (pos 0) e.retry_after
            then time_add now e.retry_after
            else time_add now (pos (retry_delay attempt jitter));
        error_text = some (cut e.text);
      }
    ]

-- deliver, with its CompleteDelivery on the row
unfoldable pub deliver_row :
    (String → String) → ℕ → ℕ → Time → Time → Option ℤ → Option SendError → Delivery → Delivery
unfolding deliver Deliveries.complete_row
deliver_row cut max_attempts jitter now later code err d =
    let r = deliver cut max_attempts jitter now d.attempt_count err in
    Deliveries.complete_row r.status r.attempt r.next code r.error_text later d
