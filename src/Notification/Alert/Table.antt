-- ===== src/Notification/Alert/Table.antt =====
-- internal/repository/postgres/telegram_alert.go: the statements on the table of alert messages. A
-- table is the list of its rows.
pub mod Laws
pub mod Claims
use shaker.Prelude.{
  ℕ, Bool, true, false, not, ◌&&◌, ◌||◌, String, Option, none, some, List, [], ◌∷◌, ℤ, ltb, ltb_ℤ,
  take, map, if◌then◌else◌, ◌==◌ as nat_eq, eqb_ℤ,
}
use shaker.Go.Time.{Time, Duration}
use shaker.Go.Sql.{order_by, filter, update_where, any_where}
use shaker.Go.Text.{◌==◌}
use shaker.Earthquake.Event.{Uuid}
use shaker.Notification.Subscription.{Subscription}
use shaker.Notification.Alert.{
  TelegramAlertMessage, new_row, refresh, is_none, is_claimable, claim_row, complete_row, fail_row,
}

abbrev pub same_key : Uuid → Uuid → TelegramAlertMessage → Bool
same_key subscription_id earthquake_id row =
    nat_eq row.subscription_id subscription_id && nat_eq row.earthquake_id earthquake_id

-- INSERT ... ON CONFLICT(subscription_id,earthquake_id) of one row
unfoldable pub insert_or_refresh :
    Uuid
    → ℤ
    → Uuid
    → Uuid
    → ℤ
    → String
    → List ℕ
    → Time
    → List TelegramAlertMessage
    → List TelegramAlertMessage
insert_or_refresh id chat_id subscription_id earthquake_id version lifecycle payload now [] =
    new_row id chat_id subscription_id earthquake_id version lifecycle payload now ∷ []
insert_or_refresh id chat_id subscription_id earthquake_id version lifecycle payload now
      (row ∷ rows) =
    let rest =
      insert_or_refresh id chat_id subscription_id earthquake_id version lifecycle payload now
        rows in
    if same_key subscription_id earthquake_id row
    then refresh version lifecycle payload now row ∷ rows
    else row ∷ rest

-- The SELECT on notification_subscriptions: the chat of a Telegram subscription.
unfoldable pub telegram_chat : {F : Type 0} → List (Subscription F) → Uuid → Option ℤ
telegram_chat [] id = none
telegram_chat (s ∷ ss) id =
    let rest = telegram_chat ss id in
    if nat_eq s.id id && s.channel == "telegram" && not (is_none s.telegram_chat_id)
    then s.telegram_chat_id
    else rest

-- upsertTelegramAlertMessage; `none` is ErrNotFound, and `id` is what gen_random_uuid gives
unfoldable pub upsert_telegram_alert_message :
    {F : Type 0}
    → List (Subscription F)
    → Uuid
    → Uuid
    → Uuid
    → ℤ
    → String
    → List ℕ
    → Time
    → List TelegramAlertMessage
    → Option (List TelegramAlertMessage)
upsert_telegram_alert_message subscriptions id subscription_id earthquake_id version lifecycle
      payload now rows =
    elim (telegram_chat subscriptions subscription_id) [
      | none ↦ none
      | some chat_id ↦ some (
          insert_or_refresh id chat_id subscription_id earthquake_id version lifecycle payload now
            rows)
    ]

-- ORDER BY CASE WHEN s.subscription_kind='user' THEN 0 ELSE 1 END,a.next_attempt_at,a.id
abbrev pub claimed_before : (Uuid → String) → TelegramAlertMessage → TelegramAlertMessage → Bool
claimed_before kind_of a b =
    let user_a = kind_of a.subscription_id == "user" in
    let user_b = kind_of b.subscription_id == "user" in
    if user_a && not user_b
    then true
    else if user_b && not user_a
    then false
    else if eqb_ℤ a.next_attempt_at b.next_attempt_at
    then ltb a.id b.id
    else ltb_ℤ a.next_attempt_at b.next_attempt_at

-- The candidates: `skipped` are the rows that another transaction has locked (SKIP LOCKED).
unfoldable pub alert_candidates :
    (Uuid → String)
    → (Uuid → Bool)
    → ℕ
    → Duration
    → Time
    → List TelegramAlertMessage
    → List TelegramAlertMessage
unfolding order_by filter is_claimable
alert_candidates kind_of skipped batch lock_timeout now rows = take batch (
    order_by (claimed_before kind_of)
      (filter (λ row. is_claimable now lock_timeout row && not (skipped row.id)) rows))

unfoldable pub has_id : List TelegramAlertMessage → Uuid → Bool
has_id [] id = false
has_id (row ∷ rows) id = nat_eq row.id id || has_id rows id

-- ClaimTelegramAlertMessages: the rows returned, and the table
unfoldable pub claim_telegram_alert_messages :
    (Uuid → String)
    → (Uuid → Bool)
    → String
    → ℕ
    → Duration
    → Time
    → List TelegramAlertMessage
    → List TelegramAlertMessage × List TelegramAlertMessage
unfolding alert_candidates has_id update_where claim_row
claim_telegram_alert_messages kind_of skipped worker batch lock_timeout now rows =
    let candidates = alert_candidates kind_of skipped batch lock_timeout now rows in
    (
      map (claim_row worker now) candidates,
      update_where (λ row. has_id candidates row.id) (claim_row worker now) rows,
    )

-- CompleteTelegramAlertMessage; `none` is ErrNotFound
unfoldable pub complete_telegram_alert_message :
    Uuid → ℤ → ℤ → ℕ → Time → List TelegramAlertMessage → Option (List TelegramAlertMessage)
unfolding any_where update_where complete_row
complete_telegram_alert_message id delivered_version telegram_message_id attempt now rows =
    if any_where (λ row. nat_eq row.id id) rows
    then some (
        update_where (λ row. nat_eq row.id id)
          (complete_row delivered_version telegram_message_id attempt now) rows)
    else none

-- FailTelegramAlertMessage; `none` is ErrNotFound
unfoldable pub fail_telegram_alert_message :
    (String → String)
    → Uuid
    → ℕ
    → Time
    → Bool
    → String
    → Time
    → List TelegramAlertMessage
    → Option (List TelegramAlertMessage)
unfolding any_where update_where fail_row
fail_telegram_alert_message cut id attempt next is_dead last_error now rows =
    if any_where (λ row. nat_eq row.id id) rows
    then some (
        update_where (λ row. nat_eq row.id id) (fail_row cut attempt next is_dead last_error now)
          rows)
    else none
