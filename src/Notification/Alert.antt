-- ===== src/Notification/Alert.antt =====
-- internal/repository/postgres/telegram_alert.go: the table of Telegram alert messages, one row for
-- each subscription and incident, and the statements on it.
pub mod Rows
pub mod Table
use shaker.Prelude.{
  ℕ, Bool, true, false, not, ◌&&◌, ◌||◌, String, Option, none, some, List, ℤ, pos, ltb_ℤ, leb_ℤ,
  if◌then◌else◌, ◌-ℤ◌,
}
use shaker.Go.Time.{Time, Duration}
use shaker.Earthquake.Event.{Uuid}

pub data Status : Type 0 where
  pending_send pending_edit retry processing active dead : Status

-- A row of telegram_alert_messages: TelegramAlertMessage and the columns of the lock.
pub record TelegramAlertMessage : Type 0 where
  pub id : Uuid
  pub subscription_id : Uuid
  pub earthquake_id : Uuid
  pub telegram_chat_id : ℤ
  pub telegram_message_id : Option ℤ
  pub desired_earthquake_version : ℤ
  pub delivered_earthquake_version : Option ℤ
  pub desired_payload : List ℕ
  pub lifecycle : String
  pub status : Status
  pub attempt_count : ℕ
  pub next_attempt_at : Time
  pub locked_at : Option Time
  pub locked_by : Option String
  pub last_error : Option String
  pub updated_at : Time

abbrev pub is_none {ℓ} : {A : Type ℓ} → Option A → Bool
is_none none = true
is_none (some _) = false

-- GREATEST, LEAST
abbrev pub greatest : ℤ → ℤ → ℤ
greatest a b = if ltb_ℤ a b then b else a

abbrev pub least : ℤ → ℤ → ℤ
least a b = if ltb_ℤ b a then b else a

abbrev pub coalesce : Option ℤ → ℤ → ℤ
coalesce none d = d
coalesce (some a) d = a

-- The row of the INSERT.
abbrev pub new_row : Uuid → ℤ → Uuid → Uuid → ℤ → String → List ℕ → Time → TelegramAlertMessage
new_row id chat_id subscription_id earthquake_id version lifecycle payload now = record {
  id = id;
  subscription_id = subscription_id;
  earthquake_id = earthquake_id;
  telegram_chat_id = chat_id;
  telegram_message_id = none;
  desired_earthquake_version = version;
  delivered_earthquake_version = none;
  desired_payload = payload;
  lifecycle = lifecycle;
  status = pending_send;
  attempt_count = 0;
  next_attempt_at = now;
  locked_at = none;
  locked_by = none;
  last_error = none;
  updated_at = now;
}

-- ON CONFLICT DO UPDATE, on the row in conflict
unfoldable pub refresh : ℤ → String → List ℕ → Time → TelegramAlertMessage → TelegramAlertMessage
refresh version lifecycle payload now row =
    let newer = ltb_ℤ row.desired_earthquake_version version in
    record row {
      desired_earthquake_version = greatest row.desired_earthquake_version version;
      desired_payload = if newer then payload else row.desired_payload;
      lifecycle = if newer then lifecycle else row.lifecycle;
      status =
          if not newer
          then row.status
          else if is_none row.telegram_message_id
          then pending_send
          else pending_edit;
      next_attempt_at = if newer then least row.next_attempt_at now else row.next_attempt_at;
      updated_at = now;
    }

abbrev pub waits : Status → Bool
waits pending_send = true
waits pending_edit = true
waits retry = true
waits _ = false

abbrev pub is_processing : Status → Bool
is_processing processing = true
is_processing _ = false

-- a.locked_at < $1-$2, which is not true of NULL
abbrev pub lock_expired : Option Time → Time → Duration → Bool
lock_expired none now lock_timeout = false
lock_expired (some at) now lock_timeout = ltb_ℤ at (now -ℤ lock_timeout)

-- The WHERE of the candidates.
unfoldable pub is_claimable : Time → Duration → TelegramAlertMessage → Bool
is_claimable now lock_timeout row =
    waits row.status && leb_ℤ row.next_attempt_at now
    || is_processing row.status && lock_expired row.locked_at now lock_timeout

-- SET status='processing', locked_at, locked_by, updated_at
unfoldable pub claim_row : String → Time → TelegramAlertMessage → TelegramAlertMessage
claim_row worker now row = record row {
  status = processing;
  locked_at = some now;
  locked_by = some worker;
  updated_at = now;
}

-- The UPDATE of CompleteTelegramAlertMessage on one row.
unfoldable pub complete_row : ℤ → ℤ → ℕ → Time → TelegramAlertMessage → TelegramAlertMessage
complete_row delivered_version telegram_message_id attempt now row = record row {
  telegram_message_id =
      if is_none row.telegram_message_id then some telegram_message_id else row.telegram_message_id;
  delivered_earthquake_version =
      some (greatest (coalesce row.delivered_earthquake_version (pos 0)) delivered_version);
  status = if ltb_ℤ delivered_version row.desired_earthquake_version then pending_edit else active;
  attempt_count = attempt;
  next_attempt_at = now;
  locked_at = none;
  locked_by = none;
  last_error = none;
  updated_at = now;
}

-- The UPDATE of FailTelegramAlertMessage on one row; `cut` is last_error[:1000].
unfoldable pub fail_row :
    (String → String)
    → ℕ
    → Time
    → Bool
    → String
    → Time
    → TelegramAlertMessage
    → TelegramAlertMessage
fail_row cut attempt next is_dead last_error now row = record row {
  status = if is_dead then dead else retry;
  attempt_count = attempt;
  next_attempt_at = next;
  locked_at = none;
  locked_by = none;
  last_error = some (cut last_error);
  updated_at = now;
}
