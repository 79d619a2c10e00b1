-- ===== src/Notification/Alert/Rows.antt =====
-- internal/repository/postgres/telegram_alert.go: what the statements keep of one alert row.
use shaker.Prelude.{
  ℕ, ◌⊎◌, Bool, true, ◌≡◌, ◌≢◌, Option, none, some, List, String, ℤ, pos, ◌≤ℤ◌, ◌<ℤ◌, arith,
}
use shaker.Go.Time.{Time, Duration}
use shaker.Notification.Alert.{
  TelegramAlertMessage, Status, pending_send, pending_edit, processing, active, refresh, claim_row,
  complete_row, fail_row, is_claimable, coalesce, is_none,
}

-- The version delivered: none, or at most the one desired.
abbrev pub IsDelivered : Option ℤ → ℤ → Type 0
IsDelivered none desired = Unit
IsDelivered (some v) desired = v ≤ℤ desired

-- What the status tells of the other columns.
abbrev pub IsStatus : Status → Option ℤ → Option ℤ → ℤ → Type 0
IsStatus pending_send message delivered desired = message ≡ none
IsStatus pending_edit message delivered desired = message ≢ none
IsStatus active message delivered desired = (message ≢ none) × (delivered ≡ some desired)
IsStatus _ message delivered desired = Unit

-- A row that the statements keep up: versions are positive, nothing newer than the desired version
-- is delivered, a version is delivered once there is a message, and the status is true.
pub record IsConsistent (row : TelegramAlertMessage) : Type 0 where
  pub positive : pos 0 <ℤ row.desired_earthquake_version
  pub delivered : IsDelivered row.delivered_earthquake_version row.desired_earthquake_version
  pub sent : is_none row.telegram_message_id ≡ is_none row.delivered_earthquake_version
  pub status :
      IsStatus row.status row.telegram_message_id row.delivered_earthquake_version
        row.desired_earthquake_version

-- The statements on one row, as the worker and the planner issue them: a worker reports the version
-- that it claimed, which is positive and no later than the one desired now.
pub data Step : TelegramAlertMessage → TelegramAlertMessage → Type 0 where
  refreshed :
      {row : TelegramAlertMessage} (version : ℤ) (lifecycle : String) (payload : List ℕ)
      (now : Time)
      → Step row (refresh version lifecycle payload now row)
  claimed :
      {row : TelegramAlertMessage} (worker : String) (now : Time)
      → Step row (claim_row worker now row)
  completed :
      {row : TelegramAlertMessage} (version message : ℤ) (attempt : ℕ) (now : Time)
      → pos 0 <ℤ version
      → version ≤ℤ row.desired_earthquake_version
      → Step row (complete_row version message attempt now row)
  failed :
      {row : TelegramAlertMessage} (cut : String → String) (attempt : ℕ) (next : Time)
      (is_dead : Bool) (error : String) (now : Time)
      → Step row (fail_row cut attempt next is_dead error now row)

-- Any number of statements.
pub data Steps : TelegramAlertMessage → TelegramAlertMessage → Type 0 where
  done : {row : TelegramAlertMessage} → Steps row row
  step : {a b c : TelegramAlertMessage} → Step a b → Steps b c → Steps a c

Step-IsConsistent : {a b : TelegramAlertMessage} → Step a b → IsConsistent a → IsConsistent b
unfolding refresh claim_row complete_row fail_row
Step-IsConsistent {a = a} (refreshed version lifecycle payload now) h = ground arith
Step-IsConsistent {a = a} (claimed worker now) h = ground arith
Step-IsConsistent {a = a} (completed version message attempt now p le) h = ground arith
Step-IsConsistent {a = a} (failed cut attempt next is_dead error now) h = ground arith

-- What never goes back: the message of the chat stays the same, and versions only grow.
pub record IsForward (a b : TelegramAlertMessage) : Type 0 where
  pub same_key : (a.subscription_id ≡ b.subscription_id) × (a.earthquake_id ≡ b.earthquake_id)
  pub same_message :
      (a.telegram_message_id ≡ none) ⊎ (a.telegram_message_id ≡ b.telegram_message_id)
  pub desired_grows : a.desired_earthquake_version ≤ℤ b.desired_earthquake_version
  pub delivered_grows :
      coalesce a.delivered_earthquake_version (pos 0)
      ≤ℤ coalesce b.delivered_earthquake_version (pos 0)

Step-IsForward : {a b : TelegramAlertMessage} → Step a b → IsForward a b
unfolding refresh claim_row complete_row fail_row
Step-IsForward {a = a} (refreshed version lifecycle payload now) = ground arith
Step-IsForward {a = a} (claimed worker now) = ground arith
Step-IsForward {a = a} (completed version message attempt now p le) = ground arith
Step-IsForward {a = a} (failed cut attempt next is_dead error now) = ground arith

pub IsForward-trans : {a b c : TelegramAlertMessage} → IsForward a b → IsForward b c → IsForward a c
IsForward-trans {a = a} {b = b} {c = c} h k = ground arith

-- Any number of statements keeps a row consistent, with its key, with the Telegram message once it
-- has one, and with versions that only grow, where every completion reports a positive version that
-- is not above the one desired.
pub Steps-IsConsistent :
    {a b : TelegramAlertMessage} → Steps a b → IsConsistent a → IsConsistent b × IsForward a b
Steps-IsConsistent done h = (h, ground arith)
Steps-IsConsistent (step s t) h =
    let (consistent, forward) = Steps-IsConsistent t (Step-IsConsistent s h) in
    (consistent, IsForward-trans (Step-IsForward s) forward)

-- A newer version makes a row that is being sent for the first time claimable at once, still
-- without a message.
pub refresh-is_claimable :
    (row : TelegramAlertMessage) (version : ℤ) (lifecycle : String) (payload : List ℕ) (now : Time)
    (lock_timeout : Duration)
    → row.status ≡ processing
    → row.telegram_message_id ≡ none
    → row.desired_earthquake_version <ℤ version
    → (is_claimable now lock_timeout (refresh version lifecycle payload now row) ≡ true)
      × ((refresh version lifecycle payload now row).telegram_message_id ≡ none)
unfolding refresh is_claimable
refresh-is_claimable row version lifecycle payload now lock_timeout p n le = ground arith
