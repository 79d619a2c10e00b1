-- ===== src/Notification/Alert/Table/Laws.antt =====
-- internal/repository/postgres/telegram_alert.go: the table as a map from a subscription and an
-- incident to their one row.
use shaker.Prelude.{
  ℕ, false, ◌≡◌, ◌⊎◌, Option, none, some, List, [], ◌∷◌, String, ℤ, if◌then◌else◌, suc,
  ◌==◌ as nat_eq, ◌<ℤ◌, ◌≤ℤ◌,
}
use shaker.Go.Time.{Time}
use shaker.Earthquake.Event.{Uuid}
use shaker.Notification.Alert.{
  TelegramAlertMessage, pending_send, pending_edit, is_none, refresh, new_row,
}
use shaker.Notification.Alert.Table.{same_key, insert_or_refresh}

-- The row of a key.
unfoldable pub find_row : Uuid → Uuid → List TelegramAlertMessage → Option TelegramAlertMessage
find_row s e [] = none
find_row s e (row ∷ rows) =
    let rest = find_row s e rows in if same_key s e row then some row else rest

-- The number of rows of a key.
unfoldable pub rows_of : Uuid → Uuid → List TelegramAlertMessage → ℕ
rows_of s e [] = 0
rows_of s e (row ∷ rows) =
    let rest = rows_of s e rows in if same_key s e row then suc rest else rest

-- What the upsert leaves under its key.
abbrev pub refreshed_or_new :
    Option TelegramAlertMessage
    → Uuid
    → ℤ
    → Uuid
    → Uuid
    → ℤ
    → String
    → List ℕ
    → Time
    → TelegramAlertMessage
refreshed_or_new none id chat s e version lifecycle payload now =
    new_row id chat s e version lifecycle payload now
refreshed_or_new (some row) id chat s e version lifecycle payload now =
    refresh version lifecycle payload now row

-- What no upsert changes of a row.
abbrev pub IsKept : TelegramAlertMessage → TelegramAlertMessage → Type 0
IsKept row after =
    (after.id ≡ row.id)
    × (after.telegram_message_id ≡ row.telegram_message_id)
    × (after.delivered_earthquake_version ≡ row.delivered_earthquake_version)
    × (after.attempt_count ≡ row.attempt_count)
    × (after.locked_at ≡ row.locked_at)
    × (after.locked_by ≡ row.locked_by)

-- The row of a key before and after an upsert.
pub data IsUpserted (version : ℤ) (lifecycle : String) (payload : List ℕ) (now : Time)
    (before : Option TelegramAlertMessage) (after : TelegramAlertMessage) : Type 0 where
  entered :
      before ≡ none
      → (after.desired_earthquake_version ≡ version)
        × (after.desired_payload ≡ payload)
        × (after.lifecycle ≡ lifecycle)
      → (after.status ≡ pending_send)
        × (after.next_attempt_at ≡ now)
        × (after.telegram_message_id ≡ none)
      → after.attempt_count ≡ 0
      → IsUpserted version lifecycle payload now before after
  advanced :
      (row : TelegramAlertMessage)
      → before ≡ some row
      → row.desired_earthquake_version <ℤ version
      → (after.desired_earthquake_version ≡ version)
        × (after.desired_payload ≡ payload)
        × (after.lifecycle ≡ lifecycle)
      → ((row.telegram_message_id ≡ none) × (after.status ≡ pending_send))
        ⊎ ((is_none row.telegram_message_id ≡ false) × (after.status ≡ pending_edit))
      → after.next_attempt_at ≤ℤ now
      → after.next_attempt_at ≤ℤ row.next_attempt_at
      → IsKept row after
      → IsUpserted version lifecycle payload now before after
  seen :
      (row : TelegramAlertMessage)
      → before ≡ some row
      → version ≤ℤ row.desired_earthquake_version
      → (after.desired_earthquake_version ≡ row.desired_earthquake_version)
        × (after.desired_payload ≡ row.desired_payload)
        × (after.lifecycle ≡ row.lifecycle)
      → after.status ≡ row.status
      → after.next_attempt_at ≡ row.next_attempt_at
      → IsKept row after
      → IsUpserted version lifecycle payload now before after

module _ (id : Uuid) (chat : ℤ) (s e : Uuid) (version : ℤ) (lifecycle : String) (payload : List ℕ)
    (now : Time) where
  abbrev upserted : List TelegramAlertMessage → List TelegramAlertMessage
  upserted rows = insert_or_refresh id chat s e version lifecycle payload now rows
