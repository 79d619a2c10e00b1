-- ===== src/Messaging/Inbox.antt =====
-- internal/repository/postgres/messaging.go: ApplyProviderMessage and ApplyIncidentMessage. Each is
-- one transaction: the row of the inbox and the effect of the message are kept together, or neither.
pub mod Once
use shaker.Prelude.{
  ℕ, Bool, true, false, not, ◌&&◌, ◌||◌, String, Option, none, some, List, [], ◌∷◌, ℤ, pos, ltb_ℤ,
  eqb_ℤ, if◌then◌else◌, ◌==◌ as nat_eq,
}
use shaker.Go.Float.{Float}
use shaker.Go.Time.{Time, is_zero}
use shaker.Go.Text.{◌==◌}
use shaker.Earthquake.Event.{Uuid, uuid_nil, Event, updated, ChangeKind}
use shaker.Eventstream.Messages.{ProviderObservation, IncidentChanged, Change, ok, err}
use shaker.Eventstream.Contracts.{event_of_message, change_of_message}

pub record MessagePosition : Type 0 where
  pub topic : String
  pub partition : ℤ
  pub offset : ℤ

-- The key columns of a row of an inbox: the message is the primary key, the position is unique.
pub record InboxRow : Type 0 where
  pub message_id : Uuid
  pub position : MessagePosition

-- An inbox, and the rest of the database.
pub record Database (S : Type 0) : Type 0 where
  pub inbox : List InboxRow
  pub state : S

-- An error, which rolls back; a duplicate, which changes nothing; or a message that is applied.
pub data Outcome (S : Type 0) : Type 0 where
  failed duplicate : Outcome S
  applied : Database S → Outcome S

abbrev pub same_position : MessagePosition → MessagePosition → Bool
same_position p q = p.topic == q.topic && eqb_ℤ p.partition q.partition && eqb_ℤ p.offset q.offset

-- SELECT message_id ... WHERE topic, partition, message_offset
unfoldable pub at_position : List InboxRow → MessagePosition → Option Uuid
at_position [] p = none
at_position (row ∷ rows) p =
    let rest = at_position rows p in
    if same_position row.position p then some row.message_id else rest

-- SELECT message_id ... WHERE message_id
unfoldable pub has_message : List InboxRow → Uuid → Bool
has_message [] id = false
has_message (row ∷ rows) id = nat_eq row.message_id id || has_message rows id

abbrev pub is_some : Option Uuid → Bool
is_some none = false
is_some (some _) = true

-- INSERT ... ON CONFLICT DO NOTHING inserts no row
unfoldable pub conflicts : List InboxRow → MessagePosition → Uuid → Bool
unfolding at_position has_message
conflicts rows p id = has_message rows id || is_some (at_position rows p)

-- duplicateProviderMessage, duplicateNotificationMessage
unfoldable pub is_duplicate : List InboxRow → MessagePosition → Uuid → Bool
unfolding at_position has_message
is_duplicate rows p id = elim (at_position rows p) [
  | some stored ↦ nat_eq stored id
  | none ↦ has_message rows id
]

-- The transaction around the effect of a message, which may fail.
unfoldable pub through_inbox :
    {S : Type 0} → MessagePosition → Uuid → (S → Option S) → Database S → Outcome S
unfolding conflicts is_duplicate
through_inbox p id effect db =
    if conflicts db.inbox p id
    then if is_duplicate db.inbox p id then duplicate else failed
    else elim (effect db.state) [
      | none ↦ failed
      | some state ↦
          applied
            (record { inbox = record { message_id = id; position = p } ∷ db.inbox; state = state })
    ]

abbrev pub bad_position : String → MessagePosition → Bool
bad_position topic p = not (p.topic == topic) || ltb_ℤ p.partition (pos 0) || ltb_ℤ p.offset (pos 0)

-- ApplyProviderMessage; `apply_batch` is applyBatch of the event, in a mode and with a flag, which
-- may fail
unfoldable pub apply_provider_message :
    {F S : Type 0} ⦃f : Float F⦄
    → (List ℕ → Bool)
    → (Event F → String → Bool → Time → S → Option S)
    → MessagePosition
    → ProviderObservation F
    → Time
    → Database S
    → Outcome S
unfolding event_of_message through_inbox
apply_provider_message json_valid apply_batch p message received_at db =
    if bad_position "provider.observations.v1" p
    then failed
    else if nat_eq message.message_id uuid_nil || is_zero message.produced_at || message.mode == ""
    then failed
    else elim (event_of_message json_valid message) [
      | err e ↦ failed
      | ok event ↦
          through_inbox p message.message_id
            (apply_batch event message.mode message.baseline_complete received_at) db
    ]

abbrev pub is_updated : ChangeKind → Bool
is_updated updated = true
is_updated _ = false

-- The effect of an incident message: the alerts of an update are refreshed, and deliveries are made
-- when the message is open to notifications.
abbrev pub incident_effect :
    {F S : Type 0}
    → (Event F → Time → S → Option S)
    → (Change F → String → Bool → Time → S → Option S)
    → IncidentChanged F
    → Change F
    → Time
    → S
    → Option S
incident_effect refresh create_deliveries message change received_at state =
    elim (if is_updated message.operation
      then refresh change.current received_at state
      else some state) [
        | none ↦ none
        | some refreshed ↦
            if message.notifications_eligible
            then create_deliveries change message.ingestion_mode message.baseline_complete
                received_at refreshed
            else some refreshed
      ]

-- ApplyIncidentMessage; `refresh` is refreshTelegramAlertMessages and `create_deliveries` is
-- createDeliveries, which may fail
unfoldable pub apply_incident_message :
    {F S : Type 0}
    → (Event F → Time → S → Option S)
    → (Change F → String → Bool → Time → S → Option S)
    → MessagePosition
    → IncidentChanged F
    → Time
    → Database S
    → Outcome S
unfolding change_of_message through_inbox
apply_incident_message refresh create_deliveries p message received_at db =
    if bad_position "incident.changes.v1" p
    then failed
    else if nat_eq message.message_id uuid_nil || is_zero message.produced_at
    then failed
    else elim (change_of_message message) [
      | err e ↦ failed
      | ok change ↦
          through_inbox p message.message_id
            (incident_effect refresh create_deliveries message change received_at) db
    ]

-- The database after a delivery: a transaction that fails or finds a duplicate leaves it.
abbrev pub after : {S : Type 0} → Outcome S → Database S → Database S
after failed db = db
after duplicate db = db
after (applied next) db = next
