-- ===== src/Messaging/Inbox/Once.antt =====
-- internal/repository/postgres/messaging.go: a message takes effect once, however often it is
-- delivered.
use shaker.Prelude.{
  ℕ, Bool, true, ◌||◌, ◌≡◌, refl, ◌⊎◌, inl, inr, String, Option, some, List, [], ◌∷◌, arith,
  Bool-cases, eq_iff, ◌==◌ as nat_eq,
}
use shaker.Go.Float.{Float}
use shaker.Go.Time.{Time, is_zero}
use shaker.Go.Text.{◌==◌}
use shaker.Earthquake.Event.{uuid_nil, Uuid, Event}
use shaker.Eventstream.Messages.{
  ProviderObservation, IncidentChanged, Change, Result, ContractError, ok, err,
}
use shaker.Eventstream.Contracts.{event_of_message, change_of_message}
use shaker.Messaging.Inbox.{
  MessagePosition, InboxRow, Database, duplicate, applied, same_position, at_position, conflicts,
  is_duplicate, through_inbox, apply_provider_message, apply_incident_message, after,
  incident_effect, bad_position,
}

-- The transaction of one message with its effect.
pub record Delivered (S : Type 0) : Type 0 where
  pub position : MessagePosition
  pub message_id : Uuid
  pub effect : S → Option S

-- Deliveries one after the other.
unfoldable pub consume : {S : Type 0} → List (Delivered S) → Database S → Database S
unfolding through_inbox
consume [] db = db
consume (d ∷ ds) db = consume ds (after (through_inbox d.position d.message_id d.effect db) db)

-- The message is in the inbox under a position.
abbrev pub IsStored : {S : Type 0} → MessagePosition → Uuid → Database S → Type 0
IsStored p id db = at_position db.inbox p ≡ some id

some_at :
    (rows : List InboxRow) (p : MessagePosition) (id : Uuid)
    → at_position rows p ≡ some id
    → conflicts rows p id ≡ true
unfolding conflicts
some_at rows p id h = ground arith

Result-cases :
    {A : Type 0} (r : Result A) → ((e : ContractError) × (r ≡ err e)) ⊎ ((a : A) × (r ≡ ok a))
Result-cases (err e) = inl (e, refl)
Result-cases (ok a) = inr (a, refl)

same_position_refl : (p : MessagePosition) → same_position p p ≡ true
same_position_refl p = ground (arith, eq_iff p.topic p.topic)

same_position_sound : (p q : MessagePosition) → same_position p q ≡ true → p ≡ q
same_position_sound p q h = ground (arith, eq_iff p.topic q.topic)

module _ {S : Type 0} where
  -- A row is inserted only under a free position, so that it hides no other.
  after-IsStored :
      (d : Delivered S) (db : Database S) (p : MessagePosition) (id : Uuid)
      → IsStored p id db
      → IsStored p id (after (through_inbox d.position d.message_id d.effect db) db)
  unfolding through_inbox conflicts at_position
  after-IsStored d db p id h = elim (Bool-cases (same_position d.position p)) [
    | inl e ↦
        let same : d.position ≡ p = same_position_sound d.position p e in
        let stored : at_position db.inbox d.position ≡ some id = rw same h in ground arith
    | inr e ↦ ground arith
  ]

  consume-IsStored :
      (ds : List (Delivered S)) (db : Database S) (p : MessagePosition) (id : Uuid)
      → IsStored p id db
      → IsStored p id (consume ds db)
  unfolding consume
  consume-IsStored [] db p id h = h
  consume-IsStored (d ∷ ds) db p id h = consume-IsStored ds _ p id (after-IsStored d db p id h)

  applied-IsStored :
      (p : MessagePosition) (id : Uuid) (effect : S → Option S) (db next : Database S)
      → through_inbox p id effect db ≡ applied next
      → IsStored p id next
  unfolding through_inbox at_position
  applied-IsStored p id effect db next h = ground (arith, same_position_refl p)

  through_inbox_stored :
      (p : MessagePosition) (id : Uuid) (effect : S → Option S) (db : Database S)
      → IsStored p id db
      → through_inbox p id effect db ≡ duplicate
  unfolding through_inbox is_duplicate
  through_inbox_stored p id effect db h = ground arith

  -- Once a message is applied, its next delivery at the same position is a duplicate, whatever other
  -- deliveries come between.
  once :
      (p : MessagePosition) (id : Uuid) (effect again : S → Option S) (db next : Database S)
      (ds : List (Delivered S))
      → through_inbox p id effect db ≡ applied next
      → through_inbox p id again (consume ds next) ≡ duplicate
  once p id effect again db next ds h =
      through_inbox_stored p id again (consume ds next)
        (consume-IsStored ds next p id (applied-IsStored p id effect db next h))

  -- A provider message that has been applied is a duplicate at every later delivery of its position,
  -- whatever other messages the inbox takes in between; so it takes effect once.
  pub apply_provider_message-once :
      {F : Type 0} ⦃f : Float F⦄ (json_valid : List ℕ → Bool)
      (apply_batch : Event F → String → Bool → Time → S → Option S) (p : MessagePosition)
      (message : ProviderObservation F) (at later : Time) (db next : Database S)
      (ds : List (Delivered S))
      → apply_provider_message json_valid apply_batch p message at db ≡ applied next
      → apply_provider_message json_valid apply_batch p message later (consume ds next) ≡ duplicate
  unfolding apply_provider_message
  apply_provider_message-once json_valid apply_batch p message at later db next ds h =
      elim (Bool-cases (bad_position "provider.observations.v1" p)) [
        | inl e ↦ cc (rw e at h)
        | inr e ↦
            elim (Bool-cases (
              nat_eq message.message_id uuid_nil
              || is_zero message.produced_at
              || message.mode == "")) [
                | inl e2 ↦ cc (rw (e, e2) at h)
                | inr e2 ↦ elim (Result-cases (event_of_message json_valid message)) [
                  | inl (x, e3) ↦ cc (rw (e, e2, e3) at h)
                  | inr (x, e3) ↦
                      rw (e, e2, e3)
                        (once p message.message_id
                          (apply_batch x message.mode message.baseline_complete at)
                          (apply_batch x message.mode message.baseline_complete later) db next ds
                          (rw (e, e2, e3) at h))
                ]
              ]
      ]

  -- An incident message that has been applied is a duplicate at every later delivery of its
  -- position, whatever other messages the inbox takes in between; so its alerts and deliveries are
  -- made once.
  pub apply_incident_message-once :
      {F : Type 0} (refresh : Event F → Time → S → Option S)
      (create_deliveries : Change F → String → Bool → Time → S → Option S) (p : MessagePosition)
      (message : IncidentChanged F) (at later : Time) (db next : Database S)
      (ds : List (Delivered S))
      → apply_incident_message refresh create_deliveries p message at db ≡ applied next
      → apply_incident_message refresh create_deliveries p message later (consume ds next)
        ≡ duplicate
  unfolding apply_incident_message
  apply_incident_message-once refresh create_deliveries p message at later db next ds h =
      elim (Bool-cases (bad_position "incident.changes.v1" p)) [
        | inl e ↦ cc (rw e at h)
        | inr e ↦
            elim (Bool-cases (nat_eq message.message_id uuid_nil || is_zero message.produced_at)) [
              | inl e2 ↦ cc (rw (e, e2) at h)
              | inr e2 ↦ elim (Result-cases (change_of_message message)) [
                | inl (x, e3) ↦ cc (rw (e, e2, e3) at h)
                | inr (x, e3) ↦
                    rw (e, e2, e3)
                      (once p message.message_id
                        (incident_effect refresh create_deliveries message x at)
                        (incident_effect refresh create_deliveries message x later) db next ds
                        (rw (e, e2, e3) at h))
              ]
            ]
      ]
