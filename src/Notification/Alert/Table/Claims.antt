-- ===== src/Notification/Alert/Table/Claims.antt =====
-- internal/repository/postgres/telegram_alert.go: what ClaimTelegramAlertMessages does to each row.
use shaker.Prelude.{
  ℕ, Option, leb_ℤ, Bool, true, false, not, ◌&&◌, ◌≡◌, refl, ◌≤◌, ◌⊎◌, inl, inr, none, some, List,
  [], ◌∷◌, String, arith, length, length-take, length-map, map, get_elem?, All, All-take,
  Bool-cases, subst, ◌∙◌, ◌<ℤ◌, ◌≤ℤ◌, ◌-ℤ◌, ◌==◌ as nat_eq,
}
use shaker.Go.Time.{Time, Duration}
use shaker.Go.Sql.{order_by, filter}
use shaker.Go.Sql.Rows.{All-filter, All-order_by}
use shaker.Go.Sql.Laws.{update_where-other, update_where-chosen}
use shaker.Earthquake.Event.{Uuid}
use shaker.Notification.Alert.{
  TelegramAlertMessage, Status, pending_send, pending_edit, retry, processing, active, dead, waits,
  is_processing, lock_expired, is_claimable, claim_row,
}
use shaker.Notification.Alert.Table.{
  alert_candidates, claimed_before, has_id, claim_telegram_alert_messages,
}

-- Rows with the identity of a row are that row: the identity is the primary key.
abbrev pub IsKeyOf : TelegramAlertMessage → TelegramAlertMessage → Type 0
IsKeyOf row other = nat_eq other.id row.id ≡ true → other ≡ row

-- The row waits to be sent, to be edited or for another attempt, and its time has come; or it is
-- being processed under a lock that has expired.
pub data IsDue (now : Time) (lock_timeout : Duration) (row : TelegramAlertMessage) : Type 0 where
  due :
      (row.status ≡ pending_send) ⊎ ((row.status ≡ pending_edit) ⊎ (row.status ≡ retry))
      → row.next_attempt_at ≤ℤ now
      → IsDue now lock_timeout row
  expired :
      (at : Time)
      → row.status ≡ processing
      → row.locked_at ≡ some at
      → at <ℤ now -ℤ lock_timeout
      → IsDue now lock_timeout row

-- A row that a worker has claimed: processing, locked by the worker, and otherwise as it was.
pub record IsClaimed (worker : String) (now : Time) (row after : TelegramAlertMessage)
    : Type 0 where
  pub status : after.status ≡ processing
  pub locked_by : after.locked_by ≡ some worker
  pub locked_at : after.locked_at ≡ some now
  pub id : after.id ≡ row.id
  pub telegram_message_id : after.telegram_message_id ≡ row.telegram_message_id
  pub desired_version : after.desired_earthquake_version ≡ row.desired_earthquake_version
  pub delivered_version : after.delivered_earthquake_version ≡ row.delivered_earthquake_version
  pub desired_payload : after.desired_payload ≡ row.desired_payload
  pub attempt_count : after.attempt_count ≡ row.attempt_count

waits_lem :
    (status : Status)
    → waits status ≡ true
    → (status ≡ pending_send) ⊎ ((status ≡ pending_edit) ⊎ (status ≡ retry))
waits_lem pending_send h = inl refl
waits_lem pending_edit h = inr (inl refl)
waits_lem retry h = inr (inr refl)
waits_lem processing h = cc
waits_lem active h = cc
waits_lem dead h = cc

is_processing_lem : (status : Status) → is_processing status ≡ true → status ≡ processing
is_processing_lem processing h = refl
is_processing_lem pending_send h = cc
is_processing_lem pending_edit h = cc
is_processing_lem retry h = cc
is_processing_lem active h = cc
is_processing_lem dead h = cc

lock_expired_lem :
    (locked_at : Option Time) (now : Time) (lock_timeout : Duration)
    → lock_expired locked_at now lock_timeout ≡ true
    → (at : Time) × (locked_at ≡ some at) × (at <ℤ now -ℤ lock_timeout)
lock_expired_lem none now lock_timeout h = cc
lock_expired_lem (some at) now lock_timeout h = (at, refl, ground (arith, h))

is_claimable-IsDue :
    (now : Time) (lock_timeout : Duration) (row : TelegramAlertMessage)
    → is_claimable now lock_timeout row ≡ true
    → IsDue now lock_timeout row
unfolding is_claimable
is_claimable-IsDue now lock_timeout row h =
    elim (Bool-cases (waits row.status && leb_ℤ row.next_attempt_at now)) [
      | inl e ↦ IsDue.due (waits_lem row.status (ground (arith, e))) (ground (arith, e))
      | inr e ↦
          let (at, locked, late) =
            lock_expired_lem row.locked_at now lock_timeout (ground (arith, e, h)) in
          IsDue.expired at (is_processing_lem row.status (ground (arith, e, h))) locked late
    ]

has_id-claimed :
    (worker : String) (now : Time) (rows : List TelegramAlertMessage) (id : Uuid)
    → has_id (map (claim_row worker now) rows) id ≡ has_id rows id
unfolding has_id claim_row
has_id-claimed worker now [] id = refl
has_id-claimed worker now (row ∷ rows) id = rw (has_id-claimed worker now rows id) refl

has_id-All :
    (P : TelegramAlertMessage → Type 0) (rows : List TelegramAlertMessage) (id : Uuid)
    → All P rows
    → has_id rows id ≡ true
    → (row : TelegramAlertMessage) × P row × (nat_eq row.id id ≡ true)
unfolding has_id
has_id-All P [] id h found = cc
has_id-All P (row ∷ rows) id h found = elim (Bool-cases (nat_eq row.id id)) [
  | inl e ↦ (row, h.0, e)
  | inr e ↦ has_id-All P rows id h.1 (ground (arith, e, found))
]

module _ (kind_of : Uuid → String) (skipped : Uuid → Bool) (worker : String) (batch : ℕ)
    (lock_timeout : Duration) (now : Time) where
  abbrev chosen : List TelegramAlertMessage → List TelegramAlertMessage
  chosen rows = alert_candidates kind_of skipped batch lock_timeout now rows

  chosen-IsDue :
      (rows : List TelegramAlertMessage) (row : TelegramAlertMessage)
      → All (IsKeyOf row) rows
      → has_id (chosen rows) row.id ≡ true
      → IsDue now lock_timeout row × (skipped row.id ≡ false)
  unfolding alert_candidates
  chosen-IsDue rows row keys found =
      let free : TelegramAlertMessage → Bool =
        λ r. is_claimable now lock_timeout r && not (skipped r.id) in
      let (c, (key, passes), same) =
        has_id-All _ (chosen rows) row.id
          (All-take _ batch _
            (All-order_by _ (claimed_before kind_of) _ (All-filter (IsKeyOf row) free rows keys)))
          found in
      let passes' = subst (λ r. free r ≡ true) (key same) passes in
      (is_claimable-IsDue now lock_timeout row (ground (arith, passes')), ground (arith, passes'))

  bounded : (rows : List TelegramAlertMessage) → length (chosen rows) ≤ batch
  unfolding alert_candidates
  bounded rows = omega (
    arith,
    length-take batch (
        order_by (claimed_before kind_of) (
          filter (λ r. is_claimable now lock_timeout r && not (skipped (TelegramAlertMessage.id r)))
            rows)),
  )

  -- A claim returns at most a batch of rows. Where the identity is the primary key, it leaves a row
  -- as it was, or returns it, and then the row was due, no other transaction held it, and it is
  -- processing and locked by the worker now, with its message, versions, payload and attempts kept.
  pub claim_telegram_alert_messages_lem :
      (rows : List TelegramAlertMessage) (i : ℕ) (row : TelegramAlertMessage)
      → get_elem? rows i ≡ some row
      → All (IsKeyOf row) rows
      → let claim =
          claim_telegram_alert_messages kind_of skipped worker batch lock_timeout now rows in
        (length claim.0 ≤ batch)
        × ((get_elem? claim.1 i ≡ some row)
            ⊎ ((after : TelegramAlertMessage) × (get_elem? claim.1 i ≡ some after)
                × IsClaimed worker now row after
                × IsDue now lock_timeout row
                × (skipped row.id ≡ false)
                × (has_id claim.0 row.id ≡ true)))
  unfolding claim_telegram_alert_messages claim_row
  claim_telegram_alert_messages_lem rows i row here keys = (
    omega (arith, length-map (claim_row worker now) (chosen rows), bounded rows),
    elim (Bool-cases (has_id (chosen rows) row.id)) [
      | inr out ↦ inl (
          update_where-other (λ r. has_id (chosen rows) r.id) (claim_row worker now) rows i row here
            out)
      | inl found ↦
          let was = chosen-IsDue rows row keys found in
          inr (
            claim_row worker now row,
            update_where-chosen (λ r. has_id (chosen rows) r.id) (claim_row worker now) rows i row
                here found,
            record {
              status = refl;
              locked_by = refl;
              locked_at = refl;
              id = refl;
              telegram_message_id = refl;
              desired_version = refl;
              delivered_version = refl;
              desired_payload = refl;
              attempt_count = refl;
            },
            was.0,
            was.1,
            has_id-claimed worker now (chosen rows) row.id ∙ found,
          )
    ],
  )
