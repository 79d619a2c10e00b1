-- ===== src/Notification/Delivery.antt =====
-- internal/repository/postgres/notification.go: the rows of notification_deliveries and the statements
-- on them.
pub mod Retry
use shaker.Prelude.{
  ℕ, Bool, true, false, not, ◌&&◌, ◌||◌, String, Option, none, some, List, [], ◌∷◌, ℤ, ltb_ℤ, leb_ℤ,
  take, map, if◌then◌else◌, ◌==◌ as nat_eq,
}
use shaker.Go.Time.{Time, Duration}
use shaker.Earthquake.Event.{Uuid}
use shaker.Notification.Alert.{lock_expired}
use shaker.Go.Sql.{order_by, filter, update_where, any_where}

pub data Status : Type 0 where
  pending retry processing sent dead : Status

-- A row of notification_deliveries: the columns of Delivery, of the lock and of the result.
pub record Delivery : Type 0 where
  pub id : Uuid
  pub subscription_id : Uuid
  pub earthquake_id : Uuid
  pub earthquake_version : ℤ
  pub trigger_type : String
  pub status : Status
  pub attempt_count : ℕ
  pub next_attempt_at : Time
  pub payload : List ℕ
  pub locked_at : Option Time
  pub locked_by : Option String
  pub sent_at : Option Time
  pub response_status : Option ℤ
  pub last_error : Option String
  pub updated_at : Time

abbrev pub waits : Status → Bool
waits pending = true
waits retry = true
waits _ = false

abbrev pub is_processing : Status → Bool
is_processing processing = true
is_processing _ = false

abbrev pub is_sent : Status → Bool
is_sent sent = true
is_sent _ = false

-- status IN ('dead','retry','pending')
abbrev pub is_retryable : Status → Bool
is_retryable dead = true
is_retryable retry = true
is_retryable pending = true
is_retryable _ = false

-- The WHERE of the candidates of Claim.
unfoldable pub is_claimable : Time → Duration → Delivery → Bool
is_claimable now lock_timeout d =
    waits d.status && leb_ℤ d.next_attempt_at now
    || is_processing d.status && lock_expired d.locked_at now lock_timeout

unfoldable pub claim_row : String → Time → Delivery → Delivery
claim_row worker now d = record d {
  status = processing;
  locked_at = some now;
  locked_by = some worker;
  updated_at = now;
}

unfoldable pub has_id : List Delivery → Uuid → Bool
has_id [] id = false
has_id (d ∷ ds) id = nat_eq d.id id || has_id ds id

-- Claim; `skipped` are the rows that another transaction has locked
unfoldable pub claim :
    (Uuid → Bool) → String → ℕ → Duration → Time → List Delivery → List Delivery × List Delivery
unfolding order_by filter update_where is_claimable claim_row has_id
claim skipped worker batch lock_timeout now rows =
    let candidates = take batch (
      order_by (λ a b. ltb_ℤ a.next_attempt_at b.next_attempt_at)
        (filter (λ d. is_claimable now lock_timeout d && not (skipped d.id)) rows)) in
    (
      map (claim_row worker now) candidates,
      update_where (λ d. has_id candidates d.id) (claim_row worker now) rows,
    )

-- The UPDATE of CompleteDelivery on one row.
unfoldable pub complete_row :
    Status → ℕ → Time → Option ℤ → Option String → Time → Delivery → Delivery
complete_row status attempt next response last_error now d = record d {
  status = status;
  attempt_count = attempt;
  next_attempt_at = next;
  sent_at = if is_sent status then some now else d.sent_at;
  response_status = response;
  last_error = last_error;
  locked_at = none;
  locked_by = none;
  updated_at = now;
}

-- CompleteDelivery
unfoldable pub complete_delivery :
    Uuid → Status → ℕ → Time → Option ℤ → Option String → Time → List Delivery → List Delivery
unfolding update_where complete_row
complete_delivery id status attempt next response last_error now rows =
    update_where (λ d. nat_eq d.id id) (complete_row status attempt next response last_error now)
      rows

-- The UPDATE of RetryDelivery on one row.
unfoldable pub retry_row : Time → Delivery → Delivery
retry_row now d = record d {
  status = retry;
  next_attempt_at = now;
  locked_at = none;
  locked_by = none;
  last_error = none;
  updated_at = now;
}

-- RetryDelivery; `none` is ErrNotFound
unfoldable pub retry_delivery : Uuid → Time → List Delivery → Option (List Delivery)
unfolding update_where any_where retry_row
retry_delivery id now rows =
    let chosen : Delivery → Bool = λ d. nat_eq d.id id && is_retryable d.status in
    if any_where chosen rows then some (update_where chosen (retry_row now) rows) else none
