-- ===== src/Messaging/Outbox.antt =====
-- internal/repository/postgres/messaging.go and internal/core/outbox.go: the outbox of the core and the
-- relay that publishes it.
pub mod Relay
use shaker.Prelude.{
  ℕ, ◌*◌, ◌^◌, suc, min, Bool, true, false, not, ◌&&◌, ◌||◌, String, Option, none, some, List, [],
  ◌∷◌, pos, ltb_ℤ, leb_ℤ, leb, eqb_ℤ, take, ◌-ℤ◌, if◌then◌else◌, ◌==◌ as nat_eq,
}
use shaker.Go.Time.{Time, Duration, time_add, second}
use shaker.Go.Text.{◌==◌}
use shaker.Go.Sql.{order_by, filter, update_where, any_where}
use shaker.Earthquake.Event.{Uuid}

-- A row of core_outbox_messages.
pub record OutboxMessage : Type 0 where
  pub id : Uuid
  pub topic : String
  pub key : String
  pub schema : String
  pub payload : List ℕ
  pub headers : List ℕ
  pub attempt_count : ℕ
  pub next_attempt_at : Time
  pub created_at : Time
  pub published_at : Option Time
  pub locked_at : Option Time
  pub locked_by : Option String
  pub last_error : Option String
  pub updated_at : Time

abbrev pub unpublished : OutboxMessage → Bool
unpublished m = elim m.published_at [ none ↦ true | some _ ↦ false ]

-- locked_at IS NULL OR locked_at < limit
abbrev pub is_free : Option Time → Time → Bool
is_free none limit = true
is_free (some at) limit = ltb_ℤ at limit

-- locked_by = worker, which is not true of NULL
abbrev pub held_by : Option String → String → Bool
held_by none worker = false
held_by (some w) worker = w == worker

-- The INSERT of enqueueIncidentChange: ON CONFLICT(id) DO NOTHING
unfoldable pub enqueue : OutboxMessage → List OutboxMessage → List OutboxMessage
unfolding any_where
enqueue m rows = if any_where (λ r. nat_eq r.id m.id) rows then rows else m ∷ rows

-- The WHERE of the candidates of ClaimCoreOutbox.
unfoldable pub is_claimable : Time → Duration → OutboxMessage → Bool
is_claimable now lock_timeout m =
    unpublished m && leb_ℤ m.next_attempt_at now && is_free m.locked_at (now -ℤ lock_timeout)

unfoldable pub claim_row : String → Time → OutboxMessage → OutboxMessage
claim_row worker now m = record m {
  locked_at = some now;
  locked_by = some worker;
  updated_at = now;
}

-- ORDER BY next_attempt_at,created_at
abbrev pub claimed_before : OutboxMessage → OutboxMessage → Bool
claimed_before a b =
    ltb_ℤ a.next_attempt_at b.next_attempt_at
    || eqb_ℤ a.next_attempt_at b.next_attempt_at && ltb_ℤ a.created_at b.created_at

-- The candidates; `skipped` are the rows that another transaction has locked.
unfoldable pub candidates :
    (Uuid → Bool) → ℕ → Duration → Time → List OutboxMessage → List OutboxMessage
unfolding order_by filter is_claimable
candidates skipped batch lock_timeout now rows = take batch (
    order_by claimed_before
      (filter (λ m. is_claimable now lock_timeout m && not (skipped m.id)) rows))

-- ClaimCoreOutbox: the messages returned and the table; `none` is an invalid claim
unfoldable pub claim_core_outbox :
    (Uuid → Bool)
    → String
    → ℕ
    → Duration
    → Time
    → List OutboxMessage
    → Option (List OutboxMessage × List OutboxMessage)
unfolding candidates any_where update_where claim_row
claim_core_outbox skipped worker batch lock_timeout now rows =
    if worker == "" || leb batch 0
    then none
    else let chosen = candidates skipped batch lock_timeout now rows in
      some (
        chosen,
        update_where (λ m. any_where (λ c. nat_eq c.id m.id) chosen) (claim_row worker now) rows,
      )

-- The WHERE of CompleteCoreOutbox and FailCoreOutbox.
abbrev pub is_held : Uuid → String → OutboxMessage → Bool
is_held id worker m = nat_eq m.id id && held_by m.locked_by worker && unpublished m

unfoldable pub complete_row : Time → OutboxMessage → OutboxMessage
complete_row published_at m = record m {
  published_at = some published_at;
  locked_at = none;
  locked_by = none;
  last_error = none;
  attempt_count = suc m.attempt_count;
  updated_at = published_at;
}

-- CompleteCoreOutbox; `none` is ErrNotFound
unfoldable pub complete_core_outbox :
    Uuid → String → Time → List OutboxMessage → Option (List OutboxMessage)
unfolding any_where update_where complete_row
complete_core_outbox id worker published_at rows =
    if any_where (is_held id worker) rows
    then some (update_where (is_held id worker) (complete_row published_at) rows)
    else none

unfoldable pub fail_row : String → Time → Time → OutboxMessage → OutboxMessage
fail_row message next_attempt_at now m = record m {
  locked_at = none;
  locked_by = none;
  last_error = some message;
  attempt_count = suc m.attempt_count;
  next_attempt_at = next_attempt_at;
  updated_at = now;
}

-- FailCoreOutbox, on the message cut to 2000 bytes; `none` is ErrNotFound
unfoldable pub fail_core_outbox :
    (String → String)
    → Uuid
    → String
    → String
    → Time
    → Time
    → List OutboxMessage
    → Option (List OutboxMessage)
unfolding any_where update_where fail_row
fail_core_outbox cut id worker message next_attempt_at now rows =
    if any_where (is_held id worker) rows
    then some (update_where (is_held id worker) (fail_row (cut message) next_attempt_at now) rows)
    else none

-- time.Second << min(message.AttemptCount, 8)
unfoldable pub delay : ℕ → ℕ
delay attempt_count = second * 2 ^ min attempt_count 8

-- An error of a statement is only logged.
abbrev pub or_same : {A : Type 0} → Option (List A) → List A → List A
or_same none rows = rows
or_same (some next) rows = next

-- What the relay records of one message, given the error of its headers or of the publisher, if
-- there is one: CompleteCoreOutbox, or the FailCoreOutbox of fail.
unfoldable pub record_result :
    (String → String)
    → String
    → Time
    → OutboxMessage
    → List OutboxMessage
    → Option String
    → List OutboxMessage
unfolding complete_core_outbox fail_core_outbox delay
record_result cut worker now m rows none = or_same (complete_core_outbox m.id worker now rows) rows
record_result cut worker now m rows (some error) =
    or_same
      (fail_core_outbox cut m.id worker error (time_add now (pos (delay m.attempt_count))) now rows)
      rows

-- the loop of OutboxRelay.process over the messages that it has claimed; `publish` gives the error of
-- the headers or of the publisher, if there is one
unfoldable pub relay_all :
    (String → String)
    → (OutboxMessage → Option String)
    → String
    → Time
    → List OutboxMessage
    → List OutboxMessage
    → List OutboxMessage
unfolding record_result
relay_all cut publish worker now [] rows = rows
relay_all cut publish worker now (m ∷ ms) rows =
    relay_all cut publish worker now ms (record_result cut worker now m rows (publish m))

-- OutboxRelay: the settings that process reads
pub record OutboxRelay : Type 0 where
  pub worker : String
  pub batch : ℕ
  pub lock_timeout : Duration

-- OutboxRelay.process, which claims at one time and records its results at another; an error of the
-- claim is only logged
unfoldable pub process :
    (String → String)
    → (OutboxMessage → Option String)
    → (Uuid → Bool)
    → OutboxRelay
    → Time
    → Time
    → List OutboxMessage
    → List OutboxMessage
unfolding claim_core_outbox relay_all
process cut publish skipped r claimed_at now rows =
    elim (claim_core_outbox skipped r.worker r.batch r.lock_timeout claimed_at rows) [
      | none ↦ rows
      | some claimed ↦ relay_all cut publish r.worker now claimed.0 claimed.1
    ]
