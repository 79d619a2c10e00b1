-- ===== src/Messaging/Outbox/Relay.antt =====
-- internal/repository/postgres/messaging.go and internal/core/outbox.go: what happens to a row of the
-- outbox.
use shaker.Prelude.{
  ℕ, ◌≡◌, ◌⊎◌, inl, inr, true, false, String, Option, none, some, List, [], ◌∷◌, pos, arith,
  Bool-cases, get_elem?, Bool, refl, not, ◌&&◌, ◌||◌, leb, ◌≢◌, ◌-ℤ◌, ◌≤ℤ◌, ◌<ℤ◌, eq_iff, All,
  All-take, All-imp, ap, ◌==◌ as nat_eq,
}
use shaker.Go.Time.{Time, time_add}
use shaker.Go.Text.{◌==◌}
use shaker.Go.Sql.{any_where}
use shaker.Go.Sql.Rows.{All-filter, All-order_by, any_where-none}
use shaker.Go.Sql.Laws.{update_where-other, update_where-chosen, any_where-chosen}
use shaker.Earthquake.Event.{Uuid}
use shaker.Messaging.Outbox.{
  OutboxMessage, is_held, complete_row, fail_row, complete_core_outbox, fail_core_outbox, delay,
  record_result, relay_all, process, OutboxRelay, candidates, claim_core_outbox, claim_row,
  is_claimable, claimed_before, unpublished, held_by,
}

-- A row of the worker that relays it is published, or released for another attempt after the delay.
abbrev pub after_relay :
    (String → String) → Time → OutboxMessage → OutboxMessage → Option String → OutboxMessage
after_relay cut now m row none = complete_row now row
after_relay cut now m row (some error) =
    fail_row (cut error) (time_add now (pos (delay m.attempt_count))) now row

-- The row is not for the worker to change: it is published, or another worker holds it, or none.
abbrev pub IsSettled : String → OutboxMessage → Type 0
IsSettled worker row = (unpublished row ≡ false) ⊎ (held_by row.locked_by worker ≡ false)

IsSettled-not_held :
    (worker : String) (row : OutboxMessage) (id : Uuid)
    → IsSettled worker row
    → is_held id worker row ≡ false
IsSettled-not_held worker row id h = ground arith

module _ (cut : String → String) (worker : String) (now : Time) where
  record_result-other :
      (m : OutboxMessage) (rows : List OutboxMessage) (r : Option String) (i : ℕ)
      (row : OutboxMessage)
      → get_elem? rows i ≡ some row
      → IsSettled worker row
      → get_elem? (record_result cut worker now m rows r) i ≡ some row
  unfolding record_result complete_core_outbox fail_core_outbox
  record_result-other m rows none i row here settled =
      let out = IsSettled-not_held worker row m.id settled in
      elim (Bool-cases (any_where (is_held m.id worker) rows)) [
        | inr e ↦ rw e here
        | inl e ↦
            rw e (update_where-other (is_held m.id worker) (complete_row now) rows i row here out)
      ]
  record_result-other m rows (some error) i row here settled =
      let out = IsSettled-not_held worker row m.id settled in
      elim (Bool-cases (any_where (is_held m.id worker) rows)) [
        | inr e ↦ rw e here
        | inl e ↦ rw e (
            update_where-other (is_held m.id worker)
              (fail_row (cut error) (time_add now (pos (delay m.attempt_count))) now) rows i row
              here out)
      ]

  relay_all-other :
      (publish : OutboxMessage → Option String) (ms rows : List OutboxMessage) (i : ℕ)
      (row : OutboxMessage)
      → get_elem? rows i ≡ some row
      → IsSettled worker row
      → get_elem? (relay_all cut publish worker now ms rows) i ≡ some row
  unfolding relay_all
  relay_all-other publish [] rows i row here settled = here
  relay_all-other publish (m ∷ ms) rows i row here settled =
      relay_all-other publish ms _ i row (record_result-other m rows (publish m) i row here settled)
        settled

  -- A row that the worker holds is published when its message was, and otherwise released for
  -- another attempt after the delay.
  pub record_result-after_relay :
      (m : OutboxMessage) (rows : List OutboxMessage) (r : Option String) (i : ℕ)
      (row : OutboxMessage)
      → get_elem? rows i ≡ some row
      → is_held m.id worker row ≡ true
      → get_elem? (record_result cut worker now m rows r) i ≡ some (after_relay cut now m row r)
  unfolding record_result complete_core_outbox fail_core_outbox
  record_result-after_relay m rows none i row here held =
      let found = any_where-chosen (is_held m.id worker) rows i row here held in
      rw found (update_where-chosen (is_held m.id worker) (complete_row now) rows i row here held)
  record_result-after_relay m rows (some error) i row here held =
      let found = any_where-chosen (is_held m.id worker) rows i row here held in
      rw found (
        update_where-chosen (is_held m.id worker)
          (fail_row (cut error) (time_add now (pos (delay m.attempt_count))) now) rows i row here
          held)

-- Rows with the identity of a row are that row: the identity is the primary key.
abbrev pub IsKeyOf : OutboxMessage → OutboxMessage → Type 0
IsKeyOf row other = nat_eq other.id row.id ≡ true → other ≡ row

-- The row is published, or another worker holds it and its lock has not expired, or it is held by
-- nobody and its time has not come.
pub data IsOutOfReach (r : OutboxRelay) (claimed_at : Time) (row : OutboxMessage) : Type 0 where
  is_published : (at : Time) → row.published_at ≡ some at → IsOutOfReach r claimed_at row
  is_locked :
      (at : Time) (other : String)
      → row.locked_at ≡ some at
      → row.locked_by ≡ some other
      → other ≢ r.worker
      → claimed_at -ℤ r.lock_timeout ≤ℤ at
      → IsOutOfReach r claimed_at row
  is_early :
      row.locked_by ≡ none → claimed_at <ℤ row.next_attempt_at → IsOutOfReach r claimed_at row

module _ (r : OutboxRelay) (claimed_at : Time) (row : OutboxMessage) where
  out_of_reach-IsSettled : IsOutOfReach r claimed_at row → IsSettled r.worker row
  out_of_reach-IsSettled (is_published at e) = inl (rw e refl)
  out_of_reach-IsSettled (is_locked at other e e2 differs alive) =
      inr (rw e2 (ground (arith, eq_iff other r.worker, differs)))
  out_of_reach-IsSettled (is_early e later) = inr (rw e refl)

  out_of_reach-is_claimable :
      IsOutOfReach r claimed_at row → is_claimable claimed_at r.lock_timeout row ≡ false
  unfolding is_claimable
  out_of_reach-is_claimable (is_published at e) = rw e refl
  out_of_reach-is_claimable (is_locked at other e e2 differs alive) = rw e (ground (arith, alive))
  out_of_reach-is_claimable (is_early e later) = ground (arith, later)

  -- a claim that skips some rows does not choose the row
  not-chosen :
      (skipped : Uuid → Bool) (rows : List OutboxMessage)
      → IsOutOfReach r claimed_at row
      → All (IsKeyOf row) rows
      → any_where
          (λ c. nat_eq (OutboxMessage.id c) row.id)
          (candidates skipped r.batch r.lock_timeout claimed_at rows)
        ≡ false
  unfolding candidates
  not-chosen skipped rows out keys =
      let free : OutboxMessage → Bool =
        λ m. is_claimable claimed_at r.lock_timeout m && not (skipped m.id) in
      any_where-none _ _ (
        All-take _ r.batch _ (
          All-order_by _ claimed_before _ (
            All-imp _ _
              (λ c h. elim (Bool-cases (nat_eq c.id row.id)) [
                | inr e ↦ e
                | inl e ↦ absurd (
                    ground (
                      arith,
                      out_of_reach-is_claimable out,
                      h.1,
                      ap (λ m. is_claimable claimed_at r.lock_timeout m) (h.0 e),
                    ))
              ])
              _ (All-filter (IsKeyOf row) free rows keys))))

-- A run of a relay's process changes no row that is published, that another worker holds with a lock
-- that has not expired, or that nobody holds before its time: where the identity is the primary key,
-- neither the claim nor what the run records of its messages touches it, whatever they are.
pub process-IsOutOfReach :
    (cut : String → String) (publish : OutboxMessage → Option String) (skipped : Uuid → Bool)
    (r : OutboxRelay) (claimed_at now : Time) (rows : List OutboxMessage) (i : ℕ)
    (row : OutboxMessage)
    → get_elem? rows i ≡ some row
    → All (IsKeyOf row) rows
    → IsOutOfReach r claimed_at row
    → get_elem? (process cut publish skipped r claimed_at now rows) i ≡ some row
unfolding process claim_core_outbox
process-IsOutOfReach cut publish skipped r claimed_at now rows i row here keys out =
    elim (Bool-cases (r.worker == "" || leb r.batch 0)) [
      | inl invalid ↦ rw (process, claim_core_outbox, invalid) here
      | inr valid ↦
          let chosen = candidates skipped r.batch r.lock_timeout claimed_at rows in
          rw (process, claim_core_outbox, valid)
            (relay_all-other cut r.worker now publish chosen _ i row
              (update_where-other (λ m. any_where (λ c. nat_eq (OutboxMessage.id c) m.id) chosen)
                (claim_row r.worker claimed_at) rows i row here
                (not-chosen r claimed_at row skipped rows out keys))
              (out_of_reach-IsSettled r claimed_at row out))
    ]
