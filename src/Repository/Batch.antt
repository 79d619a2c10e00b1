-- ===== src/Repository/Batch.antt =====
-- internal/repository/postgres/repository.go: ApplyBatch, the observations of a batch in one
-- transaction, and the state and the runs of a provider.
pub mod Laws
pub mod Delivered
use shaker.Prelude.{
  ℕ, suc, Bool, true, false, ◌&&◌, String, Option, none, some, List, [], ◌∷◌, length,
}
use shaker.Go.Float.{Float, Math}
use shaker.Go.Time.{Time}
use shaker.Go.Text.{◌==◌}
use shaker.Earthquake.Event.{Event, ChangeKind, inserted, updated, unchanged, stale, other}
use shaker.Repository.Tables.{Tables, AppliedChange, Services, done, failed}
use shaker.Shaking.{Logs}
use shaker.Repository.Notices.{Notices, Outside}
use shaker.Repository.Deliveries.{create_deliveries}
use shaker.Repository.Refreshing.{refresh_telegram_alert_messages}
use shaker.Repository.Events.{apply_event}

pub record RunStats : Type 0 where
  pub fetched : ℕ
  pub inserted : ℕ
  pub updated : ℕ
  pub unchanged : ℕ
  pub invalid : ℕ

-- What a batch does besides applyEvent: createDeliveries, refreshTelegramAlertMessages and
-- enqueueIncidentChange work on the rest of the database, and may fail.
pub record Effects (F S : Type 0) : Type 0 where
  pub create_deliveries : AppliedChange F → String → Bool → Time → Tables F → S → Option S
  pub refresh : Event F → Time → Tables F → S → Option S
  pub enqueue : AppliedChange F → String → Bool → Time → Tables F → S → Option S

-- the effects on the tables of createDeliveries, where `enqueue` is enqueueIncidentChange
unfoldable pub notice_effects :
    {F : Type 0} ⦃f : Float F⦄ ⦃m : Math F⦄ ⦃l : Logs F⦄
    → Services F
    → Outside F
    → (AppliedChange F → String → Bool → Time → Tables F → Notices F → Option (Notices F))
    → Effects F (Notices F)
unfolding create_deliveries refresh_telegram_alert_messages
notice_effects services outside publish = record {
  create_deliveries = create_deliveries services outside;
  refresh = refresh_telegram_alert_messages outside;
  enqueue = publish;
}

pub record Store (F S : Type 0) : Type 0 where
  pub tables : Tables F
  pub rest : S

-- the statistics, and the database unless an error rolls back
pub record BatchResult (F S : Type 0) : Type 0 where
  pub stats : RunStats
  pub store : Option (Store F S)

-- the switch on change.Kind
unfoldable pub count_change : ChangeKind → RunStats → RunStats
count_change inserted s = record s { inserted = suc s.inserted }
count_change updated s = record s { updated = suc s.updated }
count_change unchanged s = record s { unchanged = suc s.unchanged }
count_change stale s = record s { unchanged = suc s.unchanged }
count_change (other _) s = s

unfoldable pub is_news : ChangeKind → Bool
is_news inserted = true
is_news updated = true
is_news _ = false

abbrev pub is_updated : ChangeKind → Bool
is_updated updated = true
is_updated _ = false

module _ {F S : Type 0} ⦃f : Float F⦄ ⦃m : Math F⦄ (services : Services F) (effects : Effects F S)
    (fuel : ℕ) (mode : String) (baseline_complete process_notifications publish_changes : Bool)
    (now : Time) where
  -- a step that runs under a condition
  abbrev run_if : Bool → (S → Option S) → Option S → Option S
  run_if condition step none = none
  run_if true step (some rest) = step rest
  run_if false step (some rest) = some rest

  -- the three conditional steps behind applyEvent
  unfoldable pub after_event : AppliedChange F → Tables F → S → Option S
  unfolding is_news
  after_event change tables rest =
      let news = is_news change.kind in
      let delivered =
        run_if (process_notifications && news && mode == "realtime")
          (effects.create_deliveries change mode baseline_complete now tables) (some rest) in
      let refreshed =
        run_if (process_notifications && is_updated change.kind)
          (effects.refresh change.current now tables) delivered in
      run_if (publish_changes && news) (effects.enqueue change mode baseline_complete now tables)
        refreshed

  -- applyBatch from the statistics and the database that its loop has reached
  unfoldable pub apply_events : RunStats → List (Event F) → Store F S → BatchResult F S
  unfolding apply_event count_change after_event
  apply_events stats [] store = record { stats = stats; store = some store }
  apply_events stats (event ∷ events) store =
      elim (apply_event services now fuel event store.tables) [
        | failed e ↦ record { stats = stats; store = none }
        | done x ↦
            let counted = count_change (AppliedChange.kind x.0) stats in
            elim (after_event x.0 x.1 store.rest) [
              | none ↦ record { stats = counted; store = none }
              | some rest ↦ apply_events counted events (record { tables = x.1; rest = rest })
            ]
      ]

  abbrev first_stats : ℕ → RunStats
  first_stats n = record { fetched = n; inserted = 0; updated = 0; unchanged = 0; invalid = 0 }

  -- applyBatch
  unfoldable pub apply_batch : List (Event F) → Store F S → BatchResult F S
  unfolding apply_events
  apply_batch events store = apply_events (first_stats (length events)) events store

-- a transaction keeps the old database when its function fails
abbrev committed : {A : Type 0} → A → Option A → A
committed old none = old
committed old (some new) = new

-- ApplyBatch: what it returns, and the database behind it
unfoldable pub apply_batch_transaction :
    {F S : Type 0} ⦃f : Float F⦄ ⦃m : Math F⦄
    → Services F
    → Effects F S
    → ℕ
    → List (Event F)
    → String
    → Bool
    → Time
    → Store F S
    → BatchResult F S × Store F S
unfolding apply_batch
apply_batch_transaction services effects fuel events mode baseline_complete now store =
    let result =
      apply_batch services effects fuel mode baseline_complete true false now events store in
    (result, committed store result.store)
