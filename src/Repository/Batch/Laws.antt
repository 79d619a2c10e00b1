-- ===== src/Repository/Batch/Laws.antt =====
-- The statistics of a batch.
use shaker.Prelude.{
  ℕ, suc, ◌+◌, ◌≤◌, ◌≡◌, ◌∙◌, inl, inr, Bool, true, String, Option, some, List, [], ◌∷◌, length,
  arith, Option-cases,
}
use shaker.Go.Float.{Float, Math}
use shaker.Go.Time.{Time}
use shaker.Earthquake.Event.{Event, ChangeKind}
use shaker.Repository.Tables.{Tables, AppliedChange, Services}
use shaker.Repository.Events.{apply_event}
use shaker.Repository.Events.Outcomes.{is_change_kind, Result-cases}
use shaker.Repository.Events.Kinds.{apply_event-is_change_kind}
use shaker.Repository.Batch.{
  RunStats, Effects, Store, BatchResult, count_change, after_event, apply_events, apply_batch,
}

abbrev pub counted : RunStats → ℕ
counted s = s.inserted + s.updated + s.unchanged

-- What the statistics of a batch of some number of events say.
pub record IsCounted {F S : Type 0} (n : ℕ) (result : BatchResult F S) : Type 0 where
  pub fetched : result.stats.fetched ≡ n
  pub at_most : counted result.stats ≤ n
  pub all : (after : Store F S) → result.store ≡ some after → counted result.stats ≡ n

counted-count_change :
    (k : ChangeKind) (s : RunStats)
    → is_change_kind k ≡ true
    → counted (count_change k s) ≡ suc (counted s)
unfolding count_change
counted-count_change k s known = ground arith

fetched-count_change : (k : ChangeKind) (s : RunStats) → (count_change k s).fetched ≡ s.fetched
unfolding count_change
fetched-count_change k s = ground arith

module _ {F S : Type 0} ⦃f : Float F⦄ ⦃m : Math F⦄ (services : Services F) (effects : Effects F S)
    (fuel : ℕ) (mode : String) (baseline_complete process_notifications publish_changes : Bool)
    (now : Time) where
  abbrev run : RunStats → List (Event F) → Store F S → BatchResult F S
  run =
      apply_events services effects fuel mode baseline_complete process_notifications
        publish_changes now

  abbrev step : AppliedChange F → Tables F → S → Option S
  step =
      after_event services effects fuel mode baseline_complete process_notifications publish_changes
        now

  -- What the statistics of a batch say of its events.
  abbrev Adds : RunStats → ℕ → BatchResult F S → Type 0
  Adds stats n result =
      (result.stats.fetched ≡ stats.fetched)
      × (counted result.stats ≤ counted stats + n)
      × ((store : Store F S) → result.store ≡ some store → counted result.stats ≡ counted stats + n)

  apply_events-Adds :
      (stats : RunStats) (events : List (Event F)) (store : Store F S)
      → Adds stats (length events) (run stats events store)
  unfolding apply_events
  apply_events-Adds stats [] store = ground arith
  apply_events-Adds stats (event ∷ events) store =
      elim (Result-cases (apply_event services now fuel event store.tables)) [
        | inl (error, failure) ↦ rw (apply_events, failure) (ground arith)
        | inr (x, succeeds) ↦
            let known =
              apply_event-is_change_kind services now fuel event store.tables x succeeds in
            let counted_one = counted-count_change x.0.kind stats known in
            let fetched = fetched-count_change x.0.kind stats in
            elim (Option-cases (step x.0 x.1 store.rest)) [
              | inl stops ↦
                  rw (apply_events, succeeds, stops)
                    (fetched, omega (arith, counted_one), λ s e. cc)
              | inr (rest, goes_on) ↦
                  let later =
                    apply_events-Adds (count_change x.0.kind stats) events
                      (record { tables = x.1; rest = rest }) in
                  rw (apply_events, succeeds, goes_on)
                    (
                      later.0 ∙ fetched,
                      omega (arith, counted_one, later.1),
                      λ s e. omega (arith, counted_one, later.2 s e),
                    )
            ]
      ]

  -- A batch has fetched its events, counts each of them at most once as inserted, updated or
  -- unchanged, and counts all of them where it is not rolled back.
  pub apply_batch-IsCounted :
      (events : List (Event F)) (store : Store F S)
      → IsCounted (length events) (
          apply_batch services effects fuel mode baseline_complete process_notifications
            publish_changes now events store)
  unfolding apply_batch
  apply_batch-IsCounted events store =
      let (fetched, most, all) =
        apply_events-Adds
          (record {
            fetched = length events;
            inserted = 0;
            updated = 0;
            unchanged = 0;
            invalid = 0;
          })
          events store in
      record {
        fetched = fetched;
        at_most = omega (arith, most);
        all = λ after e. omega (arith, all after e);
      }
