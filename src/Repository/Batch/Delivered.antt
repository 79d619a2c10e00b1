-- ===== src/Repository/Batch/Delivered.antt =====
-- internal/repository/postgres/messaging.go: ApplyProviderMessage with applyBatch as its effect.
use shaker.Prelude.{
  ℕ, ◌≡◌, Bool, true, false, String, Option, some, [], ◌∷◌, none, false, if◌then◌else◌,
  ◌==◌ as nat_eq,
}
use shaker.Go.Float.{Float, Math}
use shaker.Go.Time.{Time}
use shaker.Go.Text.{◌==◌}
use shaker.Earthquake.Event.{Uuid, Event}
use shaker.Messaging.Inbox.{MessagePosition, Database, applied, Outcome}
use shaker.Repository.Tables.{Tables, AppliedChange, Services, failed}
use shaker.Repository.Constraints.{admits}
use shaker.Repository.Batch.{Effects, Store, is_news, apply_batch}

module _ {F S : Type 0} ⦃f : Float F⦄ ⦃m : Math F⦄ (services : Services F) (effects : Effects F S)
    (fuel : ℕ) where
  -- the call of applyBatch in ApplyProviderMessage: one event, published but not delivered
  unfoldable pub apply_observation : Event F → String → Bool → Time → Store F S → Option (Store F S)
  unfolding apply_batch
  apply_observation event mode baseline_complete received_at store =
      (apply_batch services effects fuel mode baseline_complete false true received_at (event ∷ [])
        store).store

module _ {F S : Type 0} ⦃f : Float F⦄ ⦃m : Math F⦄ (services : Services F) (effects : Effects F S)
    (fuel : ℕ) where
  -- What publishing a change leaves of the rest of the database, if it works.
  abbrev pub published : String → Bool → Time → AppliedChange F × Tables F → S → Option S
  published mode baseline_complete received_at x rest =
      if is_news (AppliedChange.kind x.0)
      then effects.enqueue x.0 mode baseline_complete received_at x.1 rest
      else some rest

  -- The three ends of the call of applyBatch for a change and its tables.
  pub data IsEnd (mode : String) (baseline_complete : Bool) (received_at : Time) (event : Event F)
      (store : Store F S) (x : AppliedChange F × Tables F) (after : Option (Store F S))
      : Type 0 where
    kept :
        (rest : S)
        → admits services event x.1 ≡ true
        → published mode baseline_complete received_at x store.rest ≡ some rest
        → after ≡ some (record { tables = x.1; rest = rest })
        → IsEnd mode baseline_complete received_at event store x after
    unpublished :
        admits services event x.1 ≡ true
        → published mode baseline_complete received_at x store.rest ≡ none
        → after ≡ none
        → IsEnd mode baseline_complete received_at event store x after
    inadmissible :
        admits services event x.1 ≡ false
        → after ≡ none
        → IsEnd mode baseline_complete received_at event store x after

  -- the end of a transaction for the end of its effect
  abbrev pub outcome :
      MessagePosition → Uuid → Database (Store F S) → Option (Store F S) → Outcome (Store F S)
  outcome p id db none = Outcome.failed
  outcome p id db (some after) =
      applied
        (record { inbox = record { message_id = id; position = p } ∷ db.inbox; state = after })
