-- ===== src/Ingestion/Poll.antt =====
-- internal/ingestion/service.go: ApplyRealtime, Poll and RecoveryRange, over the store of the
-- repository.
pub mod Laws
use shaker.Prelude.{
  ℕ, Bool, true, false, not, String, Option, none, some, List, [], ◌∷◌, ◌++◌, pos, ◌-ℤ◌, leb_ℤ,
  if◌then◌else◌, ◌*◌,
}
use shaker.Go.Time.{Time, Duration, time_sub, hour}
use shaker.Go.Text.{◌==◌}
use shaker.Ingestion.Batches.{batches}

-- A batch that the repository has applied, with its mode and the baseline flag that allows alerts.
pub record Applied (E : Type 0) : Type 0 where
  pub events : List E
  pub mode : String
  pub baseline : Bool

-- What the service writes of the repository: the provider's state, the batches and the finished runs.
pub record Store (E : Type 0) : Type 0 where
  pub state : String → Option String
  pub applied : List (Applied E)
  pub runs : List String

-- What happens outside: which calls of the repository succeed, and what the provider sends.
pub record Fetched (E : Type 0) : Type 0 where
  pub events : List E
  pub etag : String
  pub last_modified : String

pub record World (E : Type 0) : Type 0 where
  pub read_ok : Bool
  pub start_ok : Bool
  pub apply_ok : List E → Bool
  pub set_ok : String → Bool
  pub finish_ok : Bool
  -- FetchRealtime, given the validators; `none` is an error
  pub fetch : Option String → Option String → Option (Fetched E)
  -- now.Format(time.RFC3339Nano)
  pub format_time : Time → String

abbrev pub state_etag : String
state_etag = "realtime_etag"

abbrev pub state_last_modified : String
state_last_modified = "realtime_last_modified"

abbrev pub state_checkpoint : String
state_checkpoint = "realtime_checkpoint"

abbrev pub state_baseline : String
state_baseline = "baseline_completed"

abbrev pub batch_size : ℕ
batch_size = 250

abbrev pub is_text : Option String → String → Bool
is_text none t = false
is_text (some s) t = s == t

module _ {E : Type 0} (w : World E) where
  -- ApplyBatch: a batch that fails leaves nothing
  abbrev pub apply_batch : String → Bool → List E → Store E → Store E × Bool
  apply_batch mode baseline events s =
      if w.apply_ok events
      then (
        record s {
          applied = s.applied ++ record { events = events; mode = mode; baseline = baseline } ∷ [];
        },
        true,
      )
      else (s, false)

  -- The loop over the batches, which stops at the first error.
  unfoldable pub apply_batches : String → Bool → List (List E) → Store E → Store E × Bool
  apply_batches mode baseline [] s = (s, true)
  apply_batches mode baseline (b ∷ bs) s =
      let (after, applied) = apply_batch mode baseline b s in
      let (last, finished) = apply_batches mode baseline bs after in
      if applied then (last, finished) else (after, false)

  -- SetState
  abbrev pub set_state : String → String → Store E → Store E × Bool
  set_state key value s =
      if w.set_ok key
      then (record s { state = λ k. if k == key then some value else s.state k }, true)
      else (s, false)

  unfoldable pub set_states : List (String × String) → Store E → Store E × Bool
  set_states [] s = (s, true)
  set_states ((key, value) ∷ rest) s =
      let (after, done) = set_state key value s in
      let (last, finished) = set_states rest after in
      if done then (last, finished) else (after, false)

  -- FinishRun; the error of a run that ends is only logged
  abbrev pub finish : String → Store E → Store E
  finish status s = if w.finish_ok then record s { runs = s.runs ++ status ∷ [] } else s

  -- The end of a poll: the batches that were all applied or not, and the writes after them.
  abbrev pub conclude : Bool → Store E → Store E × Bool → Store E × Bool
  conclude false stored written = (finish "failed" stored, false)
  conclude true stored (last, false) = (finish "failed" last, false)
  conclude true stored (last, true) = (finish "succeeded" last, true)

  -- The writes after the batches: validators that the provider sent, the checkpoint, and the end of
  -- the baseline.
  abbrev pub progress : Fetched E → Bool → Time → List (String × String)
  progress fetched baseline now =
      (if fetched.etag == "" then [] else (state_etag, fetched.etag) ∷ [])
      ++ (if fetched.last_modified == ""
          then []
          else (state_last_modified, fetched.last_modified) ∷ [])
      ++ (state_checkpoint, w.format_time now) ∷ []
      ++ (if baseline then [] else (state_baseline, "true") ∷ [])

  abbrev pub baseline_complete : Store E → Bool
  baseline_complete s = is_text (s.state state_baseline) "true"

  abbrev pub mode_of : Store E → String
  mode_of s = if baseline_complete s then "realtime" else "baseline"

  -- Poll: the store after it, and whether it succeeded
  unfoldable pub poll : Time → Store E → Store E × Bool
  unfolding apply_batches set_states batches
  poll now s =
      if not w.read_ok
      then (s, false)
      else if not w.start_ok
      then (s, false)
      else elim (w.fetch (s.state state_etag) (s.state state_last_modified)) [
        | none ↦ (finish "failed" s, false)
        | some fetched ↦
            let (stored, applied) =
              apply_batches (mode_of s) (baseline_complete s) (batches batch_size fetched.events)
                s in
            conclude applied stored (set_states (progress fetched (baseline_complete s) now) stored)
      ]

  -- ApplyRealtime: an error in finishing the run is one of the call
  unfoldable pub apply_realtime : Time → E → Store E → Store E × Bool
  apply_realtime now event s =
      if not w.start_ok
      then (s, false)
      else let (stored, applied) = apply_batch "realtime" true (event ∷ []) s in
        let (last, done) = set_state state_checkpoint (w.format_time now) stored in
        if not applied
        then (finish "failed" stored, false)
        else if not done
        then (finish "failed" last, false)
        else (finish "succeeded" last, w.finish_ok)

  -- RecoveryRange: `parse_time` is time.Parse, and `none` is an error, of the
  -- repository or of the checkpoint
  unfoldable pub recovery_range :
      (String → Option Time) → Duration → Time → Store E → Option (Option (Time × Time))
  recovery_range parse_time overlap now s =
      if not w.read_ok then none else elim (s.state state_checkpoint) [
        | none ↦ some none
        | some value ↦ elim (parse_time value) [
          | none ↦ none
          | some checkpoint ↦
              if leb_ℤ (time_sub now checkpoint) (pos (24 * hour))
              then some none
              else some (some (checkpoint -ℤ overlap, now))
        ]
      ]
