-- ===== src/Ingestion/Poll/Laws.antt =====
-- internal/ingestion/service.go: what a poll leaves in the store.
use shaker.Prelude.{
  ◌≡◌, refl, ap, sym, ◌∙◌, ◌⊎◌, inl, inr, Bool, true, false, String, Option, some, List, [], ◌∷◌,
  ◌++◌, ◌≤◌, length, All, arith, Bool-cases, Option-cases, if◌then◌else◌,
}
use mathlib.Core.List.{append-nil, append_assoc}
use shaker.Go.Time.{Time}
use shaker.Go.Text.{◌==◌}
use shaker.Ingestion.Batches.{batches, batches_lem, concat}
use shaker.Ingestion.Poll.{
  Applied, Store, Fetched, World, state_etag, state_last_modified, state_baseline, batch_size,
  apply_batches, set_states, finish, conclude, progress, baseline_complete, mode_of, poll, is_text,
}

-- The applied batches of a list of events.
abbrev pub applied_as : {E : Type 0} → String → Bool → List (List E) → List (Applied E)
applied_as mode baseline [] = []
applied_as mode baseline (b ∷ bs) =
    record { events = b; mode = mode; baseline = baseline } ∷ applied_as mode baseline bs

-- The events of applied batches, in their order.
abbrev pub applied_events : {E : Type 0} → List (Applied E) → List E
applied_events [] = []
applied_events (a ∷ rest) = a.events ++ applied_events rest

-- A batch of at least one event and no more than the batch size, applied in a mode.
abbrev pub IsBatch : {E : Type 0} → String → Bool → Applied E → Type 0
IsBatch mode baseline a =
    (a.mode ≡ mode)
    × (a.baseline ≡ baseline)
    × (1 ≤ length a.events)
    × (length a.events ≤ batch_size)

applied_events-applied_as :
    {E : Type 0} (mode : String) (baseline : Bool) (bs : List (List E))
    → applied_events (applied_as mode baseline bs) ≡ concat bs
applied_events-applied_as mode baseline [] = refl
applied_events-applied_as mode baseline (b ∷ bs) =
    ap (λ es. b ++ es) (applied_events-applied_as mode baseline bs)

applied_as-IsBatch :
    {E : Type 0} (mode : String) (baseline : Bool) (bs : List (List E))
    → All (λ b. (1 ≤ length b) × (length b ≤ batch_size)) bs
    → All (IsBatch mode baseline) (applied_as mode baseline bs)
applied_as-IsBatch mode baseline [] h = tt
applied_as-IsBatch mode baseline (b ∷ bs) h =
    ((refl, refl, h.0.0, h.0.1), applied_as-IsBatch mode baseline bs h.1)

-- The values of some keys over those of the others.
abbrev pub overlay : List (String × String) → (String → Option String) → String → Option String
overlay [] state = state
overlay ((key, value) ∷ rest) state = overlay rest (λ k. if k == key then some value else state k)

module _ {E : Type 0} (w : World E) where
  apply_batches-state :
      (mode : String) (baseline : Bool) (bs : List (List E)) (s : Store E)
      → (apply_batches w mode baseline bs s).0.state ≡ s.state
  unfolding apply_batches
  apply_batches-state mode baseline [] s = refl
  apply_batches-state mode baseline (b ∷ bs) s = elim (Bool-cases (w.apply_ok b)) [
    | inl e ↦ rw e (apply_batches-state mode baseline bs _)
    | inr e ↦ rw e refl
  ]

  apply_batches-applied :
      (mode : String) (baseline : Bool) (bs : List (List E)) (s : Store E)
      → (apply_batches w mode baseline bs s).1 ≡ true
      → (apply_batches w mode baseline bs s).0.applied ≡ s.applied ++ applied_as mode baseline bs
  unfolding apply_batches
  apply_batches-applied mode baseline [] s h = sym (append-nil s.applied)
  apply_batches-applied mode baseline (b ∷ bs) s h = elim (Bool-cases (w.apply_ok b)) [
    | inl e ↦
        rw e (apply_batches-applied mode baseline bs _ (rw e at h) ∙ append_assoc s.applied _ _)
    | inr e ↦ cc (rw e at h)
  ]

  set_states-applied :
      (kvs : List (String × String)) (s : Store E) → (set_states w kvs s).0.applied ≡ s.applied
  unfolding set_states
  set_states-applied [] s = refl
  set_states-applied ((key, value) ∷ rest) s = elim (Bool-cases (w.set_ok key)) [
    | inl e ↦ rw e (set_states-applied rest _)
    | inr e ↦ rw e refl
  ]

  set_states-overlay :
      (kvs : List (String × String)) (s : Store E)
      → (set_states w kvs s).1 ≡ true
      → (set_states w kvs s).0.state ≡ overlay kvs s.state
  unfolding set_states
  set_states-overlay [] s h = refl
  set_states-overlay ((key, value) ∷ rest) s h = elim (Bool-cases (w.set_ok key)) [
    | inl e ↦ rw e (set_states-overlay rest _ (rw e at h))
    | inr e ↦ cc (rw e at h)
  ]

  finish-state :
      (t : String) (s : Store E)
      → ((finish w t s).state ≡ s.state) × ((finish w t s).applied ≡ s.applied)
  finish-state t s = elim (Bool-cases w.finish_ok) [
    | inl e ↦ rw e (refl, refl)
    | inr e ↦ rw e (refl, refl)
  ]

  conclude-applied :
      (stored : Store E) (r : Store E × Bool) → (conclude w true stored r).0.applied ≡ r.0.applied
  conclude-applied stored (last, true) = (finish-state "succeeded" last).1
  conclude-applied stored (last, false) = (finish-state "failed" last).1

  -- A poll that reaches the store has fetched events and concludes on their batches.
  poll-cases :
      (now : Time) (s : Store E)
      → (((poll w now s).0.state ≡ s.state) × ((poll w now s).1 ≡ false))
        ⊎ ((fetched : Fetched E) × (w.fetch (s.state state_etag) (s.state state_last_modified)
              ≡ some fetched)
            × (poll w now s ≡ (
                let r =
                  apply_batches w
                    (mode_of w s)
                    (baseline_complete w s)
                    (batches batch_size fetched.events)
                    s in
                conclude w r.1 r.0
                  (set_states w (progress w fetched (baseline_complete w s) now) r.0))))
  unfolding poll
  poll-cases now s = elim (Bool-cases w.read_ok) [
    | inr e ↦ inl (rw e (refl, refl))
    | inl e ↦ elim (Bool-cases w.start_ok) [
      | inr e2 ↦ inl (rw (e, e2) (refl, refl))
      | inl e2 ↦ elim (Option-cases (w.fetch (s.state state_etag) (s.state state_last_modified))) [
        | inl n ↦ inl (rw (e, e2, n) ((finish-state "failed" s).0, refl))
        | inr (fetched, k) ↦ inr (fetched, k, rw (e, e2, k) refl)
      ]
    ]
  ]

  poll-batches :
      (now : Time) (s : Store E)
      → ((poll w now s).0.state ≡ s.state)
        ⊎ ((fetched : Fetched E) × (w.fetch (s.state state_etag) (s.state state_last_modified)
              ≡ some fetched)
            × ((poll w now s).0.applied
                ≡ s.applied
                  ++ applied_as
                      (mode_of w s)
                      (baseline_complete w s)
                      (batches batch_size fetched.events)))
  poll-batches now s = elim (poll-cases now s) [
    | inl (same, failed) ↦ inl same
    | inr (fetched, k, e) ↦
        let bs = batches batch_size fetched.events in
        let mode = mode_of w s in
        let baseline = baseline_complete w s in
        elim (Bool-cases (apply_batches w mode baseline bs s).1) [
          | inr failed ↦ inl (
              rw e
                (rw failed ((finish-state "failed" _).0 ∙ apply_batches-state mode baseline bs s)))
          | inl applied ↦ inr (
            fetched,
            k,
            rw e (
                rw applied (
                  conclude-applied (apply_batches w mode baseline bs s).0 _
                  ∙ set_states-applied (progress w fetched baseline now) _
                  ∙ apply_batches-applied mode baseline bs s applied)),
          )
        ]
  ]

  -- A poll changes no state of the provider (validators, checkpoint, end of the baseline), or it
  -- has applied exactly the events that it fetched, in their order, in batches that are neither empty
  -- nor above the batch size, all in the mode of the poll.
  pub poll-state :
      (now : Time) (s : Store E)
      → ((poll w now s).0.state ≡ s.state)
        ⊎ ((fetched : Fetched E) × (w.fetch (s.state state_etag) (s.state state_last_modified)
              ≡ some fetched)
            × ((news : List (Applied E)) × ((poll w now s).0.applied ≡ s.applied ++ news)
                × (applied_events news ≡ fetched.events)
                × All (IsBatch (mode_of w s) (baseline_complete w s)) news))
  poll-state now s = elim (poll-batches now s) [
    | inl same ↦ inl same
    | inr (fetched, k, e) ↦
        let bs = batches batch_size fetched.events in
        let cut = batches_lem batch_size fetched.events (omega arith) in
        inr (
          fetched,
          k,
          (
            applied_as (mode_of w s) (baseline_complete w s) bs,
            e,
            applied_events-applied_as (mode_of w s) (baseline_complete w s) bs ∙ cut.0,
            applied_as-IsBatch (mode_of w s) (baseline_complete w s) bs cut.1,
          ),
        )
  ]

  conclude-succeeded :
      (b : Bool) (stored : Store E) (r : Store E × Bool)
      → (conclude w b stored r).1 ≡ true
      → (b ≡ true)
        × (r.1 ≡ true)
        × ((conclude w b stored r).0.state ≡ r.0.state)
        × ((conclude w b stored r).0.applied ≡ r.0.applied)
  conclude-succeeded false stored r h = cc
  conclude-succeeded true stored (last, false) h = cc
  conclude-succeeded true stored (last, true) h =
      let f = finish-state "succeeded" last in (refl, refl, f.0, f.1)

  progress-baseline :
      (fetched : Fetched E) (now : Time) (state : String → Option String)
      → is_text
          (overlay
            (progress w fetched (is_text (state state_baseline) "true") now)
            state
            state_baseline)
          "true"
        ≡ true
  progress-baseline fetched now state = elim (Bool-cases (is_text (state state_baseline) "true")) [
    | inl b ↦ elim (Bool-cases (fetched.etag == "")) [
      | inl e ↦ elim (Bool-cases (fetched.last_modified == "")) [
        | inl m ↦ rw (b, e, m) b
        | inr m ↦ rw (b, e, m) b
      ]
      | inr e ↦ elim (Bool-cases (fetched.last_modified == "")) [
        | inl m ↦ rw (b, e, m) b
        | inr m ↦ rw (b, e, m) b
      ]
    ]
    | inr b ↦ elim (Bool-cases (fetched.etag == "")) [
      | inl e ↦ elim (Bool-cases (fetched.last_modified == "")) [
        | inl m ↦ rw (b, e, m) refl
        | inr m ↦ rw (b, e, m) refl
      ]
      | inr e ↦ elim (Bool-cases (fetched.last_modified == "")) [
        | inl m ↦ rw (b, e, m) refl
        | inr m ↦ rw (b, e, m) refl
      ]
    ]
  ]

  -- A poll that succeeds has applied everything that it fetched, under the mode and the flag that the
  -- baseline had before, and leaves the baseline complete: later polls are live.
  pub poll-baseline_complete :
      (now : Time) (s : Store E)
      → (poll w now s).1 ≡ true
      → (baseline_complete w (poll w now s).0 ≡ true)
        × ((fetched : Fetched E) × (w.fetch (s.state state_etag) (s.state state_last_modified)
              ≡ some fetched)
            × ((poll w now s).0.applied
                ≡ s.applied
                  ++ applied_as
                      (mode_of w s)
                      (baseline_complete w s)
                      (batches batch_size fetched.events)))
  poll-baseline_complete now s h = elim (poll-cases now s) [
    | inl (same, failed) ↦ cc
    | inr (fetched, k, e) ↦
        let bs = batches batch_size fetched.events in
        let mode = mode_of w s in
        let baseline = baseline_complete w s in
        let stored = (apply_batches w mode baseline bs s).0 in
        let kvs = progress w fetched baseline now in
        let (applied, done, state, kept) =
          conclude-succeeded _ stored (set_states w kvs stored) (rw e at h) in
        let over =
          state
          ∙ set_states-overlay kvs stored done
          ∙ ap (overlay kvs) (apply_batches-state mode baseline bs s) in
        (
          rw e (rw over (progress-baseline fetched now s.state)),
          (
            fetched,
            k,
            rw e (
                kept
                ∙ set_states-applied kvs stored
                ∙ apply_batches-applied mode baseline bs s applied),
          ),
        )
  ]
