-- ===== src/Repository/Deliveries/Counts.antt =====
-- internal/repository/postgres/repository.go: what createDeliveries adds, and its audit.
use shaker.Prelude.{
  ℕ, suc, ◌+◌, ◌≤◌, ◌≡◌, refl, sym, ap, subst, inl, inr, Bool, String, Option, none, some, List, [],
  ◌∷◌, ◌++◌, length, All, arith, Option-cases,
}
use shaker.Go.Float.{Float, Math, lit}
use shaker.Go.Time.{Time}
use shaker.Notification.Subscription.{
  Subscription, Trigger, intensity_triggers, intensity_decision_boundary,
}
use shaker.Notification.Delivery.{Delivery}
use shaker.Shaking.{Logs, candidate_radius_km, estimate_at}
use shaker.Repository.Tables.{Tables, AppliedChange, Services}
use shaker.Repository.Notices.{Counters, Audit, Notices, Outside, provider_source_links}
use shaker.Repository.Selection.{select_subscriptions, by_intensity, area_of, distance_km}
use shaker.Repository.Deliveries.{
  with_counters, no_counts, count_decision, old_upper, match_subscription, match_all,
  create_deliveries,
}
use shaker.Repository.Deliveries.Added.{some_injective, IsNew, Adds, Adds-self, notify_all-Grows}

count_decision_lem :
    (ts : List Trigger) (c : Counters)
    → let d = count_decision ts c in
      (d.notify + d.below_threshold ≡ suc (c.notify + c.below_threshold))
      × (d.intensity_candidates ≡ c.intensity_candidates)
      × (d.intensity_evaluations ≡ c.intensity_evaluations)
      × (d.estimate_errors ≡ c.estimate_errors)
unfolding count_decision
count_decision_lem [] c = ground arith
count_decision_lem (t ∷ ts) c = ground arith

module _ {F : Type 0} ⦃f : Float F⦄ ⦃m : Math F⦄ ⦃l : Logs F⦄ (outside : Outside F)
    (change : AppliedChange F) (mode : String) (baseline : Bool) (now : Time)
    (links : List (String × String)) (old : Notices F) where
  -- The counters of a state balance, and it has grown from the old notices.
  pub record IsBalanced (n : ℕ) (state : Counters × Notices F) : Type 0 where
    pub candidates :
        state.0.intensity_candidates ≡ state.0.intensity_evaluations + state.0.estimate_errors
    pub evaluations : state.0.intensity_evaluations ≡ state.0.notify + state.0.below_threshold
    pub at_most : state.0.intensity_candidates ≤ n
    pub grows : Adds change.current.id change.current.version old state.1

  with_counters_lem :
      (c : Counters) (r : Option (Notices F)) (later : Counters × Notices F)
      → with_counters c r ≡ some later
      → (later.0 ≡ c) × (r ≡ some later.1)
  with_counters_lem c none later e = cc
  with_counters_lem c (some notices) later e =
      (ap (λ x. x.0) (sym (some_injective e)), ap (λ x. some x.1) (some_injective e))

  match_subscription-IsBalanced :
      (n : ℕ) (s : Subscription F) (c : Counters) (notices : Notices F)
      (later : Counters × Notices F)
      → IsBalanced n (c, notices)
      → match_subscription outside change mode baseline now links s (c, notices) ≡ some later
      → IsBalanced (suc n) later
  unfolding match_subscription count_decision
  match_subscription-IsBalanced n s c notices later b e =
      let distance = distance_km outside change.current (area_of s) in
      let current = record change.current { distance_km = distance } in
      elim (Option-cases (by_intensity s distance)) [
        | inl plain ↦
            let split = with_counters_lem _ _ later (rw (match_subscription, plain) at e) in
            record {
              candidates = ground (arith, split.0, b.candidates);
              evaluations = ground (arith, split.0, b.evaluations);
              at_most = ground (arith, split.0, b.at_most);
              grows =
                  notify_all-Grows outside change mode baseline now links old s current none _
                    notices later.1 refl refl b.grows split.1;
            }
        | inr (place, known) ↦
            elim (Option-cases (
              estimate_at outside.trim change.current.magnitude change.current.depth_km place.1
                change.current.magnitude_type)) [
                  | inl missing ↦
                      subst (IsBalanced (suc n))
                        (some_injective (rw (match_subscription, known, missing) at e))
                        (record {
                          candidates = ground (arith, b.candidates);
                          evaluations = b.evaluations;
                          at_most = ground (arith, b.at_most);
                          grows = b.grows;
                        })
                  | inr (estimate, made) ↦
                      let evaluated : Counters = record c {
                        intensity_candidates = suc c.intensity_candidates;
                        intensity_evaluations = suc c.intensity_evaluations;
                      } in
                      let raised =
                        intensity_triggers s change.previous current
                          (old_upper outside change mode baseline now links change.previous
                            (area_of s))
                          estimate.upper_mmi mode now baseline in
                      let counts = count_decision_lem raised evaluated in
                      let (counted, notified) =
                        with_counters_lem _ _ later (rw (match_subscription, known, made) at e) in
                      record {
                        candidates = ground (arith, counted, counts, b.candidates);
                        evaluations = ground (arith, counted, counts, b.evaluations);
                        at_most = ground (arith, counted, counts, b.at_most);
                        grows =
                            notify_all-Grows outside change mode baseline now links old s current
                              (some estimate) raised _ later.1 refl refl
                              (record {
                                added = b.grows.added;
                                deliveries = b.grows.deliveries;
                                all_new = b.grows.all_new;
                                audits = b.grows.audits;
                              })
                              notified;
                      }
                ]
      ]

  match_all-IsBalanced :
      (n : ℕ) (ss : List (Subscription F)) (state later : Counters × Notices F)
      → IsBalanced n state
      → match_all outside change mode baseline now links ss state ≡ some later
      → IsBalanced (n + length ss) later
  unfolding match_all
  match_all-IsBalanced n [] state later b e =
      let same = subst (IsBalanced n) (some_injective e) b in
      record {
        candidates = same.candidates;
        evaluations = same.evaluations;
        at_most = omega (arith, same.at_most);
        grows = same.grows;
      }
  match_all-IsBalanced n (s ∷ ss) state later b e =
      elim (Option-cases (match_subscription outside change mode baseline now links s state)) [
        | inl fails ↦ cc (rw (match_all, fails) at e)
        | inr (next, works) ↦
            let stepped = match_subscription-IsBalanced n s state.0 state.1 next b works in
            let rest =
              match_all-IsBalanced (suc n) ss next later stepped (rw (match_all, works) at e) in
            record {
              candidates = rest.candidates;
              evaluations = rest.evaluations;
              at_most = omega (arith, rest.at_most);
              grows = rest.grows;
            }
      ]

module _ {F : Type 0} ⦃f : Float F⦄ ⦃m : Math F⦄ ⦃l : Logs F⦄ where
  -- What a change adds to the notices: waiting deliveries of its version, and an audit that balances.
  pub record IsAudited (change : AppliedChange F) (old later : Notices F) : Type 0 where
    pub audit : Audit F
    pub added : List Delivery
    pub audits : later.audits ≡ audit ∷ old.audits
    pub deliveries : later.deliveries ≡ added ++ old.deliveries
    pub all_new : All (IsNew change.current.id change.current.version) added
    pub about :
        (audit.earthquake_id ≡ change.current.id)
        × (audit.earthquake_version ≡ change.current.version)
    pub candidates :
        audit.counters.intensity_candidates
        ≡ audit.counters.intensity_evaluations + audit.counters.estimate_errors
    pub evaluations :
        audit.counters.intensity_evaluations
        ≡ audit.counters.notify + audit.counters.below_threshold
    pub at_most : audit.counters.intensity_candidates ≤ audit.selected

  -- A successful createDeliveries changes no delivery that exists, adds deliveries that wait for their
  -- first attempt (pending, never tried, locked by nobody, not sent) and are of the version of the change, and adds one audit of it, in which every
  -- candidate by intensity has an evaluation or an error, every evaluation has a decision, and the
  -- candidates are at most the selected subscriptions.
  pub create_deliveries-IsAudited :
      (services : Services F) (outside : Outside F) (change : AppliedChange F) (mode : String)
      (baseline : Bool) (now : Time) (db : Tables F) (old later : Notices F)
      → create_deliveries services outside change mode baseline now db old ≡ some later
      → IsAudited change old later
  unfolding create_deliveries
  create_deliveries-IsAudited services outside change mode baseline now db old later e =
      let minimum = intensity_decision_boundary (lit 2) in
      let radius = candidate_radius_km change.current.magnitude change.current.depth_km minimum in
      let selected = select_subscriptions services change.current radius old.subscriptions in
      let links = provider_source_links change.current.id db in
      elim (Option-cases
        (match_all outside change mode baseline now links selected (no_counts, old))) [
          | inl fails ↦ cc (rw (create_deliveries, fails) at e)
          | inr (state, works) ↦
              let b =
                match_all-IsBalanced outside change mode baseline now links old 0 selected
                  (no_counts, old) state
                  (record {
                    candidates = refl;
                    evaluations = refl;
                    at_most = omega arith;
                    grows = Adds-self change.current.id change.current.version old;
                  })
                  works in
              let audit : Audit F = record {
                earthquake_id = change.current.id;
                earthquake_version = change.current.version;
                mode = mode;
                baseline_complete = baseline;
                candidate_minimum_mmi = minimum;
                candidate_radius_km = radius;
                selected = length selected;
                counters = state.0;
                created_at = now;
              } in
              subst (IsAudited change old) (some_injective (rw (create_deliveries, works) at e))
                (record {
                  audit = audit;
                  added = b.grows.added;
                  audits = ap (λ rows. audit ∷ rows) b.grows.audits;
                  deliveries = b.grows.deliveries;
                  all_new = b.grows.all_new;
                  about = (refl, refl);
                  candidates = b.candidates;
                  evaluations = b.evaluations;
                  at_most = omega (arith, b.at_most);
                })
        ]
