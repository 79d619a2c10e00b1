-- ===== src/Notification/Subscription/Raised.antt =====
-- What each trigger of internal/domain/notification/model.go tells of an event and its predecessor.
use shaker.Prelude.{
  Bool, true, false, ◌≡◌, ◌≢◌, ◌↔◌, ◌<◌, Option, none, some, List, [], ◌∷◌, ◌++◌, ◌≤ℤ◌, arith,
  eq_iff, String, ◌&&◌, ◌||◌, refl, not, ltb,
}
use shaker.Go.Float.{Float, IsIeee, lt, le}
use shaker.Go.Float.Laws.{le-eq-not_lt}
use shaker.Go.Time.{Time, time_sub}
use shaker.Earthquake.Event.{Event}
use shaker.Notification.Subscription.{
  Trigger, new_event, magnitude_threshold_crossed, intensity_threshold_crossed, tsunami_activated,
  alert_level_increased, Subscription, matches, matches_non_magnitude, triggers, alert_severity,
  intensity_triggers, intensity_decision_boundary, when, changes, crosses, is_news, holds,
}

abbrev pub trigger_eq : Trigger → Trigger → Bool
trigger_eq new_event new_event = true
trigger_eq magnitude_threshold_crossed magnitude_threshold_crossed = true
trigger_eq intensity_threshold_crossed intensity_threshold_crossed = true
trigger_eq tsunami_activated tsunami_activated = true
trigger_eq alert_level_increased alert_level_increased = true
trigger_eq _ _ = false

abbrev pub listed : Trigger → List Trigger → Bool
listed t [] = false
listed t (u ∷ us) = trigger_eq t u || listed t us

listed-when : (b : Bool) (t u : Trigger) → listed t (when b u) ≡ (b && trigger_eq t u)
listed-when true t u = ground arith
listed-when false t u = refl

listed-append :
    (t : Trigger) (us vs : List Trigger) → listed t (us ++ vs) ≡ (listed t us || listed t vs)
listed-append t [] vs = refl
listed-append t (u ∷ us) vs = ground (arith, listed-append t us vs)

-- The triggers of a later version, told apart.
listed-flags :
    (a b c : Bool) (t : Trigger)
    → listed t (
        when a magnitude_threshold_crossed
        ++ when b tsunami_activated
        ++ when c alert_level_increased)
      ≡ (a && trigger_eq t magnitude_threshold_crossed
          || b && trigger_eq t tsunami_activated
          || c && trigger_eq t alert_level_increased)
listed-flags a b c t = grind (arith, listed-append, listed-when)

-- The flag is set on an event, and was not on the one before.
abbrev pub IsActivated : Option Bool → Option Bool → Type 0
IsActivated old current = (current ≡ some true) × (old ≢ some true)

module _ {F : Type 0} ⦃f : Float F⦄ where
  -- The magnitude had not reached the limit: unknown, or less.
  abbrev pub IsShort : Option F → F → Type 0
  IsShort none limit = Unit
  IsShort (some value) limit = lt value limit ≡ true

  -- There is a limit, and the magnitude reaches it for the first time.
  abbrev pub Crosses : Option F → Option F → Option F → Type 0
  Crosses (some limit) old (some current) = IsShort old limit × (le limit current ≡ true)
  Crosses _ _ _ = ⊥

  -- A first observation that the subscription wants: live, after the baseline, and recent.
  pub record IsNews (s : Subscription F) (current : Event F) (mode : String) (now : Time)
      (baseline_complete : Bool) : Type 0 where
    pub live : mode ≡ "realtime"
    pub baseline : baseline_complete ≡ true
    pub wanted : s.notify_on_new ≡ true
    pub recent : time_sub now current.occurred_at ≤ℤ s.maximum_event_age

  -- Why a later version raises a trigger.
  abbrev pub Change : Subscription F → Event F → Event F → Trigger → Type 0
  Change s old current new_event = ⊥
  Change s old current magnitude_threshold_crossed =
      (s.notify_on_threshold_crossing ≡ true)
      × Crosses s.minimum_magnitude old.magnitude current.magnitude
  Change s old current intensity_threshold_crossed = ⊥
  Change s old current tsunami_activated =
      (s.notify_on_tsunami_change ≡ true) × IsActivated old.tsunami current.tsunami
  Change s old current alert_level_increased =
      (s.notify_on_alert_increase ≡ true)
      × (alert_severity old.alert_level < alert_severity current.alert_level)

  -- Why a trigger is raised.
  abbrev pub Cause :
      Subscription F → Option (Event F) → Event F → String → Time → Bool → Trigger → Type 0
  Cause s none current mode now baseline_complete t =
      (t ≡ new_event) × IsNews s current mode now baseline_complete
  Cause s (some o) current mode now baseline_complete t = Change s o current t

  -- Why an intensity trigger is raised.
  abbrev pub IntensityCause :
      Subscription F
      → Option (Event F)
      → Event F
      → Option F
      → F
      → String
      → Time
      → Bool
      → Trigger
      → Type 0
  IntensityCause s none current old_upper_mmi boundary mode now baseline_complete t =
      (t ≡ new_event) × IsNews s current mode now baseline_complete
  IntensityCause s (some o) current old_upper_mmi boundary mode now baseline_complete t =
      (t ≡ intensity_threshold_crossed)
      × (s.notify_on_threshold_crossing ≡ true)
      × IsShort old_upper_mmi boundary

  crosses_iff :
      (limit old current : Option F)
      → (crosses limit old current ≡ true) ↔ Crosses limit old current
  crosses_iff limit old current = ground arith

  is_news_iff :
      (s : Subscription F) (current : Event F) (mode : String) (now : Time)
      (baseline_complete : Bool)
      → (is_news s current mode now baseline_complete ≡ true)
        ↔ IsNews s current mode now baseline_complete
  is_news_iff s current mode now baseline_complete = ground (arith, eq_iff mode "realtime")

  listed-changes :
      (s : Subscription F) (o current : Event F) (t : Trigger)
      → (listed t (changes s o current) ≡ true) ↔ Change s o current t
  listed-changes s o current t = rw (listed-flags _ _ _ t) (flags t)
    where
      flags :
          (t : Trigger)
          → (((s.notify_on_threshold_crossing
                    && crosses s.minimum_magnitude o.magnitude current.magnitude)
                  && trigger_eq t magnitude_threshold_crossed
                || (s.notify_on_tsunami_change && holds current.tsunami && not (holds o.tsunami))
                  && trigger_eq t tsunami_activated
                || (s.notify_on_alert_increase
                    && ltb (alert_severity o.alert_level) (alert_severity current.alert_level))
                  && trigger_eq t alert_level_increased)
              ≡ true)
            ↔ Change s o current t
      flags new_event = ground arith
      flags magnitude_threshold_crossed =
          ground (arith, crosses_iff s.minimum_magnitude o.magnitude current.magnitude)
      flags intensity_threshold_crossed = ground arith
      flags tsunami_activated = ground arith
      flags alert_level_increased = ground arith

  -- A trigger is among those of Triggers exactly when the subscription is active, the event matches
  -- it, and the trigger has its cause: a wanted, live and recent first observation after the
  -- baseline, a magnitude that reaches the minimum after one that was unknown or less, a tsunami
  -- flag that was not set before, or an alert level above the former one.
  pub triggers_iff :
      (s : Subscription F) (old : Option (Event F)) (current : Event F) (mode : String) (now : Time)
      (baseline_complete : Bool) (t : Trigger)
      → (listed t (triggers s old current mode now baseline_complete) ≡ true) ↔ (
          (s.status ≡ "active")
          × (matches s current ≡ true)
          × Cause s old current mode now baseline_complete t)
  unfolding triggers
  triggers_iff s none current mode now baseline_complete t =
      ground (arith, eq_iff s.status "active", is_news_iff s current mode now baseline_complete)
  triggers_iff s (some o) current mode now baseline_complete t =
      ground (arith, eq_iff s.status "active", listed-changes s o current t)

  IsShort_not_le : IsIeee F → (a b : F) → lt a b ≡ true → le b a ≡ false
  IsShort_not_le h a b e =
      ground (arith, le-eq-not_lt h b a (h.lt_not_nan a b e).1 (h.lt_not_nan a b e).0)

  crosses_itself : IsIeee F → (limit value : Option F) → crosses limit value value ≡ false
  crosses_itself h (some m) (some x) = ground (arith, IsShort_not_le h x m)
  crosses_itself h (some m) none = refl
  crosses_itself h none value = refl

  -- Where comparison obeys IEEE 754, a version raises no trigger against itself, and no intensity
  -- trigger against its own estimate.
  pub triggers_unchanged :
      IsIeee F
      → (s : Subscription F) (e : Event F) (upper_mmi : F) (mode : String) (now : Time)
        (baseline_complete : Bool)
      → (triggers s (some e) e mode now baseline_complete ≡ [])
        × (intensity_triggers s (some e) e (some upper_mmi) upper_mmi mode now baseline_complete
            ≡ [])
  unfolding triggers intensity_triggers
  triggers_unchanged h s e upper_mmi mode now baseline_complete =
      ground (arith, crosses_itself h s.minimum_magnitude e.magnitude)

  -- An intensity trigger is the only one, and says that the upper estimate reaches the boundary of
  -- an active subscription that the event matches: as a wanted, live and recent first observation
  -- after the baseline, or by a later version whose predecessor had no estimate or one below.
  pub intensity_triggers_iff :
      (s : Subscription F) (threshold : F) (old : Option (Event F)) (current : Event F)
      (old_upper_mmi : Option F) (current_upper_mmi : F) (mode : String) (now : Time)
      (baseline_complete : Bool) (t : Trigger)
      → s.minimum_intensity ≡ some threshold
      → (intensity_triggers s old current old_upper_mmi current_upper_mmi mode now baseline_complete
          ≡ t ∷ [])
        ↔ ((s.status ≡ "active")
            × (lt current_upper_mmi (intensity_decision_boundary threshold) ≡ false)
            × (matches_non_magnitude s current ≡ true)
            × IntensityCause s old current old_upper_mmi
                (intensity_decision_boundary threshold)
                mode
                now
                baseline_complete
                t)
  unfolding intensity_triggers
  intensity_triggers_iff s threshold old current u v mode now baseline_complete t e =
      ground (arith, eq_iff s.status "active", is_news_iff s current mode now baseline_complete)
