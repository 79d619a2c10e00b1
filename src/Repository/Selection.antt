-- ===== src/Repository/Selection.antt =====
-- internal/repository/postgres/repository.go: the subscriptions that a change concerns, and the row
-- of a delivery.
use shaker.Prelude.{
  ℕ, Bool, true, false, ◌&&◌, String, Option, none, some, List, [], ◌∷◌, ℤ, eqb_ℤ, if◌then◌else◌,
  ◌==◌ as nat_eq,
}
use shaker.Go.Float.{Float, lt, lit, mul, div}
use shaker.Go.Time.{Time}
use shaker.Go.Text.{◌==◌}
use shaker.Go.Sql.{any_where}
use shaker.Earthquake.Event.{Uuid, Event}
use shaker.Notification.Subscription.{
  Subscription, Trigger, new_event, magnitude_threshold_crossed, intensity_threshold_crossed,
  tsunami_activated, alert_level_increased,
}
use shaker.Notification.Delivery.{Delivery, pending}
use shaker.Repository.Tables.{Services}
use shaker.Repository.Notices.{Outside}

-- string(trigger)
unfoldable pub trigger_text : Trigger → String
trigger_text new_event = "new_event"
trigger_text magnitude_threshold_crossed = "magnitude_threshold_crossed"
trigger_text intensity_threshold_crossed = "intensity_threshold_crossed"
trigger_text tsunami_activated = "tsunami_activated"
trigger_text alert_level_increased = "alert_level_increased"

-- the row of the INSERT
unfoldable pub new_delivery : Uuid → Uuid → Uuid → ℤ → String → List ℕ → Time → Delivery
new_delivery id subscription_id earthquake_id version trigger payload now = record {
  id = id;
  subscription_id = subscription_id;
  earthquake_id = earthquake_id;
  earthquake_version = version;
  trigger_type = trigger;
  status = pending;
  attempt_count = 0;
  next_attempt_at = now;
  payload = payload;
  locked_at = none;
  locked_by = none;
  sent_at = none;
  response_status = none;
  last_error = none;
  updated_at = now;
}

abbrev pub same_delivery : Delivery → Delivery → Bool
same_delivery a b =
    nat_eq a.subscription_id b.subscription_id
    && nat_eq a.earthquake_id b.earthquake_id
    && eqb_ℤ a.earthquake_version b.earthquake_version
    && a.trigger_type == b.trigger_type

-- INSERT INTO notification_deliveries ... ON CONFLICT DO NOTHING
unfoldable pub insert_delivery : Delivery → List Delivery → List Delivery
unfolding any_where
insert_delivery row rows = if any_where (same_delivery row) rows then rows else row ∷ rows

module _ {F : Type 0} ⦃f : Float F⦄ where
  -- the coordinates of the column area, which stands where both are given
  abbrev pub area_of : Subscription F → Option (F × F)
  area_of s = elim s.center_latitude [
    | none ↦ none
    | some latitude ↦ elim s.center_longitude [
      | none ↦ none
      | some longitude ↦ some (latitude, longitude)
    ]
  ]

  -- ST_Distance(area, point) / 1000
  unfoldable pub distance_km : Outside F → Event F → Option (F × F) → Option F
  distance_km outside event none = none
  distance_km outside event (some area) =
      some (div (outside.distance area.0 area.1 event.latitude event.longitude) (lit 1000))

  -- the WHERE clause of the query for subscriptions, on the minimum intensity, the area, the radius
  unfoldable pub is_selected :
      Services F → Event F → F → Option F → Option (F × F) → Option F → Bool
  is_selected services event radius (some intensity) none own = false
  is_selected services event radius (some intensity) (some area) own =
      lt (lit 0) radius
      && services.d_within area.0 area.1 event.latitude event.longitude (mul radius (lit 1000))
  is_selected services event radius none none own = true
  is_selected services event radius none (some area) none = false
  is_selected services event radius none (some area) (some own) =
      services.d_within area.0 area.1 event.latitude event.longitude (mul own (lit 1000))

  unfoldable pub select_subscriptions :
      Services F → Event F → F → List (Subscription F) → List (Subscription F)
  unfolding is_selected
  select_subscriptions services event radius [] = []
  select_subscriptions services event radius (s ∷ ss) =
      let rest = select_subscriptions services event radius ss in
      if s.status == "active"
        && is_selected services event radius s.minimum_intensity (area_of s) s.radius_km
      then s ∷ rest
      else rest

  -- the threshold and the distance of a subscription that is matched by intensity
  abbrev pub by_intensity : Subscription F → Option F → Option (F × F)
  by_intensity s distance =
      if s.subscription_kind == "user" && s.channel == "telegram"
      then elim s.minimum_intensity [
        | none ↦ none
        | some threshold ↦ elim distance [ none ↦ none | some km ↦ some (threshold, km) ]
      ]
      else none
