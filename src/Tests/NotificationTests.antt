-- ===== src/Tests/NotificationTests.antt =====
-- Subscriptions: their triggers and their validation.
use shaker.Prelude.{◌≡◌, refl, ◌↔◌, ◌*◌, true, false, none, some, [], ◌∷◌, pos, String, Option}
use shaker.Go.Float.{lt, Milli, milli}
use shaker.Go.Time.{hour}
use shaker.Notification.Subscription.{
  Subscription, new_event, magnitude_threshold_crossed, triggers, intensity_triggers, matches,
  matches_non_magnitude, alert_severity, intensity_decision_boundary,
}
use shaker.Notification.Subscription.Raised.{
  listed, Cause, IntensityCause, triggers_iff, intensity_triggers_iff,
}
use shaker.Notification.Subscription.Validation.{
  Url, accepted, panicked, validate, validate_webhook,
}
use shaker.Notification.Subscription.Accepted.{
  IsAcceptable, IsUnparsed, validate-accepted, validate-panicked,
}
use shaker.Go.Text.{contains}
use shaker.Tests.Samples.{milli_of, at_second, quake}

abbrev subscription : Subscription Milli
subscription = record {
  id = 5;
  name = "home";
  status = "active";
  channel = "webhook";
  subscription_kind = "user";
  webhook_url = "https://example.org/hook";
  encrypted_webhook_secret = [];
  telegram_chat_id = none;
  telegram_chat_username = none;
  notification_language = some "en";
  minimum_magnitude = some (milli_of 4000);
  maximum_magnitude = none;
  minimum_intensity = none;
  center_latitude = some (milli_of 43000);
  center_longitude = some (milli_of 77000);
  radius_km = some (milli_of 300000);
  tsunami_only = false;
  allowed_alert_levels = [];
  allowed_event_types = "earthquake" ∷ [];
  notify_on_new = true;
  notify_on_threshold_crossing = true;
  notify_on_tsunami_change = false;
  notify_on_alert_increase = false;
  maximum_event_age = pos (2 * hour);
  created_at = at_second 1;
  updated_at = at_second 1;
}

triggers_iff_example :
    (listed magnitude_threshold_crossed (
        triggers subscription
          (some (quake 1 "usgs" (at_second 100) (milli_of 3900)))
          (quake 1 "usgs" (at_second 100) (milli_of 5000))
          "recovery"
          (at_second 160)
          false)
      ≡ true)
    ↔ ((subscription.status ≡ "active")
        × (matches subscription (quake 1 "usgs" (at_second 100) (milli_of 5000)) ≡ true)
        × Cause subscription
            (some (quake 1 "usgs" (at_second 100) (milli_of 3900)))
            (quake 1 "usgs" (at_second 100) (milli_of 5000))
            "recovery"
            (at_second 160)
            false
            magnitude_threshold_crossed)
triggers_iff_example =
    triggers_iff subscription (some (quake 1 "usgs" (at_second 100) (milli_of 3900)))
      (quake 1 "usgs" (at_second 100) (milli_of 5000)) "recovery" (at_second 160) false
      magnitude_threshold_crossed

triggers_crossed :
    triggers subscription
      (some (quake 1 "usgs" (at_second 100) (milli_of 3900)))
      (quake 1 "usgs" (at_second 100) (milli_of 5000))
      "recovery"
      (at_second 160)
      false
    ≡ magnitude_threshold_crossed ∷ []
unfolding triggers matches matches_non_magnitude alert_severity contains
triggers_crossed = refl

abbrev by_intensity : Subscription Milli
by_intensity = record subscription { minimum_intensity = some (milli_of 4000) }

intensity_triggers_iff_example :
    (intensity_triggers by_intensity none
        (quake 1 "usgs" (at_second 100) (milli_of 5000))
        none
        (milli_of 3600)
        "realtime"
        (at_second 160)
        true
      ≡ new_event ∷ [])
    ↔ ((by_intensity.status ≡ "active")
        × (lt (milli_of 3600) (intensity_decision_boundary (milli_of 4000)) ≡ false)
        × (matches_non_magnitude by_intensity (quake 1 "usgs" (at_second 100) (milli_of 5000))
            ≡ true)
        × IntensityCause by_intensity none
            (quake 1 "usgs" (at_second 100) (milli_of 5000))
            none
            (intensity_decision_boundary (milli_of 4000))
            "realtime"
            (at_second 160)
            true
            new_event)
intensity_triggers_iff_example =
    intensity_triggers_iff by_intensity (milli_of 4000) none
      (quake 1 "usgs" (at_second 100) (milli_of 5000)) none (milli_of 3600) "realtime"
      (at_second 160) true new_event refl

abbrev parsed : String → Option Url
parsed _ = some (record { scheme = "https"; host = "example.org"; has_user = false })

abbrev unparsed : String → Option Url
unparsed _ = none

validate-accepted_example :
    (validate parsed subscription (milli_of 500000) true ≡ accepted)
    ↔ IsAcceptable parsed subscription (milli_of 500000) true
validate-accepted_example = validate-accepted parsed subscription (milli_of 500000) true

validate-panicked_example :
    (validate unparsed subscription (milli_of 500000) true ≡ panicked)
    ↔ IsUnparsed unparsed subscription (milli_of 500000)
validate-panicked_example = validate-panicked unparsed subscription (milli_of 500000) true

unparsed_panics : validate unparsed subscription (milli_of 500000) true ≡ panicked
unfolding validate validate_webhook
unparsed_panics = refl
