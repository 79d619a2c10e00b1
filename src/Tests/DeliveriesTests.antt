-- ===== src/Tests/DeliveriesTests.antt =====
-- The notifications of a new earthquake for a webhook.
use shaker.Prelude.{get_elem?, ◌≡◌, refl, true, false, Option, none, some, [], ◌∷◌, pos, ◌*◌, ◌-ℤ◌}
use shaker.Go.Float.{Milli, milli, small_angles}
use shaker.Go.Time.{hour, time_sub}
use shaker.Go.Sql.{any_where, order_by}
use shaker.Go.Text.{contains}
use shaker.Earthquake.Event.{inserted}
use shaker.Notification.Subscription.{
  Subscription, matches, matches_non_magnitude, triggers, intensity_decision_boundary,
}
use shaker.Repository.Tables.{Tables, AppliedChange, Services}
use shaker.Repository.Notices.{
  Notices, Outside, notification_payload, provider_source_links, associated_sources, first_links,
}
use shaker.Repository.Selection.{
  trigger_text, new_delivery, insert_delivery, distance_km, is_selected, select_subscriptions,
}
use shaker.Repository.Deliveries.{
  create_deliveries, match_all, match_subscription, notify_all, notify,
}
use shaker.Repository.Deliveries.Counts.{IsAudited, create_deliveries-IsAudited}
use shaker.Shaking.{candidate_radius_km, usable}
use shaker.Tests.ShakingTests.{crude_logs}
use shaker.Tests.Samples.{milli_of, at_second, quake}

abbrev tables : Tables Milli
tables = record {
  incidents = [];
  sources = [];
  observations = [];
  associations = [];
  revisions = [];
}

abbrev services : Services Milli
services = record {
  hash = λ payload. some payload;
  string_before = λ _ _. false;
  d_within = λ _ _ _ _ _. true;
  json_fields = λ _. [];
  draw = λ _. (50, 51);
  is_jsonb = λ _. true;
  interrupted = λ _ _. false;
}

abbrev outside : Outside Milli
outside = record {
  encode = λ _. 123 ∷ 125 ∷ [];
  trim = λ t. t;
  distance = λ _ _ _ _. milli_of 1000;
  uuid_new = λ _ _. 60;
  draw_alert = λ _. 61;
}

abbrev webhook : Subscription Milli
webhook = record {
  id = 5;
  name = "home";
  status = "active";
  channel = "webhook";
  subscription_kind = "user";
  webhook_url = "https://example.org/hook";
  encrypted_webhook_secret = [];
  telegram_chat_id = none;
  telegram_chat_username = none;
  notification_language = some "en";
  minimum_magnitude = none;
  maximum_magnitude = none;
  minimum_intensity = none;
  center_latitude = some (milli_of 43000);
  center_longitude = some (milli_of 77000);
  radius_km = some (milli_of 300000);
  tsunami_only = false;
  allowed_alert_levels = [];
  allowed_event_types = "earthquake" ∷ [];
  notify_on_new = true;
  notify_on_threshold_crossing = true;
  notify_on_tsunami_change = false;
  notify_on_alert_increase = false;
  maximum_event_age = pos (2 * hour);
  created_at = at_second 1;
  updated_at = at_second 1;
}

abbrev change : AppliedChange Milli
change = record {
  kind = inserted;
  previous = none;
  current = record (quake 7 "usgs" (at_second 100) (milli_of 5000)) { magnitude = none };
  changed_fields = [];
  source_record_id = 8;
}

abbrev before : Notices Milli
before = record {
  subscriptions = webhook ∷ [];
  alerts = [];
  deliveries = [];
  evaluations = [];
  audits = [];
}

abbrev value_or : {A : Type 0} → A → Option A → A
value_or d none = d
value_or d (some a) = a

abbrev noted : Option (Notices Milli)
noted = create_deliveries services outside change "realtime" true (at_second 160) tables before

abbrev after : Notices Milli
after = value_or before noted

deliveries_run : Unit {0}
unfolding create_deliveries candidate_radius_km usable intensity_decision_boundary
    select_subscriptions is_selected provider_source_links associated_sources first_links order_by
    match_all match_subscription notify_all notify distance_km triggers matches
    matches_non_magnitude contains time_sub ◌-ℤ◌ trigger_text notification_payload insert_delivery
    new_delivery any_where
deliveries_run = tt

deliveries_after : noted ≡ some after
unfolding deliveries_run
deliveries_after = refl

one_delivery :
    get_elem? after.deliveries 0
    ≡ some (new_delivery 60 5 7 (pos 1) "new_event" (123 ∷ 125 ∷ []) (at_second 160))
unfolding deliveries_run
one_delivery = refl

create_deliveries-IsAudited_example : IsAudited change before after
create_deliveries-IsAudited_example =
    create_deliveries-IsAudited services outside change "realtime" true (at_second 160) tables
      before after deliveries_after
