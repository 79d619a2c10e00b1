-- ===== src/Tests/ConfigTests.antt =====
-- A configuration that serves the API in production.
use shaker.Prelude.{
  ℕ, ◌≡◌, ◌≢◌, refl, ◌⊎◌, true, false, ◌||◌, none, some, List, [], ◌∷◌, pos, length, arith, eq_iff,
  String, if◌then◌else◌,
}
use shaker.Go.Float.{Milli, milli}
use shaker.Go.Text.{◌==◌, contains}
use shaker.Config.{Config}
use shaker.Config.Validation.{Strings, Url, validate, validate_cloudflare_team_domain}
use shaker.Config.Validation.Laws.{validate-production}
use shaker.Tests.Samples.{milli_of}

abbrev key : List ℕ
key =
    7 ∷ 7 ∷ 7 ∷ 7 ∷ 7 ∷ 7 ∷ 7 ∷ 7 ∷ 7 ∷ 7 ∷ 7 ∷ 7 ∷ 7 ∷ 7 ∷ 7 ∷ 7 ∷ 7 ∷ 7 ∷ 7 ∷ 7 ∷ 7 ∷ 7 ∷ 7 ∷ 7
    ∷ 7 ∷ 7 ∷ 7 ∷ 7 ∷ 7 ∷ 7 ∷ 7 ∷ 7 ∷ []

abbrev url_of : String → Url
url_of s = record {
  scheme = if s == "wss://seismicportal.eu" then "wss" else "https";
  host = "example.org";
  hostname = "team.cloudflareaccess.com";
  has_user = false;
  port = "";
  path = "";
  raw_query = "";
  fragment = "";
}

abbrev strings : Strings
strings = record {
  parse_url = λ s. some (url_of s);
  is_abs = λ _. true;
  is_blank = λ s. s == "";
  has_scheme = λ s. s == "https://team.cloudflareaccess.com";
  has_blank_or_slash = λ _. false;
  has_blank = λ _. false;
  has_at = λ _. true;
  size = λ _. 8;
  with_https = λ s. s;
  to_lower = λ s. s;
  is_access_domain = λ s. s == "team.cloudflareaccess.com";
}

abbrev config : Config Milli
config = record {
  environment = "production";
  version = "x";
  role = "api";
  http_address = "x";
  metrics_address = "x";
  database_url = "x";
  provider_name = "";
  provider_state_file = "x";
  kafka_brokers = "k:9092" ∷ [];
  kafka_client_id = "x";
  kafka_core_consumer_group = "x";
  kafka_notification_consumer_group = "x";
  kafka_max_message_bytes = pos 100;
  core_outbox_batch_size = pos 100;
  core_outbox_lock_timeout = pos 100;
  core_outbox_poll_interval = pos 100;
  database_max_connections = pos 100;
  database_min_connections = pos 100;
  usgs_realtime_url = "x";
  usgs_fdsn_url = "x";
  usgs_poll_interval = pos 100;
  usgs_http_timeout = pos 100;
  usgs_max_response_bytes = pos 100;
  emsc_enabled = true;
  emsc_web_socket_url = "wss://seismicportal.eu";
  emsc_fdsn_url = "https://seismicportal.eu";
  emsc_poll_interval = pos 100;
  emsc_http_timeout = pos 100;
  emsc_lookback = pos 100;
  emsc_ping_interval = pos 100;
  emsc_max_response_bytes = pos 100;
  emsc_max_frame_bytes = pos 100;
  geofon_enabled = false;
  kndc_enabled = false;
  geofon_fdsn_url = "x";
  kndc_bulletin_url = "x";
  geofon_poll_interval = pos 100;
  geofon_http_timeout = pos 100;
  geofon_lookback = pos 100;
  kndc_poll_interval = pos 100;
  kndc_http_timeout = pos 100;
  geofon_max_response_bytes = pos 100;
  kndc_max_response_bytes = pos 100;
  backfill_chunk_duration = pos 100;
  recovery_overlap_duration = pos 100;
  notification_batch_size = pos 100;
  notification_max_attempts = pos 100;
  notification_lock_timeout = pos 100;
  notification_poll_interval = pos 100;
  admin_api_key = "x";
  admin_enabled = true;
  admin_host = "admin.example.org";
  cloudflare_access_team_domain = "https://team.cloudflareaccess.com";
  cloudflare_access_audience = "aud";
  admin_bootstrap_owners = "owner@example.org" ∷ [];
  admin_development_email = "";
  grafana_base_url = "x";
  encryption_key = key;
  webhook_allow_private = false;
  webhook_http_timeout = pos 100;
  webhook_max_response_bytes = pos 100;
  telegram_bot_token = "";
  telegram_api_url = "x";
  telegram_global_channel = "";
  telegram_poll_timeout = pos 100;
  telegram_max_response_bytes = pos 100;
  log_level = "x";
  otel_endpoint = "x";
  max_search_radius_km = milli_of 500000;
  cursor_hmac_key = [];
}

config_is_valid : validate strings config ≡ none
unfolding validate contains
config_is_valid = refl

validate-production_example :
    (config.webhook_allow_private ≡ false)
    × (((config.role == "api" || config.role == "all") ≡ false)
        ⊎ ((config.admin_api_key ≢ "")
            × (length config.encryption_key ≡ 32)
            × ((config.admin_enabled ≡ false)
                ⊎ ((config.admin_development_email ≡ "")
                    × (config.cloudflare_access_audience ≢ "")
                    × (config.admin_bootstrap_owners ≢ [])
                    × (validate_cloudflare_team_domain strings config.cloudflare_access_team_domain
                        ≡ none)))))
validate-production_example =
    validate-production strings config config_is_valid
      (λ e. ground (arith, eq_iff config.environment "development"))
