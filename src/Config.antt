-- ===== src/Config.antt =====
-- internal/config/config.go: the configuration of every service, and its validation.
pub mod Validation
use shaker.Prelude.{ℕ, Bool, String, List, ℤ}
use shaker.Go.Time.{Duration}

pub record Config (F : Type 0) : Type 0 where
  pub environment : String
  pub version : String
  pub role : String
  pub http_address : String
  pub metrics_address : String
  pub database_url : String
  pub provider_name : String
  pub provider_state_file : String
  pub kafka_brokers : List String
  pub kafka_client_id : String
  pub kafka_core_consumer_group : String
  pub kafka_notification_consumer_group : String
  pub kafka_max_message_bytes : ℤ
  pub core_outbox_batch_size : ℤ
  pub core_outbox_lock_timeout : Duration
  pub core_outbox_poll_interval : Duration
  pub database_max_connections : ℤ
  pub database_min_connections : ℤ
  pub usgs_realtime_url : String
  pub usgs_fdsn_url : String
  pub usgs_poll_interval : Duration
  pub usgs_http_timeout : Duration
  pub usgs_max_response_bytes : ℤ
  pub emsc_enabled : Bool
  pub emsc_web_socket_url : String
  pub emsc_fdsn_url : String
  pub emsc_poll_interval : Duration
  pub emsc_http_timeout : Duration
  pub emsc_lookback : Duration
  pub emsc_ping_interval : Duration
  pub emsc_max_response_bytes : ℤ
  pub emsc_max_frame_bytes : ℤ
  pub geofon_enabled : Bool
  pub kndc_enabled : Bool
  pub geofon_fdsn_url : String
  pub kndc_bulletin_url : String
  pub geofon_poll_interval : Duration
  pub geofon_http_timeout : Duration
  pub geofon_lookback : Duration
  pub kndc_poll_interval : Duration
  pub kndc_http_timeout : Duration
  pub geofon_max_response_bytes : ℤ
  pub kndc_max_response_bytes : ℤ
  pub backfill_chunk_duration : Duration
  pub recovery_overlap_duration : Duration
  pub notification_batch_size : ℤ
  pub notification_max_attempts : ℤ
  pub notification_lock_timeout : Duration
  pub notification_poll_interval : Duration
  pub admin_api_key : String
  pub admin_enabled : Bool
  pub admin_host : String
  pub cloudflare_access_team_domain : String
  pub cloudflare_access_audience : String
  pub admin_bootstrap_owners : List String
  pub admin_development_email : String
  pub grafana_base_url : String
  pub encryption_key : List ℕ
  pub webhook_allow_private : Bool
  pub webhook_http_timeout : Duration
  pub webhook_max_response_bytes : ℤ
  pub telegram_bot_token : String
  pub telegram_api_url : String
  pub telegram_global_channel : String
  pub telegram_poll_timeout : Duration
  pub telegram_max_response_bytes : ℤ
  pub log_level : String
  pub otel_endpoint : String
  pub max_search_radius_km : F
  pub cursor_hmac_key : List ℕ
