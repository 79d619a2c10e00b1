-- ===== src/Config/Validation.antt =====
-- internal/config/config.go: validate, validateEndpoint and validateCloudflareTeamDomain.
pub mod Laws
use shaker.Prelude.{
  ℕ, Bool, true, false, not, ◌&&◌, ◌||◌, String, Option, none, some, List, [], ◌∷◌, ℤ, pos, leb_ℤ,
  ltb_ℤ, ltb, length, if◌then◌else◌, ◌==◌ as nat_eq,
}
use shaker.Go.Float.{Float, le, lit}
use shaker.Go.Text.{◌==◌, contains}
use shaker.Config.{Config}

pub data ConfigError : Type 0 where
  missing_app invalid_role missing_database missing_brokers empty_broker missing_kafka_names
        invalid_provider invalid_state_file missing_admin_key invalid_admin_host
        missing_bootstrap_owners missing_cloudflare invalid_cloudflare_domain development_email
        invalid_encryption_key kafka_limits database_limits ingestion_limits notification_limits
        search_radius private_networks missing_bot_token invalid_global_channel invalid_endpoint :
      ConfigError

-- What validateEndpoint and validateCloudflareTeamDomain read of a parsed URL.
pub record Url : Type 0 where
  pub scheme : String
  pub host : String
  pub hostname : String
  pub has_user : Bool
  pub port : String
  pub path : String
  pub raw_query : String
  pub fragment : String

-- The functions of the standard library that the validation calls: url.Parse, filepath.IsAbs,
-- whether strings.TrimSpace leaves nothing, strings.Contains of "://", strings.ContainsAny of blanks
-- (with "/" or without), strings.HasPrefix of "@", len, strings.ToLower, and strings.HasSuffix of the
-- domain of Cloudflare Access.
pub record Strings : Type 0 where
  pub parse_url : String → Option Url
  pub is_abs : String → Bool
  pub is_blank : String → Bool
  pub has_scheme : String → Bool
  pub has_blank_or_slash : String → Bool
  pub has_blank : String → Bool
  pub has_at : String → Bool
  pub size : String → ℕ
  pub with_https : String → String
  pub to_lower : String → String
  pub is_access_domain : String → Bool

abbrev pub reject_if : Bool → ConfigError → Option ConfigError
reject_if b e = if b then some e else none

-- The errors in the order of the source: the first one is returned.
unfoldable pub first_error : List (Option ConfigError) → Option ConfigError
first_error [] = none
first_error (some e ∷ es) = some e
first_error (none ∷ es) = first_error es

-- c.X <= 0 || c.Y <= 0 || ...
unfoldable pub any_not_positive : List ℤ → Bool
any_not_positive [] = false
any_not_positive (n ∷ ns) = leb_ℤ n (pos 0) || any_not_positive ns

abbrev pub is_empty : List String → Bool
is_empty [] = true
is_empty (_ ∷ _) = false

unfoldable pub any_blank : (String → Bool) → List String → Bool
any_blank is_blank [] = false
any_blank is_blank (s ∷ ss) = is_blank s || any_blank is_blank ss

module _ (t : Strings) where
  -- validateEndpoint
  unfoldable pub validate_endpoint : String → List String → Option ConfigError
  validate_endpoint value schemes = elim (t.parse_url value) [
    | none ↦ some invalid_endpoint
    | some u ↦ reject_if (u.host == "" || not (contains schemes u.scheme)) invalid_endpoint
  ]

  -- validateCloudflareTeamDomain; `with_https` prefixes "https://"
  unfoldable pub validate_cloudflare_team_domain : String → Option ConfigError
  validate_cloudflare_team_domain value =
      elim (t.parse_url (if not (t.has_scheme value) then t.with_https value else value)) [
        | none ↦ some invalid_cloudflare_domain
        | some u ↦
            reject_if
              (not (u.scheme == "https")
                || u.has_user
                || not (u.port == "")
                || not (u.path == "")
                || not (u.raw_query == "")
                || not (u.fragment == "")
                || not (t.is_access_domain (t.to_lower u.hostname)))
              invalid_cloudflare_domain
      ]

  module _ {F : Type 0} ⦃f : Float F⦄ (c : Config F) where
    abbrev is_role : String → Bool
    is_role role = c.role == role

    -- The checks of the administration, which are made for the roles that serve it.
    abbrev pub admin_errors : List (Option ConfigError)
    admin_errors =
        reject_if
          (c.admin_host == "" || t.has_scheme c.admin_host || t.has_blank_or_slash c.admin_host)
          invalid_admin_host
        ∷ (if c.environment == "development" && not (c.admin_development_email == "")
            then reject_if (is_empty c.admin_bootstrap_owners) missing_bootstrap_owners
            else reject_if
                (c.cloudflare_access_team_domain == "" || c.cloudflare_access_audience == "")
                missing_cloudflare)
        ∷ (if c.admin_development_email == ""
            then validate_cloudflare_team_domain c.cloudflare_access_team_domain
            else none)
        ∷ reject_if (not (c.environment == "development") && not (c.admin_development_email == ""))
            development_email
        ∷ reject_if (is_empty c.admin_bootstrap_owners) missing_bootstrap_owners
        ∷ []

    abbrev pub provider_errors : List (Option ConfigError)
    provider_errors =
        reject_if
          (not (c.provider_name == "emsc")
            && not (c.provider_name == "usgs")
            && not (c.provider_name == "geofon")
            && not (c.provider_name == "kndc"))
          invalid_provider
        ∷ reject_if (c.provider_state_file == "" || not (t.is_abs c.provider_state_file))
            invalid_state_file
        ∷ []

    -- The limits and intervals that must be positive.
    abbrev pub ingestion_limits_of : List ℤ
    ingestion_limits_of =
        c.backfill_chunk_duration ∷ c.recovery_overlap_duration ∷ c.usgs_poll_interval
        ∷ c.usgs_http_timeout ∷ c.usgs_max_response_bytes ∷ c.emsc_poll_interval
        ∷ c.emsc_http_timeout ∷ c.emsc_lookback ∷ c.emsc_ping_interval ∷ c.emsc_max_response_bytes
        ∷ c.emsc_max_frame_bytes ∷ c.geofon_poll_interval ∷ c.geofon_http_timeout
        ∷ c.geofon_lookback ∷ c.geofon_max_response_bytes ∷ c.kndc_poll_interval
        ∷ c.kndc_http_timeout ∷ c.kndc_max_response_bytes ∷ []

    abbrev pub notification_limits_of : List ℤ
    notification_limits_of =
        c.notification_batch_size ∷ c.notification_max_attempts ∷ c.notification_lock_timeout
        ∷ c.notification_poll_interval ∷ c.webhook_http_timeout ∷ c.webhook_max_response_bytes
        ∷ c.telegram_poll_timeout ∷ c.telegram_max_response_bytes ∷ []

    abbrev pub endpoint_if : Bool → String → List String → Option ConfigError
    endpoint_if b value schemes = if b then validate_endpoint value schemes else none

    abbrev pub web : List String
    web = "http" ∷ "https" ∷ []

    -- The checks of validate, in their order.
    abbrev pub checks : List (Option ConfigError)
    checks =
        reject_if
          (c.environment == ""
            || c.version == ""
            || c.http_address == ""
            || c.metrics_address == ""
            || c.log_level == "")
          missing_app
        ∷ reject_if
            (not (is_role "api")
              && not (is_role "worker")
              && not (is_role "all")
              && not (is_role "backfill")
              && not (is_role "provider-worker")
              && not (is_role "core")
              && not (is_role "notification"))
            invalid_role
        ∷ reject_if (not (is_role "provider-worker") && c.database_url == "") missing_database
        ∷ reject_if
            ((is_role "provider-worker" || is_role "core" || is_role "notification")
              && is_empty c.kafka_brokers)
            missing_brokers
        ∷ reject_if (any_blank t.is_blank c.kafka_brokers) empty_broker
        ∷ reject_if
            (c.kafka_client_id == ""
              || c.kafka_core_consumer_group == ""
              || c.kafka_notification_consumer_group == "")
            missing_kafka_names
        ∷ (if is_role "provider-worker" then first_error provider_errors else none)
        ∷ reject_if ((is_role "api" || is_role "all") && c.admin_api_key == "") missing_admin_key
        ∷ (if c.admin_enabled && (is_role "api" || is_role "all")
            then first_error admin_errors
            else none)
        ∷ reject_if
            ((is_role "api" || is_role "notification" || is_role "worker" || is_role "all")
              && not (nat_eq (length c.encryption_key) 32))
            invalid_encryption_key
        ∷ reject_if
            (leb_ℤ c.kafka_max_message_bytes (pos 0)
              || ltb_ℤ (pos 2147483647) c.kafka_max_message_bytes
              || any_not_positive (
                  c.core_outbox_batch_size ∷ c.core_outbox_lock_timeout
                  ∷ c.core_outbox_poll_interval ∷ []))
            kafka_limits
        ∷ reject_if
            (ltb_ℤ c.database_min_connections (pos 0)
              || leb_ℤ c.database_max_connections (pos 0)
              || ltb_ℤ c.database_max_connections c.database_min_connections)
            database_limits
        ∷ reject_if (any_not_positive ingestion_limits_of) ingestion_limits
        ∷ reject_if (any_not_positive notification_limits_of) notification_limits
        ∷ reject_if (le c.max_search_radius_km (lit 0)) search_radius
        ∷ reject_if (not (c.environment == "development") && c.webhook_allow_private)
            private_networks
        ∷ reject_if (not (c.telegram_global_channel == "") && c.telegram_bot_token == "")
            missing_bot_token
        ∷ reject_if
            (not (c.telegram_global_channel == "")
              && (not (t.has_at c.telegram_global_channel)
                  || ltb 64 (t.size c.telegram_global_channel)
                  || t.has_blank c.telegram_global_channel))
            invalid_global_channel
        ∷ endpoint_if (not (c.telegram_bot_token == "")) c.telegram_api_url web
        ∷ endpoint_if (c.emsc_enabled || c.provider_name == "emsc") c.emsc_web_socket_url
            ("ws" ∷ "wss" ∷ [])
        ∷ endpoint_if (c.emsc_enabled || c.provider_name == "emsc") c.emsc_fdsn_url web
        ∷ endpoint_if (c.provider_name == "usgs") c.usgs_realtime_url web
        ∷ endpoint_if (c.provider_name == "usgs") c.usgs_fdsn_url web
        ∷ endpoint_if (c.geofon_enabled || c.provider_name == "geofon") c.geofon_fdsn_url web
        ∷ endpoint_if (c.kndc_enabled || c.provider_name == "kndc") c.kndc_bulletin_url web
        ∷ []

    unfoldable pub validate : Option ConfigError
    unfolding first_error any_not_positive any_blank validate_endpoint
        validate_cloudflare_team_domain
    validate = first_error checks
