-- ===== src/Config/Validation/Laws.antt =====
-- What a configuration that validate of internal/config/config.go accepts gives the services.
use shaker.Prelude.{
  ℕ, ◌≡◌, ◌≢◌, refl, ◌⊎◌, inl, inr, Bool, true, false, not, ◌&&◌, ◌||◌, String, Option, none, some,
  List, [], ◌∷◌, ℤ, pos, ◌<ℤ◌, ◌≤ℤ◌, All, arith, length, if◌then◌else◌, Bool-cases, eq_iff, ==_iff,
  ◌==◌ as nat_eq, leb_ℤ, ltb_ℤ,
}
use shaker.Go.Float.{Float}
use shaker.Go.Text.{◌==◌}
use shaker.Config.{Config}
use shaker.Config.Validation.{
  ConfigError, Strings, reject_if, checks, first_error, any_not_positive, validate,
  ingestion_limits_of, notification_limits_of, validate_cloudflare_team_domain, admin_errors,
  is_empty,
}

first_error-All : (es : List (Option ConfigError)) → first_error es ≡ none → All (λ e. e ≡ none) es
unfolding first_error
first_error-All [] h = tt
first_error-All (none ∷ es) h = (refl, first_error-All es h)
first_error-All (some e ∷ es) h = cc

reject_if-none : (b : Bool) (e : ConfigError) → reject_if b e ≡ none → b ≡ false
reject_if-none b e h = ground arith

All-positive : (ns : List ℤ) → any_not_positive ns ≡ false → All (λ n. pos 0 <ℤ n) ns
unfolding any_not_positive
All-positive [] h = tt
All-positive (n ∷ ns) h = (ground arith, All-positive ns (ground arith))

bounded :
    (n : ℤ) (limit : ℕ) (rest : Bool)
    → (leb_ℤ n (pos 0) || ltb_ℤ (pos limit) n || rest) ≡ false
    → (pos 0 <ℤ n) × (n ≤ℤ pos limit) × (rest ≡ false)
bounded n limit rest h = ground arith

ordered :
    (low high : ℤ)
    → (ltb_ℤ low (pos 0) || leb_ℤ high (pos 0) || ltb_ℤ high low) ≡ false
    → (pos 0 <ℤ high) × (pos 0 ≤ℤ low) × (low ≤ℤ high)
ordered low high h = ground arith

not_empty : (s : String) → (s == "") ≡ false → s ≢ ""
not_empty s h = ground (arith, eq_iff s "")

is_nonempty : (ss : List String) → is_empty ss ≡ false → ss ≢ []
is_nonempty ss h = ground arith

not_both : (a b : Bool) → (not a && b) ≡ false → a ≡ false → b ≡ false
not_both a b h e = ground arith

email_of :
    (a b : Bool) (x : ConfigError) → reject_if (not a && not b) x ≡ none → a ≡ false → b ≡ true
email_of a b x h e = ground arith

missing_of :
    (d e team audience owners : Bool) (x y : ConfigError)
    → (if d && e then reject_if owners x else reject_if (team || audience) y) ≡ none
    → d ≡ false
    → audience ≡ false
missing_of d e team audience owners x y h k = ground arith

served :
    (api all notification worker key long : Bool)
    → ((api || all) && key) ≡ false
    → ((api || notification || worker || all) && not long) ≡ false
    → (api || all) ≡ true
    → (key ≡ false) × (long ≡ true)
served api all notification worker key long h k e = ground arith

module _ (t : Strings) {F : Type 0} ⦃f : Float F⦄ (c : Config F) where
  -- Every interval, batch size and limit that the services run on is positive, so that tickers start,
  -- batches and backfill windows advance and a delivery has an attempt; the numbers of connections
  -- are in order, and a Kafka message fits 32 bits.
  pub validate-positive :
      validate t c ≡ none
      → All (λ n. pos 0 <ℤ n) (ingestion_limits_of t c)
        × All (λ n. pos 0 <ℤ n) (notification_limits_of t c)
        × All
            (λ n. pos 0 <ℤ n)
            (c.core_outbox_batch_size ∷ c.core_outbox_lock_timeout ∷ c.core_outbox_poll_interval
              ∷ [])
        × (pos 0 <ℤ c.kafka_max_message_bytes)
        × (c.kafka_max_message_bytes ≤ℤ pos 2147483647)
        × (pos 0 <ℤ c.database_max_connections)
        × (pos 0 ≤ℤ c.database_min_connections)
        × (c.database_min_connections ≤ℤ c.database_max_connections)
  unfolding validate
  validate-positive h =
      let all = first_error-All (checks t c) h in
      let kafka = reject_if-none _ _ (all.1.1.1.1.1.1.1.1.1.1.0) in
      let database = reject_if-none _ _ (all.1.1.1.1.1.1.1.1.1.1.1.0) in
      let ingestion = reject_if-none _ _ (all.1.1.1.1.1.1.1.1.1.1.1.1.0) in
      let notification = reject_if-none _ _ (all.1.1.1.1.1.1.1.1.1.1.1.1.1.0) in
      let (positive, fits, outbox) = bounded c.kafka_max_message_bytes 2147483647 _ kafka in
      let (some_connections, low, high) =
        ordered c.database_min_connections c.database_max_connections database in
      (
        All-positive (ingestion_limits_of t c) ingestion,
        All-positive (notification_limits_of t c) notification,
        All-positive
            (c.core_outbox_batch_size ∷ c.core_outbox_lock_timeout ∷ c.core_outbox_poll_interval
              ∷ [])
            outbox,
        positive,
        fits,
        some_connections,
        low,
        high,
      )

  abbrev serves_api : Bool
  serves_api = c.role == "api" || c.role == "all"

  -- The administration of an accepted configuration outside development.
  admin_errors-none :
      first_error (admin_errors t c) ≡ none
      → (c.environment == "development") ≡ false
      → (c.admin_development_email ≡ "")
        × (c.cloudflare_access_audience ≢ "")
        × (c.admin_bootstrap_owners ≢ [])
        × (validate_cloudflare_team_domain t c.cloudflare_access_team_domain ≡ none)
  admin_errors-none h live =
      let all = first_error-All (admin_errors t c) h in
      let email = email_of _ _ _ (all.1.1.1.0) live in
      let audience : (c.cloudflare_access_audience == "") ≡ false =
        missing_of _ _ _ _ _ _ _ (all.1.0) live in
      let owners = reject_if-none _ _ (all.1.1.1.1.0) in
      (
        (eq_iff c.admin_development_email "").0 email,
        not_empty c.cloudflare_access_audience audience,
        is_nonempty c.admin_bootstrap_owners owners,
        rw email at (all.1.1.0),
      )

  -- Outside development, an accepted configuration keeps webhooks off private networks; and where it
  -- serves the API it has a key for administrators, an encryption key of 32 bytes, and, with the
  -- administration enabled, no development login, an audience, owners and a team domain that passes
  -- its check.
  pub validate-production :
      validate t c ≡ none
      → c.environment ≢ "development"
      → (c.webhook_allow_private ≡ false)
        × ((serves_api ≡ false)
            ⊎ ((c.admin_api_key ≢ "")
                × (length c.encryption_key ≡ 32)
                × ((c.admin_enabled ≡ false)
                    ⊎ ((c.admin_development_email ≡ "")
                        × (c.cloudflare_access_audience ≢ "")
                        × (c.admin_bootstrap_owners ≢ [])
                        × (validate_cloudflare_team_domain t c.cloudflare_access_team_domain
                            ≡ none)))))
  unfolding validate first_error
  validate-production h live =
      let dev : (c.environment == "development") ≡ false =
        ground (arith, eq_iff c.environment "development") in
      let all = first_error-All (checks t c) h in
      let private = reject_if-none _ _ (all.1.1.1.1.1.1.1.1.1.1.1.1.1.1.1.0) in
      let key = reject_if-none _ _ (all.1.1.1.1.1.1.1.0) in
      let admin = all.1.1.1.1.1.1.1.1.0 in
      let encryption = reject_if-none _ _ (all.1.1.1.1.1.1.1.1.1.0) in
      (
        not_both _ _ private dev,
        elim (Bool-cases serves_api) [
          | inr e ↦ inl e
          | inl e ↦
              let (no_key, long) =
                served (c.role == "api") (c.role == "all") (c.role == "notification")
                  (c.role == "worker") (c.admin_api_key == "") (nat_eq (length c.encryption_key) 32)
                  key encryption e in
              inr (
                not_empty c.admin_api_key no_key,
                (==_iff (length c.encryption_key) 32).0 long,
                elim (Bool-cases c.admin_enabled) [
                  | inr off ↦ inl off
                  | inl on ↦ inr (admin_errors-none (rw (on, e) at admin) dev)
                ],
              )
        ],
      )
