-- ===== src/Notification/Subscription/Validation.antt =====
-- internal/domain/notification/model.go: Subscription.Validate.
use shaker.Prelude.{Bool, true, false, not, ◌&&◌, ◌||◌, String, Option, none, some, if◌then◌else◌}
use shaker.Go.Float.{Float, lt, le, lit}
use shaker.Go.Text.{◌==◌}
use shaker.Notification.Subscription.{Subscription}

pub data ValidationError : Type 0 where
  invalid_subscription invalid_geography invalid_magnitude_range invalid_intensity invalid_language
        invalid_webhook_url :
      ValidationError

-- What the method reads of a *url.URL: `has_user` is User != nil.
pub record Url : Type 0 where
  pub scheme : String
  pub host : String
  pub has_user : Bool

-- The outcomes of the method; `panicked` is the run-time panic of a nil pointer dereference.
pub data Outcome : Type 0 where
  accepted panicked : Outcome
  rejected : ValidationError → Outcome

abbrev pub given {ℓ} : {A : Type ℓ} → Option A → Bool
given none = false
given (some _) = true

-- p != nil && test(*p)
abbrev pub given_and {ℓ} : {A : Type ℓ} → Option A → (A → Bool) → Bool
given_and none test = false
given_and (some a) test = test a

abbrev pub unknown_language : String → Bool
unknown_language l = not (l == "en") && not (l == "ru")

-- The branch on the webhook channel: `u.Scheme` is read before `err` is tested, and `u` is nil when
-- url.Parse fails.
unfoldable pub validate_webhook : Option Url → Bool → Outcome
validate_webhook none production = panicked
validate_webhook (some u) production =
    let allowed_scheme = u.scheme == "https" || not production && u.scheme == "http" in
    if u.host == "" || u.has_user || not allowed_scheme
    then rejected invalid_webhook_url
    else accepted

module _ {F : Type 0} ⦃f : Float F⦄ where
  abbrev pub bad_geography : Subscription F → F → Bool
  bad_geography s max_radius =
      let geo = given s.center_latitude || given s.center_longitude || given s.radius_km in
      let intensity_geography = s.channel == "telegram" && given s.minimum_intensity in
      geo
      && (not (given s.center_latitude)
          || not (given s.center_longitude)
          || not (given s.radius_km) && not intensity_geography
          || given_and s.radius_km λ r. le r (lit 0) || lt max_radius r)

module _ {F : Type 0} ⦃f : Float F⦄ (parse_url : String → Option Url) where
  -- Subscription.Validate; `parse_url` is url.Parse
  unfoldable pub validate : Subscription F → F → Bool → Outcome
  unfolding validate_webhook
  validate s max_radius production =
      if s.name == "" || not (s.channel == "webhook") && not (s.channel == "telegram")
      then rejected invalid_subscription
      else if s.channel == "telegram" && not (given s.telegram_chat_id)
      then rejected invalid_subscription
      else if bad_geography s max_radius
      then rejected invalid_geography
      else if given s.minimum_intensity
          && (not (given s.center_latitude) || not (given s.center_longitude))
      then rejected invalid_geography
      else if given_and s.minimum_intensity (λ i. lt i (lit 2) || lt (lit 6) i)
      then rejected invalid_intensity
      else if given_and s.notification_language unknown_language
      then rejected invalid_language
      else if given_and s.minimum_magnitude
          (λ low. given_and s.maximum_magnitude (λ high. lt high low))
      then rejected invalid_magnitude_range
      else if s.channel == "webhook"
      then validate_webhook (parse_url s.webhook_url) production
      else accepted
