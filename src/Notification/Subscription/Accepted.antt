-- ===== src/Notification/Subscription/Accepted.antt =====
-- Which subscriptions Subscription.Validate of internal/domain/notification/model.go accepts.
use shaker.Prelude.{
  Bool, false, String, Option, none, some, ◌≡◌, ◌≢◌, ◌↔◌, ◌⊎◌, arith, eq_iff, not, if◌then◌else◌,
  ◌&&◌, ◌||◌,
}
use shaker.Go.Float.{Float, lt, le, lit}
use shaker.Go.Text.{◌==◌}
use shaker.Notification.Subscription.{Subscription}
use shaker.Notification.Subscription.Validation.{
  Url, Outcome, accepted, panicked, rejected, invalid_subscription, invalid_geography,
  invalid_intensity, invalid_language, invalid_magnitude_range, validate, validate_webhook, given,
  given_and, unknown_language, bad_geography,
}

-- A host, no credentials, and https; or http outside production.
abbrev pub IsWebhook : Option Url → Bool → Type 0
IsWebhook none production = ⊥
IsWebhook (some u) production =
    (u.host ≢ "")
    × (u.has_user ≡ false)
    × ((u.scheme ≡ "https") ⊎ ((production ≡ false) × (u.scheme ≡ "http")))

abbrev pub IsLanguage : Option String → Type 0
IsLanguage none = Unit
IsLanguage (some l) = (l ≡ "en") ⊎ (l ≡ "ru")

IsWebhook-iff :
    (u : Option Url) (production : Bool)
    → (validate_webhook u production ≡ accepted) ↔ IsWebhook u production
unfolding validate_webhook
IsWebhook-iff none production = ground arith
IsWebhook-iff (some u) production =
    ground (arith, eq_iff u.host "", eq_iff u.scheme "https", eq_iff u.scheme "http")

IsLanguage-iff : (l : Option String) → (given_and l unknown_language ≡ false) ↔ IsLanguage l
IsLanguage-iff none = ground arith
IsLanguage-iff (some l) = ground (arith, eq_iff l "en", eq_iff l "ru")

named_iff : (n : String) → ((n == "") ≡ false) ↔ (n ≢ "")
named_iff n = ground (arith, eq_iff n "")

webhook_not_telegram : (c : String) → c ≡ "webhook" → c ≡ "telegram" → ⊥
webhook_not_telegram c e k = cc

-- A chain of tests, each of which rejects.
abbrev chain : Bool → Bool → Bool → Bool → Bool → Bool → Bool → Bool → Outcome → Outcome
chain a b c d g i l r w =
    if a || b
    then rejected invalid_subscription
    else if c
    then rejected invalid_subscription
    else if d
    then rejected invalid_geography
    else if g
    then rejected invalid_geography
    else if i
    then rejected invalid_intensity
    else if l
    then rejected invalid_language
    else if r
    then rejected invalid_magnitude_range
    else w

-- Every test of a chain lets pass, and the chain ends in an outcome.
abbrev IsPassed : Bool → Bool → Bool → Bool → Bool → Bool → Bool → Bool → Outcome → Outcome → Type 0
IsPassed a b c d g i l r w last =
    (a ≡ false)
    × ((b || c) ≡ false)
    × ((d || g) ≡ false)
    × (i ≡ false)
    × (l ≡ false)
    × (r ≡ false)
    × (w ≡ last)

cascade :
    (a b c d g i l r : Bool) (w : Outcome)
    → (chain a b c d g i l r w ≡ accepted) ↔ IsPassed a b c d g i l r w accepted
cascade a b c d g i l r w = ground arith

cascade-panicked :
    (a b c d g i l r : Bool) (w : Outcome)
    → (chain a b c d g i l r w ≡ panicked) ↔ IsPassed a b c d g i l r w panicked
cascade-panicked a b c d g i l r w = ground arith

validate_webhook-panicked :
    (u : Option Url) (production : Bool) → (validate_webhook u production ≡ panicked) ↔ (u ≡ none)
unfolding validate_webhook
validate_webhook-panicked none production = ground arith
validate_webhook-panicked (some u) production = ground arith

module _ {F : Type 0} ⦃f : Float F⦄ where
  abbrev pub IsIntensity : Option F → Type 0
  IsIntensity none = Unit
  IsIntensity (some i) = (lt i (lit 2) ≡ false) × (lt (lit 6) i ≡ false)

  abbrev pub IsRange : Option F → Option F → Type 0
  IsRange (some low) (some high) = lt high low ≡ false
  IsRange _ _ = Unit

  -- A radius is positive and at most the maximum, or left to the intensity model.
  abbrev pub IsRadius : Option F → F → String → Option F → Type 0
  IsRadius (some r) max_radius channel intensity =
      (le r (lit 0) ≡ false) × (lt max_radius r ≡ false)
  IsRadius none max_radius channel intensity = (channel ≡ "telegram") × (intensity ≢ none)

  -- No place at all, or a center with its radius.
  abbrev pub IsGeography : Subscription F → F → Type 0
  IsGeography s max_radius =
      ((s.center_latitude ≡ none)
        × (s.center_longitude ≡ none)
        × (s.radius_km ≡ none)
        × (s.minimum_intensity ≡ none))
      ⊎ ((s.center_latitude ≢ none)
          × (s.center_longitude ≢ none)
          × IsRadius s.radius_km max_radius s.channel s.minimum_intensity)

  pub record IsAcceptable (parse_url : String → Option Url) (s : Subscription F) (max_radius : F)
      (production : Bool) : Type 0 where
    pub named : s.name ≢ ""
    pub channel :
        ((s.channel ≡ "webhook") × IsWebhook (parse_url s.webhook_url) production)
        ⊎ ((s.channel ≡ "telegram") × (s.telegram_chat_id ≢ none))
    pub geography : IsGeography s max_radius
    pub intensity : IsIntensity s.minimum_intensity
    pub language : IsLanguage s.notification_language
    pub range : IsRange s.minimum_magnitude s.maximum_magnitude

  abbrev bad_center : Subscription F → Bool
  bad_center s =
      given s.minimum_intensity && (not (given s.center_latitude) || not (given s.center_longitude))

  IsGeography-iff :
      (s : Subscription F) (max_radius : F)
      → ((bad_geography s max_radius || bad_center s) ≡ false) ↔ IsGeography s max_radius
  IsGeography-iff s max_radius = ground (arith, eq_iff s.channel "telegram")

  IsIntensity-iff :
      (i : Option F) → (given_and i (λ i. lt i (lit 2) || lt (lit 6) i) ≡ false) ↔ IsIntensity i
  IsIntensity-iff i = ground arith

  IsRange-iff :
      (low high : Option F)
      → (given_and low (λ low. given_and high (λ high. lt high low)) ≡ false) ↔ IsRange low high
  IsRange-iff low high = ground arith

  -- The tests on the channel, which Validate makes first and last.
  channel_iff :
      (parse_url : String → Option Url) (s : Subscription F) (production : Bool)
      → (((not (s.channel == "webhook") && not (s.channel == "telegram")
              || s.channel == "telegram" && not (given s.telegram_chat_id))
            ≡ false)
          × ((if s.channel == "webhook"
                then validate_webhook (parse_url s.webhook_url) production
                else accepted)
              ≡ accepted))
        ↔ (((s.channel ≡ "webhook") × IsWebhook (parse_url s.webhook_url) production)
            ⊎ ((s.channel ≡ "telegram") × (s.telegram_chat_id ≢ none)))
  channel_iff parse_url s production = ground (
    arith,
    eq_iff s.channel "webhook",
    eq_iff s.channel "telegram",
    webhook_not_telegram s.channel,
    IsWebhook-iff (parse_url s.webhook_url) production,
  )

  -- The whole of what Validate accepts: a name; a webhook whose URL is acceptable, or a Telegram
  -- chat; no place, or a center with a radius in range (left out only for a Telegram intensity
  -- subscription); an intensity from 2 to 6; a known language; and a magnitude range that is not
  -- reversed.
  pub validate-accepted :
      (parse_url : String → Option Url) (s : Subscription F) (max_radius : F) (production : Bool)
      → (validate parse_url s max_radius production ≡ accepted)
        ↔ IsAcceptable parse_url s max_radius production
  unfolding validate
  validate-accepted parse_url s max_radius production =
      let c = channel_iff parse_url s production in
      let g = IsGeography-iff s max_radius in
      let n = named_iff s.name in
      let i = IsIntensity-iff s.minimum_intensity in
      let l = IsLanguage-iff s.notification_language in
      let r = IsRange-iff s.minimum_magnitude s.maximum_magnitude in
      let k = cascade _ _ _ _ _ _ _ _ _ in
      (
        λ e.
            let (a, ch, geo, int, lang, range, last) = k.0 e in
            record {
              named = n.0 a;
              channel = c.0 (ch, last);
              geography = g.0 geo;
              intensity = i.0 int;
              language = l.0 lang;
              range = r.0 range;
            },
        λ h. k.1 (
          n.1 h.named,
          (c.1 h.channel).0,
          g.1 h.geography,
          i.1 h.intensity,
          l.1 h.language,
          r.1 h.range,
          (c.1 h.channel).1,
        ),
      )

  -- A webhook subscription with a URL that url.Parse does not read, and nothing else to reject.
  pub record IsUnparsed (parse_url : String → Option Url) (s : Subscription F) (max_radius : F)
      : Type 0 where
    pub named : s.name ≢ ""
    pub webhook : s.channel ≡ "webhook"
    pub unparsed : parse_url s.webhook_url ≡ none
    pub geography : IsGeography s max_radius
    pub intensity : IsIntensity s.minimum_intensity
    pub language : IsLanguage s.notification_language
    pub range : IsRange s.minimum_magnitude s.maximum_magnitude

  channel-panicked :
      (parse_url : String → Option Url) (s : Subscription F) (production : Bool)
      → (((not (s.channel == "webhook") && not (s.channel == "telegram")
              || s.channel == "telegram" && not (given s.telegram_chat_id))
            ≡ false)
          × ((if s.channel == "webhook"
                then validate_webhook (parse_url s.webhook_url) production
                else accepted)
              ≡ panicked))
        ↔ ((s.channel ≡ "webhook") × (parse_url s.webhook_url ≡ none))
  channel-panicked parse_url s production = ground (
    arith,
    eq_iff s.channel "webhook",
    eq_iff s.channel "telegram",
    webhook_not_telegram s.channel,
    validate_webhook-panicked (parse_url s.webhook_url) production,
  )

  -- Validate panics exactly for a named webhook subscription whose URL url.Parse does not read, and
  -- whose place, intensity, language and magnitude range it would accept.
  pub validate-panicked :
      (parse_url : String → Option Url) (s : Subscription F) (max_radius : F) (production : Bool)
      → (validate parse_url s max_radius production ≡ panicked) ↔ IsUnparsed parse_url s max_radius
  unfolding validate
  validate-panicked parse_url s max_radius production =
      let c = channel-panicked parse_url s production in
      let g = IsGeography-iff s max_radius in
      let n = named_iff s.name in
      let i = IsIntensity-iff s.minimum_intensity in
      let l = IsLanguage-iff s.notification_language in
      let r = IsRange-iff s.minimum_magnitude s.maximum_magnitude in
      let k = cascade-panicked _ _ _ _ _ _ _ _ _ in
      (
        λ e.
            let (a, ch, geo, int, lang, range, last) = k.0 e in
            record {
              named = n.0 a;
              webhook = (c.0 (ch, last)).0;
              unparsed = (c.0 (ch, last)).1;
              geography = g.0 geo;
              intensity = i.0 int;
              language = l.0 lang;
              range = r.0 range;
            },
        λ h. k.1 (
          n.1 h.named,
          (c.1 (h.webhook, h.unparsed)).0,
          g.1 h.geography,
          i.1 h.intensity,
          l.1 h.language,
          r.1 h.range,
          (c.1 (h.webhook, h.unparsed)).1,
        ),
      )
