-- ===== src/Realtime/Hub/Channels.antt =====
-- internal/realtime/hub.go: what every interleaving keeps true of the channels.
use shaker.Prelude.{
  ℕ, ◌≡◌, refl, inl, inr, Bool, true, false, not, List, [], ◌∷◌, map, length, ◌≤◌, arith,
  Bool-cases, All, ltb, if◌then◌else◌, subst, sym, ◌==◌, length-append,
}
use shaker.Go.Sql.Rows.{All-update_where}
use shaker.Realtime.Hub.{
  Message, Channel, Hub, Action, subscribe, give_up, unsubscribe, publish, pass_on, read, stop,
  client_buffer, publish_buffer, new_hub, close_channel, unregister, offer, offer_registered,
  read_one, receive, open_channel, given_up, pass_first, step, run,
}

-- A channel was never misused, is open exactly while it is registered, which takes a hub.running,
-- and holds no more than its buffer.
unfoldable pub IsSound : {D : Type 0} → Bool → Channel D → Type 0
IsSound on c =
    (c.misused ≡ false)
    × (c.closed ≡ not c.registered)
    × (c.registered ≡ true → on ≡ true)
    × (length c.buffer ≤ client_buffer)

unfoldable pub IsSafe : {D : Type 0} → Hub D → Type 0
unfolding IsSound
IsSafe hub = All (IsSound hub.running) hub.channels × (length hub.published ≤ publish_buffer)

-- a channel that the hub takes, and one whose subscriber gave up
open_channel-IsSound : (D : Type 0) (id : ℕ) → IsSound true (open_channel {D = D} id)
unfolding IsSound open_channel
open_channel-IsSound D id = (refl, refl, λ p. refl, omega arith)

given_up-IsSound : (D : Type 0) (on : Bool) (id : ℕ) → IsSound on (given_up {D = D} id)
unfolding IsSound given_up open_channel close_channel
given_up-IsSound D on id = (refl, refl, λ p. ground (arith, p), omega arith)

if-keeps {ℓ} :
    {A : Type ℓ} (P : A → Type 0) (b : Bool) {x y : A}
    → (b ≡ true → P x)
    → (b ≡ false → P y)
    → P (if b then x else y)
if-keeps P true on_true on_false = on_true refl
if-keeps P false on_true on_false = on_false refl

module _ {D : Type 0} where
  length-read_one : (ms : List (Message D)) → length (read_one ms) ≤ length ms
  unfolding read_one
  length-read_one [] = omega arith
  length-read_one (m ∷ ms) = omega arith

  -- closing is right in the state of the hub before and after its end
  unregister-IsSound : (on off : Bool) (c : Channel D) → IsSound on c → IsSound off (unregister c)
  unfolding IsSound unregister close_channel
  unregister-IsSound on off c (used, ends, serves, room) = elim (Bool-cases c.registered) [
    | inl e ↦ rw e (ground (arith, used, ends, e), refl, λ p. ground (arith, p), room)
    | inr e ↦ rw e (used, ground (arith, ends, e), λ p. ground (arith, p, e), room)
  ]

  offer-IsSound :
      (on : Bool) (m : Message D) (c : Channel D)
      → IsSound on c
      → c.closed ≡ false
      → IsSound on (offer m c)
  unfolding IsSound offer
  offer-IsSound on m c (used, ends, serves, room) is_open =
      if-keeps (IsSound on) c.closed (λ e. ground (arith, is_open, e))
        (λ e.
          if-keeps (IsSound on) (ltb (length c.buffer) client_buffer)
            (λ fits. (used, ends, serves, ground (arith, fits, length-append c.buffer (m ∷ []))))
            (λ full. (used, ends, serves, room)))

  offer_registered-IsSound :
      (on : Bool) (m : Message D) (c : Channel D) → IsSound on c → IsSound on (offer_registered m c)
  unfolding IsSound offer_registered
  offer_registered-IsSound on m c h =
      if-keeps (IsSound on) c.registered (λ e. offer-IsSound on m c h (ground (arith, h.1, e)))
        (λ e. h)

  receive-IsSound : (on : Bool) (c : Channel D) → IsSound on c → IsSound on (receive c)
  unfolding IsSound receive
  receive-IsSound on c (used, ends, serves, room) =
      (used, ends, serves, omega (arith, room, length-read_one c.buffer))

  All-map :
      (P Q : Channel D → Type 0) (g : Channel D → Channel D)
      → ((c : Channel D) → P c → Q (g c))
      → (cs : List (Channel D)) → All P cs
      → All Q (map g cs)
  All-map P Q g keeps [] h = tt
  All-map P Q g keeps (c ∷ cs) h = (keeps c h.0, All-map P Q g keeps cs h.1)

  pass_first-IsSafe :
      (hub : Hub D) (ms : List (Message D))
      → IsSafe hub
      → length ms ≤ publish_buffer
      → IsSafe (pass_first hub ms)
  unfolding IsSafe pass_first
  pass_first-IsSafe hub [] h room = h
  pass_first-IsSafe hub (m ∷ ms) h room = (
    All-map (IsSound hub.running) (IsSound hub.running) (offer_registered m)
        (offer_registered-IsSound hub.running m) hub.channels h.0,
    omega (arith, room),
  )

  step-IsSafe : (a : Action D) (hub : Hub D) → IsSafe hub → IsSafe (step a hub)
  unfolding IsSafe step
  step-IsSafe (subscribe id) hub h =
      if-keeps IsSafe hub.running
        (λ e. (
          (
            subst (λ on. IsSound on (open_channel {D = D} id)) (sym e) (open_channel-IsSound D id),
            h.0,
          ),
          h.1,
        ))
        (λ e. h)
  step-IsSafe (give_up id) hub h = ((given_up-IsSound D hub.running id, h.0), h.1)
  step-IsSafe (unsubscribe id) hub h =
      if-keeps IsSafe hub.running
        (λ e. (
          All-update_where (IsSound hub.running) (IsSound hub.running) (λ c. c.id == id) unregister
              (λ c sound chosen. unregister-IsSound hub.running hub.running c sound)
              (λ c sound other. sound) hub.channels h.0,
          h.1,
        ))
        (λ e. h)
  step-IsSafe (publish m) hub h =
      if-keeps IsSafe (ltb (length hub.published) publish_buffer)
        (λ fits. (h.0, ground (arith, fits, length-append hub.published (m ∷ [])))) (λ full. h)
  step-IsSafe pass_on hub h =
      if-keeps IsSafe hub.running (λ e. pass_first-IsSafe hub hub.published h h.1) (λ e. h)
  step-IsSafe (read id) hub h = (
    All-update_where (IsSound hub.running) (IsSound hub.running) (λ c. c.id == id) receive
        (λ c sound chosen. receive-IsSound hub.running c sound) (λ c sound other. sound)
        hub.channels h.0,
    h.1,
  )
  step-IsSafe stop hub h =
      if-keeps IsSafe hub.running
        (λ e. (
          All-map (IsSound hub.running) (IsSound false) unregister
              (unregister-IsSound hub.running false) hub.channels h.0,
          h.1,
        ))
        (λ e. h)

  run-keeps : (actions : List (Action D)) (hub : Hub D) → IsSafe hub → IsSafe (run actions hub)
  unfolding run
  run-keeps [] hub h = h
  run-keeps (a ∷ rest) hub h = run-keeps rest (step a hub) (step-IsSafe a hub h)

  -- In every interleaving of subscriptions, cancellations, publications and reads with the turns
  -- and the end of a new hub, no channel is closed twice or sent on after it was closed, a channel
  -- is open exactly while it is registered with a running hub, so that the end of the hub closes
  -- every channel, and neither a client's buffer nor the hub's holds more than its capacity.
  pub run-IsSafe : (actions : List (Action D)) → IsSafe (run actions new_hub)
  unfolding IsSafe new_hub
  run-IsSafe actions = run-keeps actions new_hub (tt, omega arith)
