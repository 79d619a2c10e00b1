-- ===== src/Realtime/Hub.antt =====
-- internal/realtime/hub.go: Hub, as a machine on the channels of its subscribers.
pub mod Channels
use shaker.Prelude.{
  ℕ, Bool, true, false, ◌||◌, ◌++◌, ◌==◌, String, Option, List, [], ◌∷◌, map, length, ltb,
  if◌then◌else◌,
}
use shaker.Go.Sql.{update_where}

pub record Message (D : Type 0) : Type 0 where
  pub kind : String
  pub content : Option D

-- A channel that Subscribe made: what waits in its buffer, whether it is a key of `clients`, and
-- whether it is closed. A channel is misused when it is closed twice or sent on after it was
-- closed; both are panics.
pub record Channel (D : Type 0) : Type 0 where
  pub id : ℕ
  pub buffer : List (Message D)
  pub registered : Bool
  pub closed : Bool
  pub misused : Bool

pub record Hub (D : Type 0) : Type 0 where
  pub channels : List (Channel D)
  pub published : List (Message D)
  pub running : Bool

abbrev pub client_buffer : ℕ
client_buffer = 32

abbrev pub publish_buffer : ℕ
publish_buffer = 256

unfoldable pub new_hub : {D : Type 0} → Hub D
new_hub = record { channels = []; published = []; running = true }

unfoldable pub close_channel : {D : Type 0} → Channel D → Channel D
close_channel c = record c { closed = true; misused = c.closed || c.misused }

-- `delete(clients, client); close(client)` under its test
unfoldable pub unregister : {D : Type 0} → Channel D → Channel D
unfolding close_channel
unregister c = if c.registered then record (close_channel c) { registered = false } else c

-- `select { case client <- message: default: }`
unfoldable pub offer : {D : Type 0} → Message D → Channel D → Channel D
offer m c =
    if c.closed
    then record c { misused = true }
    else if ltb (length c.buffer) client_buffer
    then record c { buffer = c.buffer ++ (m ∷ []) }
    else c

unfoldable pub offer_registered : {D : Type 0} → Message D → Channel D → Channel D
unfolding offer
offer_registered m c = if c.registered then offer m c else c

unfoldable pub read_one : {D : Type 0} → List (Message D) → List (Message D)
read_one [] = []
read_one (m ∷ ms) = ms

unfoldable pub receive : {D : Type 0} → Channel D → Channel D
unfolding read_one
receive c = record c { buffer = read_one c.buffer }

-- What can happen next: a call of Subscribe whose channel the hub takes, or whose context ends
-- first; the end of a subscriber's context; a call of Publish; the hub's turn to pass a message on;
-- a subscriber reading; the end of the hub's context.
pub data Action (D : Type 0) : Type 0 where
  subscribe : ℕ → Action D
  give_up : ℕ → Action D
  unsubscribe : ℕ → Action D
  publish : Message D → Action D
  pass_on : Action D
  read : ℕ → Action D
  stop : Action D

unfoldable pub open_channel : {D : Type 0} → ℕ → Channel D
open_channel id = record {
  id = id;
  buffer = [];
  registered = true;
  closed = false;
  misused = false;
}

-- the channel of a call of Subscribe whose context ends before the hub takes it
unfoldable pub given_up : {D : Type 0} → ℕ → Channel D
unfolding close_channel open_channel
given_up id = close_channel (record (open_channel id) { registered = false })

unfoldable pub pass_first : {D : Type 0} → Hub D → List (Message D) → Hub D
unfolding offer_registered
pass_first hub [] = hub
pass_first hub (m ∷ ms) = record hub {
  channels = map (offer_registered m) hub.channels;
  published = ms;
}

-- Without a hub.running nothing is taken from `subscribe`, `unsubscribe` or `publish`.
unfoldable pub step : {D : Type 0} → Action D → Hub D → Hub D
unfolding open_channel given_up unregister pass_first receive
step (subscribe id) hub =
    if hub.running then record hub { channels = open_channel id ∷ hub.channels } else hub
step (give_up id) hub = record hub { channels = given_up id ∷ hub.channels }
step (unsubscribe id) hub =
    if hub.running
    then record hub { channels = update_where (λ c. c.id == id) unregister hub.channels }
    else hub
step (publish m) hub =
    if ltb (length hub.published) publish_buffer
    then record hub { published = hub.published ++ (m ∷ []) }
    else hub
step pass_on hub = if hub.running then pass_first hub hub.published else hub
step (read id) hub = record hub { channels = update_where (λ c. c.id == id) receive hub.channels }
step stop hub =
    if hub.running
    then record hub { channels = map unregister hub.channels; running = false }
    else hub

unfoldable pub run : {D : Type 0} → List (Action D) → Hub D → Hub D
unfolding step
run [] hub = hub
run (a ∷ rest) hub = run rest (step a hub)
