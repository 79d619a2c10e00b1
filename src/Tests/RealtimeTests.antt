-- ===== src/Tests/RealtimeTests.antt =====
-- A hub with two subscribers of whom one leaves, until it stops.
use shaker.Prelude.{ℕ, ◌≡◌, refl, true, false, none, List, [], ◌∷◌}
use shaker.Go.Sql.{update_where}
use shaker.Realtime.Hub.{
  Message, Hub, Action, subscribe, give_up, unsubscribe, publish, pass_on, read, stop, new_hub,
  close_channel, unregister, offer, offer_registered, read_one, receive, open_channel, given_up,
  pass_first, step, run,
}
use shaker.Realtime.Hub.Channels.{IsSafe, run-IsSafe}

abbrev changed : Message ℕ
changed = record { kind = "notification_changed"; content = none }

-- the subscriber 1 leaves before the second message is passed on
abbrev actions : List (Action ℕ)
actions =
    subscribe 0
    ∷ subscribe 1
    ∷ publish changed
    ∷ pass_on
    ∷ unsubscribe 1
    ∷ give_up 2
    ∷ publish changed
    ∷ pass_on
    ∷ read 0
    ∷ unsubscribe 1
    ∷ stop
    ∷ publish changed
    ∷ []

run-IsSafe_example : IsSafe (run actions new_hub)
run-IsSafe_example = run-IsSafe actions

abbrev left : Hub ℕ
left = record {
  channels =
      record { id = 2; buffer = []; registered = false; closed = true; misused = false }
      ∷ record { id = 1; buffer = changed ∷ []; registered = false; closed = true; misused = false }
      ∷ record { id = 0; buffer = changed ∷ []; registered = false; closed = true; misused = false }
      ∷ [];
  published = changed ∷ [];
  running = false;
}

run_example : run actions new_hub ≡ left
unfolding run step update_where new_hub unregister close_channel offer_registered offer receive
    read_one open_channel given_up pass_first
run_example = refl
