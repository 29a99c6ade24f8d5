-- ===== src/Hub/Loop.antt =====
-- internal/core/hub.go: the dispatch of commands and the event loop.
use wirechat_server.Common.{ℕ, String, Bool, false, Option, List, [], ◌∷◌}
use wirechat_server.Hub.Types.{
  Ptr, Client, Command, send_room_message, join_room, leave_room, call_invite, call_accept,
  call_reject, call_join, call_leave, call_end,
}
use wirechat_server.Hub.{
  Hub, Go, done, panicked, stuck, ◌>>=◌, register, remove_from_hub, shutdown, set_client,
  take_oldest,
}
use wirechat_server.Hub as Rooms
use wirechat_server.Hub.CallCommands.{
  CallService, guarded, invite, accept, reject, join, leave_from, end_for_all,
}

-- What the connection of a client changes of it while the hub runs: its write loop takes an event, or
-- ends, and a hello says who the client is.
pub data Change : Type 0 where
  writes stops : Change
  identifies : ℕ → String → Bool → Change

unfoldable pub changed : Change → Client → Client
changed writes x = take_oldest x
changed stops x = record x { is_reading = false }
changed (identifies user name guest) x = record x { user_id = user; name = name; is_guest = guest }

-- What the loop's `select` receives, and what the connections do between two turns of it.
pub data Input : Type 0 where
  registers unregisters : Ptr → Input
  commands : Ptr → Command → Input
  changes : Ptr → Change → Input

module _ (svc : Option CallService) where
  -- `handleCommand`
  unfoldable pub handle_command : Ptr → Command → Hub → Go Hub
  handle_command c (join_room name) = Rooms.join_room c name
  handle_command c (leave_room name) = Rooms.leave_room c name
  handle_command c (send_room_message name m) = Rooms.send_room_message c name m
  handle_command c (call_invite cmd) = guarded svc c (λ s. invite s c cmd)
  handle_command c (call_accept cmd) = guarded svc c (λ s. accept s c cmd)
  handle_command c (call_reject cmd) = guarded svc c (λ s. reject s c cmd)
  handle_command c (call_join cmd) = guarded svc c (λ s. join s c cmd)
  handle_command c (call_leave cmd) = guarded svc c (λ s. leave_from s c cmd)
  handle_command c (call_end cmd) = guarded svc c (λ s. end_for_all s c cmd)

  unfoldable pub step : Input → Hub → Go Hub
  unfolding changed
  step (registers c) h = done (register c h)
  step (unregisters c) h = remove_from_hub c h
  step (commands c cmd) h = handle_command c cmd h
  step (changes c x) h = done (set_client c (changed x (h.heap c)) h)

  -- `Run`, over the inputs in the order in which the loop takes them.
  unfoldable pub run : List Input → Hub → Go Hub
  run [] h = done h
  run (i ∷ is) h = step i h >>= run is

  -- `Run` up to its return: the context is done after these inputs.
  unfoldable pub run_to_end : List Input → Hub → Go Hub
  unfolding run
  run_to_end is h = run is h >>= shutdown
