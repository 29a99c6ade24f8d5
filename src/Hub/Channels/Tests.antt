-- ===== src/Hub/Channels/Tests.antt =====
-- Schedules of the goroutines of internal/core/hub.go.
use wirechat_server.Common.{
  ◌≡◌, ◌≤◌, refl, ℕ, zero, suc, none, some, List, [], ◌∷◌, ◌++◌, length, arith, ◌==◌, if◌then◌else◌,
}
use wirechat_server.Hub.Types.{Ptr, join_room, leave_room, new_client, add_client}
use wirechat_server.Hub.{
  register, ensure_room, room_add, broadcast_to_room, broadcast, try_send, try_deliver,
  send_history,
}
use wirechat_server.Hub as Rooms
use wirechat_server.Hub.Samples.{new_hub}
use wirechat_server.Hub.Members.{WellFormed}
use wirechat_server.Hub.Loop.{step, handle_command}
use wirechat_server.Hub.Channels.{
  System, Act, registers, submits, fetches, hands, takes_registration, takes_command, perform,
  perform_all, register_client, inbox_cap,
}
use wirechat_server.Hub.Channels.Line.{of, submitted, registrations}
use wirechat_server.Hub.Channels.Rooms.{perform_all-WellFormed}
use wirechat_server.Hub.Channels.Schedules.{perform_all-InOrder, register_client-Drops}

-- Nothing has happened yet.
abbrev quiet : System
quiet = record {
  hub = new_hub;
  registering = [];
  unregistering = [];
  queued = [];
  inbox = λ c. [];
  waiting = λ c. 0;
  holding = λ c. [];
  handled = [];
}

-- A client registers and submits two commands, of which the loop gets one.
abbrev visit : List Act
visit =
    registers 1
    ∷ submits 1 (join_room "den")
    ∷ takes_registration
    ∷ fetches 1
    ∷ submits 1 (leave_room "den")
    ∷ hands 1 0
    ∷ fetches 1
    ∷ takes_command
    ∷ []

abbrev visited : System
unfolding perform_all perform register_client step new_client handle_command register
    Rooms.join_room ensure_room room_add add_client broadcast_to_room broadcast try_send try_deliver
    send_history
visited = elim (perform_all none visit quiet) [ none ↦ quiet | some t ↦ t ]

perform_all-InOrder_example :
    of 1 visited.handled ++ (of 1 visited.queued ++ (visited.holding 1 ++ visited.inbox 1))
    ≡ join_room "den" ∷ leave_room "den" ∷ []
unfolding perform_all perform register_client step new_client handle_command register
    Rooms.join_room ensure_room room_add add_client broadcast_to_room broadcast try_send try_deliver
    send_history registrations submitted
perform_all-InOrder_example = perform_all-InOrder none 1 visit quiet visited (omega arith) refl

perform_all-WellFormed_example : WellFormed visited.hub
unfolding perform_all perform register_client step new_client handle_command register
    Rooms.join_room ensure_room room_add add_client broadcast_to_room broadcast try_send try_deliver
    send_history
perform_all-WellFormed_example =
    perform_all-WellFormed none visit quiet visited
      (record { linked = λ c n. refl; inhabited = λ n r e. cc; once = λ n r e. cc }) refl

-- The channel of registrations, full of others.
abbrev others : ℕ → List Ptr
others zero = []
others (suc n) = 7 ∷ others n

abbrev busy : System
busy = record quiet { registering = others 16 }

abbrev unheard : System
unheard = record busy { inbox = λ c. if c == 1 then join_room "den" ∷ [] else [] }

register_client-Drops_example :
    (register_client 1 busy ≡ busy)
    × (of 1 unheard.handled ≡ [])
    × (length (submitted 1 (submits 1 (join_room "den") ∷ [])) ≤ inbox_cap)
unfolding perform_all perform register_client registrations submitted
register_client-Drops_example =
    register_client-Drops none 1 (submits 1 (join_room "den") ∷ []) busy unheard
      (record {
        registering = omega arith;
        unregistering = omega arith;
        queued = omega arith;
        inbox = omega arith;
      })
      refl refl refl refl
