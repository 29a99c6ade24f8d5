-- ===== src/Hub/Tests.antt =====
-- Runs of the loop of internal/core/hub.go.
use wirechat_server.Common.{inr, refl, false, none, List, [], ◌∷◌}
use wirechat_server.Hub.Types.{
  Ptr, new_client, Message, join_room, leave_room, send_room_message, no_message,
}
use wirechat_server.Hub.{Hub}
use wirechat_server.Hub.Stale.{run-hello_panics}
use wirechat_server.Hub.Loop.{Input, registers, unregisters, commands, run, run_to_end}
use wirechat_server.Hub.Frame.{Then}
use wirechat_server.Common.{inr, arith, eq_iff, ◌≡◌, true, some}
use wirechat_server.Effect.{ok, err}
use wirechat_server.Store.Types.{Call, direct_call, ringing}
use wirechat_server.Store.Samples.{call_row_of}
use wirechat_server.Hub.Types.{CallCommand, call_invite}
use wirechat_server.Hub.CallCommands.{CallService}
use wirechat_server.Hub.Ringing.{sent}
use wirechat_server.Hub.Unheard.{AllAnonymous, run-Unheard}
use wirechat_server.Hub.Samples.{names}
use wirechat_server.Hub.Served.{Served}
use wirechat_server.Hub.{
  message_event, remove_from_hub, register, save, fill_message, ensure_room, room_add, room_remove,
  broadcast_to_room, broadcast, try_send, try_deliver, send_history, drop_empty,
}
use wirechat_server.Hub as Rooms
use wirechat_server.Hub.{stuck, panicked}
use wirechat_server.Hub.Closed.{copies, run-hangs, run-panics}
use wirechat_server.Hub.Types.{add_client, remove_client, contains}
use wirechat_server.Hub.Loop.{step, handle_command, changes, identifies, writes, stops, changed}
use wirechat_server.Hub.Served.{Does}
use wirechat_server.Hub.Delivery.{Reaches, send_room_message-Reaches}
use wirechat_server.Hub.Refinement.{Membership, Shows, spec_run, run-Shows}
use wirechat_server.Hub.Shutdown.{run_to_end-Closes}
use wirechat_server.Hub.Samples.{new_hub, den_hub, den_hub-WellFormed, den_hub-Served}
use wirechat_server.Hub.Progress.{IsSound, AllHonest, run-IsSound, Gone, remove_from_hub-Gone}

abbrev hello : Message
hello = let m : Message = no_message in record m { text = "hello" }

abbrev day : List Input
day =
    registers 1
    ∷ changes 1 (identifies 7 "ann" false)
    ∷ commands 1 (join_room "den")
    ∷ registers 2
    ∷ commands 2 (join_room "den")
    ∷ changes 1 writes
    ∷ commands 1 (send_room_message "den" hello)
    ∷ commands 1 (leave_room "den")
    ∷ changes 2 stops
    ∷ unregisters 2
    ∷ []

new_hub-IsSound : IsSound new_hub
unfolding new_client
new_hub-IsSound = (
  record { linked = λ c n. refl; inhabited = λ n r e. cc; once = λ n r e. cc },
  record {
    opened = λ c e. refl;
    keyed = λ c. refl;
    inside = λ c n e. cc;
    users = λ u c e. ground arith;
  },
)

day-AllHonest : AllHonest none day new_hub
unfolding AllHonest step new_client handle_command register Rooms.join_room Rooms.leave_room
    Rooms.send_room_message save fill_message ensure_room room_add room_remove add_client
    remove_client broadcast_to_room broadcast try_send try_deliver send_history drop_empty
    remove_from_hub Rooms.leave_rooms Rooms.close_client changed
day-AllHonest = (
  refl,
  (
    inr (λ u e. ground (arith, e)),
    ((refl, refl), (refl, ((refl, refl), (tt, ((refl, refl), ((refl, refl), (tt, (tt, tt)))))))),
  ),
)

run-IsSound_example : Does IsSound (run none day new_hub)
run-IsSound_example = run-IsSound none day new_hub new_hub-IsSound day-AllHonest

abbrev nobody : Membership
nobody = record { connected = λ c. false; inside = λ n c. false }

run-Shows_example : Does (Shows (spec_run day nobody)) (run none day new_hub)
unfolding new_client
run-Shows_example =
    run-Shows none day nobody new_hub new_hub-IsSound day-AllHonest (λ c. refl, λ n c. refl)

run_to_end-Closes_example :
    Does
      (λ k. (c : Ptr) → contains c k.clients ≡ true → (k.heap c).is_open ≡ false)
      (run_to_end none day new_hub)
unfolding new_client
run_to_end-Closes_example = run_to_end-Closes none day new_hub new_hub-IsSound refl day-AllHonest

remove_from_hub-Gone_example : Does (Gone 1) (remove_from_hub 1 den_hub)
remove_from_hub-Gone_example = remove_from_hub-Gone 1 den_hub den_hub-WellFormed den_hub-Served refl

send_room_message-Reaches_example :
    let sent : Message =
      (save (den_hub.heap 1) (fill_message (den_hub.heap 1) "den" hello den_hub.world) den_hub).0 in
    (sent.text ≡ "hello")
    × (sent.room ≡ "den")
    × (hello.from ≡ "" → sent.from ≡ "ann")
    × Does
        (Reaches "den" (message_event "den" sent) den_hub)
        (Rooms.send_room_message 1 "den" hello den_hub)
unfolding new_client
send_room_message-Reaches_example =
    send_room_message-Reaches 1 "den" hello den_hub den_hub-WellFormed den_hub-Served
      (ground (arith, eq_iff "den" "")) refl

run-panics_example :
    run none (unregisters 1 ∷ commands 1 (join_room "den") ∷ unregisters 1 ∷ []) den_hub ≡ panicked
run-panics_example =
    run-panics none 1 "den" (unregisters 1 ∷ []) den_hub den_hub-WellFormed den_hub-Served refl
      (ground (arith, eq_iff "den" ""))

-- A service that lets every call through, and knows one name.
abbrev made_call : Call
made_call = call_row_of "c9" direct_call 1 none ringing

abbrev open_service : CallService
open_service = record {
  create_direct_call = λ u v w. ok made_call w;
  create_room_call = λ u r w. ok made_call w;
  get_call = λ id w. ok made_call w;
  get_join_info = λ id u w. err "no engine" w;
  end_call = λ id u w. ok tt w;
  reject_call = λ id u reason w. ok tt w;
  leave_call = λ id u w. ok tt w;
  get_target_user = λ u w. ok "bob" w;
  list_room_members = λ r w. ok [] w;
  get_room_info = λ r w. ok "den" w;
}

abbrev call_bob : CallCommand
call_bob = record { call_id = ""; call_type = "direct"; to_user_id = 2; room_id = 0; reason = "" }

-- Two users who are connected.
abbrev two_users : Hub
unfolding new_client
two_users = record new_hub {
  heap = λ c. new_client (names c) (names c) c false;
  clients = 1 ∷ 2 ∷ [];
  user_clients = (1, 1) ∷ (2, 2) ∷ [];
}

run-Unheard_example :
    Then
      (λ k.
        Then
          (λ j. j.heap 2 ≡ k.heap 2)
          (handle_command (some open_service) 1 (call_invite call_bob) k))
      (run (some open_service) (registers 1 ∷ registers 2 ∷ []) new_hub)
unfolding AllAnonymous step register new_client
run-Unheard_example =
    run-Unheard (some open_service) (registers 1 ∷ registers 2 ∷ []) 1 2 (call_invite call_bob)
      new_hub refl (refl, (refl, tt)) refl (ground arith)

run-hangs_example :
    run none
      (changes 1 stops
        ∷ copies 9 (commands 1 (send_room_message "hall" hello)) (unregisters 1 ∷ []))
      den_hub
    ≡ stuck
unfolding new_client
run-hangs_example =
    run-hangs none 1 "hall" hello 9 (unregisters 1 ∷ []) den_hub refl refl (omega arith)
      (omega arith)

run-hello_panics_example :
    run
      (some open_service)
      (changes 2 (identifies 7 "eve" false)
        ∷ unregisters 2
        ∷ commands 1 (call_invite call_bob)
        ∷ [])
      two_users
    ≡ panicked
unfolding new_client
run-hello_panics_example =
    run-hello_panics open_service 2 1 call_bob 7 "eve" false made_call two_users.world [] two_users
      refl refl refl refl (ground arith) (ground arith) refl refl (refl, ground arith) refl refl
