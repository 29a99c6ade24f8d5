-- ===== src/Hub/Complete/Runs.antt =====
-- internal/core/hub.go: whatever the loop does, the events in the channels have what their kinds need.
use wirechat_server.Common.{
  ◌≡◌, refl, String, not, Option, none, List, [], ◌∷◌, str_eq, arith, ◌==◌, Bool-cases,
  Option-cases, inl, inr,
}
use wirechat_server.Effect.{Outcome, ok, err}
use wirechat_server.Store.World.{World, DbError}
use wirechat_server.Store.Types as Stored
use wirechat_server.Store.Rooms.{get_room_by_name}
use wirechat_server.Store.Messages.{list_messages}
use wirechat_server.Hub.Types.{
  Ptr, Client, Message, Command, contains, join_room, leave_room, send_room_message,
}
use wirechat_server.Hub.{
  Hub, Go, done, panicked, stuck, ◌>>=◌, broadcast_to_room, find_room, room_add, room_remove,
  ensure_room, drop_empty, enter, leave, leave_rooms, close_client, forget, remove_from_hub,
  set_client, register, in_world, send_history, send_history_of, send_messages, to_history, save,
  fill_message, joined,
}
use wirechat_server.Hub as Rooms
use wirechat_server.Hub.CallCommands.{CallService}
use wirechat_server.Hub.Commands.{handle_command-Holds}
use wirechat_server.Hub.Logic.{free-Fitting}
use wirechat_server.Hub.Loop.{
  Input, registers, unregisters, commands, Change, writes, stops, identifies, changed, changes,
  handle_command, step, run,
}
use wirechat_server.Hub.Frame.{Then, Then->>=, Then-if}
use wirechat_server.Hub.Members.{room_add-heap}
use wirechat_server.Hub.Leaving.{room_remove-heap}
use wirechat_server.Hub.Delivery.{save-Stores}
use wirechat_server.Hub.Returns.{drop_empty-Elsewhere}
use wirechat_server.Hub.Complete.{
  Whole, take_oldest-Whole, IsComplete, send-IsComplete, broadcast_to_room-IsComplete, complete,
}

changed-Whole : (x : Change) (y : Client) → Whole y → Whole (changed x y)
unfolding changed
changed-Whole writes y w = take_oldest-Whole y w
changed-Whole stops y w = w
changed-Whole (identifies user name guest) y w = w

changed-IsComplete :
    (c : Ptr) (x : Change) (h : Hub)
    → IsComplete h
    → IsComplete (set_client c (changed x (h.heap c)) h)
changed-IsComplete c x h s d = elim (Bool-cases (d == c)) [
  | inl same ↦ rw (same) (changed-Whole x (h.heap c) (s c))
  | inr other ↦ rw (other) (s d)
]

-- The same clients, in another hub.
heap-IsComplete : (h k : Hub) → k.heap ≡ h.heap → IsComplete h → IsComplete k
heap-IsComplete h k e s c = rw e (s c)

enter-IsComplete : (c : Ptr) (n : String) (h : Hub) → IsComplete h → IsComplete (enter c n h)
enter-IsComplete c n h s d = ground (arith, s d)

leave-IsComplete : (c : Ptr) (n : String) (h : Hub) → IsComplete h → IsComplete (leave c n h)
leave-IsComplete c n h s d = ground (arith, s d)

send_messages-IsComplete :
    (c : Ptr) (n : String) (r : Outcome World DbError (List Stored.Message)) (h : Hub)
    → IsComplete h
    → Then IsComplete (send_messages c n r h)
unfolding send_messages
send_messages-IsComplete c n (err e w) h s = s
send_messages-IsComplete c n (ok [] w) h s = s
send_messages-IsComplete c n (ok (m ∷ ms) w) h s =
    send-IsComplete c _ refl (in_world h (to_history n (m ∷ ms) w).1) s

send_history_of-IsComplete :
    (c : Ptr) (n : String) (r : Outcome World DbError Stored.Room) (h : Hub)
    → IsComplete h
    → Then IsComplete (send_history_of c n r h)
unfolding send_history_of
send_history_of-IsComplete c n (err e w) h s = s
send_history_of-IsComplete c n (ok room w) h s =
    send_messages-IsComplete c n (list_messages room.id 20 none w) h s

send_history-IsComplete :
    (c : Ptr) (n : String) (h : Hub) → IsComplete h → Then IsComplete (send_history c n h)
unfolding send_history
send_history-IsComplete c n h s =
    Then-if IsComplete h.has_store _ _
      (send_history_of-IsComplete c n (get_room_by_name n h.world) h s) s

join_room-IsComplete :
    (c : Ptr) (n : String) (h : Hub) → IsComplete h → Then IsComplete (Rooms.join_room c n h)
unfolding Rooms.join_room
join_room-IsComplete c n h s =
    let added : Hub = (room_add c n (ensure_room n h)).0 in
    let kept : IsComplete added = heap-IsComplete h added (room_add-heap c n h) s in
    Then-if IsComplete (str_eq n "") _ _ (send-IsComplete c _ refl h s) (
      Then-if IsComplete (not (room_add c n (ensure_room n h)).1) _ _
        (send-IsComplete c _ refl added kept)
        (Then->>= IsComplete IsComplete (broadcast_to_room n _ (enter c n added)) (send_history c n)
          (broadcast_to_room-IsComplete n _ refl (enter c n added)
            (enter-IsComplete c n added kept))
          (λ k t. send_history-IsComplete c n k t)))

leave_room-IsComplete :
    (c : Ptr) (n : String) (h : Hub) → IsComplete h → Then IsComplete (Rooms.leave_room c n h)
unfolding Rooms.leave_room
leave_room-IsComplete c n h s =
    let gone : Hub = (room_remove c n h).0 in
    let kept : IsComplete gone = heap-IsComplete h gone (room_remove-heap c n h) s in
    elim (Option-cases (find_room n h)) [
      | inl e ↦ rw (e, Rooms.leave_room) (send-IsComplete c _ refl h s)
      | inr (r, e) ↦
          rw (e, Rooms.leave_room)
            (Then-if IsComplete (not (room_remove c n h).1) _ _ (send-IsComplete c _ refl gone kept)
              (Then->>= IsComplete IsComplete (broadcast_to_room n _ (leave c n gone)) _
                (broadcast_to_room-IsComplete n _ refl (leave c n gone)
                  (leave-IsComplete c n gone kept))
                (λ k t. heap-IsComplete k (drop_empty n k) (drop_empty-Elsewhere n k).0 t)))
    ]

leave_rooms-IsComplete :
    (c : Ptr) (ns : List String) (h : Hub) → IsComplete h → Then IsComplete (leave_rooms c ns h)
unfolding leave_rooms
leave_rooms-IsComplete c [] h s = s
leave_rooms-IsComplete c (n ∷ ns) h s =
    Then->>= IsComplete IsComplete (Rooms.leave_room c n h) (leave_rooms c ns)
      (leave_room-IsComplete c n h s) (λ k t. leave_rooms-IsComplete c ns k t)

close_client-IsComplete : (c : Ptr) (h : Hub) → IsComplete h → Then IsComplete (close_client c h)
unfolding close_client forget
close_client-IsComplete c h s =
    Then-if IsComplete (h.heap c).is_open _ _ (λ d. ground (arith, s d)) tt

remove_from_hub-IsComplete :
    (c : Ptr) (h : Hub) → IsComplete h → Then IsComplete (remove_from_hub c h)
unfolding remove_from_hub
remove_from_hub-IsComplete c h s = Then-if IsComplete (not (contains c h.clients)) _ _ s (
    Then->>= IsComplete IsComplete (leave_rooms c (h.heap c).rooms h) (close_client c)
      (leave_rooms-IsComplete c (h.heap c).rooms h s) (λ k t. close_client-IsComplete c k t))

send_room_message-IsComplete :
    (c : Ptr) (n : String) (m : Message) (h : Hub)
    → IsComplete h
    → Then IsComplete (Rooms.send_room_message c n m h)
unfolding Rooms.send_room_message
send_room_message-IsComplete c n m h s =
    let full : Message = fill_message (h.heap c) n m h.world in
    let saved : Hub = (save (h.heap c) full h).1 in
    Then-if IsComplete (str_eq n "") _ _ (send-IsComplete c _ refl h s) (
      Then-if IsComplete (not (joined n (h.heap c).rooms)) _ _ (send-IsComplete c _ refl h s) (
        broadcast_to_room-IsComplete n _ refl saved
          (heap-IsComplete h saved (save-Stores (h.heap c) full h).3 s)))

module _ (svc : Option CallService) where
  handle_command-IsComplete :
      (c : Ptr) (cmd : Command) (h : Hub)
      → IsComplete h
      → Then IsComplete (handle_command svc c cmd h)
  unfolding handle_command
  handle_command-IsComplete c (join_room n) h s = join_room-IsComplete c n h s
  handle_command-IsComplete c (leave_room n) h s = leave_room-IsComplete c n h s
  handle_command-IsComplete c (send_room_message n m) h s = send_room_message-IsComplete c n m h s
  handle_command-IsComplete c cmd h s =
      handle_command-Holds c (complete c) svc (λ x q. free-Fitting (complete c) (λ u v. tt) x) cmd h
        refl s

  step-IsComplete : (i : Input) (h : Hub) → IsComplete h → Then IsComplete (step svc i h)
  unfolding step register
  step-IsComplete (registers c) h s = s
  step-IsComplete (unregisters c) h s = remove_from_hub-IsComplete c h s
  step-IsComplete (commands c cmd) h s = handle_command-IsComplete c cmd h s
  step-IsComplete (changes c x) h s = changed-IsComplete c x h s

  pub run-IsComplete : (is : List Input) (h : Hub) → IsComplete h → Then IsComplete (run svc is h)
  unfolding run
  run-IsComplete [] h s = s
  run-IsComplete (i ∷ is) h s =
      Then->>= IsComplete IsComplete (step svc i h) (run svc is) (step-IsComplete i h s)
        (run-IsComplete is)
