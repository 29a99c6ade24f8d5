-- ===== src/Hub/Closed.antt =====
-- internal/core/hub.go: commands of a client that the hub has removed, or that nobody reads for.
use wirechat_server.Common.{
  ltb, length-append, ◌≤◌, ◌<◌, ◌+◌, ℕ, zero, suc, Bool-cases, inl, inr, length, [], if◌then◌else◌,
  ◌≡◌, refl, ◌∙◌, ◌≢◌, sym, String, true, false, Option, some, List, ◌∷◌, find, arith, eq_iff,
  eq_refl, str_eq,
}
use wirechat_server.Hub.Types.Command.{join_room as joins_room, send_room_message as says}
use wirechat_server.Hub.Types.{
  Message, error_event, code_bad_request, code_not_in_room, events_cap, contains, Ptr, Room, Event,
  add_client,
}
use wirechat_server.Hub.{
  Hub, Go, done, panicked, stuck, ◌>>=◌, try_deliver, try_send, broadcast, broadcast_to_room,
  send_room_message, send, deliver, push, set_client, join_room, room_add, ensure_room, is_named,
  joined, remove_from_hub, enter,
}
use wirechat_server.Hub.Loop.{
  changes, stops, changed, Input, unregisters, commands, run, step, handle_command,
}
use wirechat_server.Hub.CallCommands.{CallService}
use wirechat_server.Hub.Served.{Does, Served}
use wirechat_server.Hub.Progress.{Gone, remove_from_hub-Gone}
use wirechat_server.Hub.Members.{WellFormed, room_of, room_add-added, room_add-heap, find-room_add}

broadcast-closed :
    (c : Ptr) (cs : List Ptr) (e : Event) (h : Hub)
    → (h.heap c).is_open ≡ false
    → broadcast (c ∷ cs) e h ≡ panicked
unfolding broadcast try_send try_deliver
broadcast-closed c cs e h o = rw o refl

broadcast_to_room-closed :
    (c : Ptr) (n : String) (e : Event) (h : Hub) (r : Room) (cs : List Ptr)
    → (h.heap c).is_open ≡ false
    → find (is_named n) h.rooms ≡ some r
    → r.clients ≡ c ∷ cs
    → broadcast_to_room n e h ≡ panicked
unfolding broadcast_to_room
broadcast_to_room-closed c n e h r cs o f q = ground (arith, f, q, broadcast-closed c cs e h o)

pub join_room-panics :
    (c : Ptr) (n : String) (h : Hub)
    → WellFormed h
    → n ≢ ""
    → (h.heap c).is_open ≡ false
    → joined n (h.heap c).rooms ≡ false
    → join_room c n h ≡ panicked
unfolding join_room add_client
join_room-panics c n h w e o out =
    let added : Hub = (room_add c n (ensure_room n h)).0 in
    let named : str_eq n "" ≡ false = ground (arith, eq_iff n "", e) in
    let new : (room_add c n (ensure_room n h)).1 ≡ true =
      ground (arith, room_add-added c n h, w.linked c n, out) in
    rw
      (
        named,
        new,
        broadcast_to_room-closed c n _ (enter c n added) (add_client c (room_of n h.rooms)).0
            (room_of n h.rooms).clients (ground (arith, o, room_add-heap c n h))
            (ground (arith, find-room_add c n n h, eq_refl n))
            (ground (arith, room_add-added c n h, w.linked c n, out)),
      )
      refl

bind-panics :
    (P : Hub → Type 0) (m : Go Hub) (f : Hub → Go Hub)
    → Does P m
    → ((k : Hub) → P k → f k ≡ panicked)
    → (m >>= f) ≡ panicked
bind-panics P (done k) f p q = q k p
bind-panics P panicked f p q = refl
bind-panics P stuck f p q = cc

-- In a well-formed and served hub, if the loop takes the unregistration of a client of the hub and
-- then a command of that client to join a room with a name, it panics, with any call service.
pub run-panics :
    (svc : Option CallService) (c : Ptr) (n : String) (is : List Input) (h : Hub)
    → WellFormed h
    → Served h
    → contains c h.clients ≡ true
    → n ≢ ""
    → run svc (unregisters c ∷ commands c (joins_room n) ∷ is) h ≡ panicked
unfolding run step handle_command
run-panics svc c n is h w s e named =
    bind-panics (Gone c) (remove_from_hub c h) _ (remove_from_hub-Gone c h w s e) (λ k g.
      rw (join_room-panics c n k g.formed named g.closed (sym (g.formed.linked c n) ∙ g.outside n))
        refl)

-- An input, a number of times, and the rest.
abbrev pub copies : ℕ → Input → List Input → List Input
copies zero i is = is
copies (suc k) i is = i ∷ copies k i is

-- A client of which nobody takes the events any more, and that is not in the room.
record Abandoned (c : Ptr) (n : String) (h : Hub) : Type 0 where
  opened : (h.heap c).is_open ≡ true
  stopped : (h.heap c).is_reading ≡ false
  outside : joined n (h.heap c).rooms ≡ false

-- What the hub answers to a message for a room that its sender is not in.
abbrev refusal : String → Event
refusal n =
    if str_eq n ""
    then error_event n code_bad_request "bad request"
    else error_event n code_not_in_room "not in room"

refused_message :
    (svc : Option CallService) (c : Ptr) (n : String) (m : Message) (h : Hub)
    → joined n (h.heap c).rooms ≡ false
    → handle_command svc c (says n m) h ≡ send c (refusal n) h
unfolding handle_command send_room_message
refused_message svc c n m h o = elim (Bool-cases (str_eq n "")) [
  | inl b ↦ rw (b) refl
  | inr b ↦ rw (b, o) refl
]

send-queued :
    (c : Ptr) (e : Event) (n : String) (h : Hub)
    → Abandoned c n h
    → ltb (length (h.heap c).events) events_cap ≡ true
    → send c e h ≡ done (set_client c (push e (h.heap c)) h)
unfolding send deliver
send-queued c e n h a l = ground (arith, a.opened)

send-hangs :
    (c : Ptr) (e : Event) (n : String) (h : Hub)
    → Abandoned c n h
    → ltb (length (h.heap c).events) events_cap ≡ false
    → send c e h ≡ stuck
unfolding send deliver
send-hangs c e n h a l = ground (arith, a.opened, a.stopped)

pushed-Abandoned :
    (c : Ptr) (e : Event) (n : String) (h : Hub)
    → Abandoned c n h
    → Abandoned c n (set_client c (push e (h.heap c)) h)
pushed-Abandoned c e n h a = record {
  opened = ground (arith, a.opened);
  stopped = ground (arith, a.stopped);
  outside = ground (arith, a.outside);
}

module _ (svc : Option CallService) (c : Ptr) (n : String) (m : Message) where
  unread_messages_hang :
      (k : ℕ) (is : List Input) (h : Hub)
      → Abandoned c n h
      → events_cap < length (h.heap c).events + k
      → length (h.heap c).events ≤ events_cap
      → run svc (copies k (commands c (says n m)) is) h ≡ stuck
  unfolding run step
  unread_messages_hang zero is h a l b = absurd (omega (arith, l, b))
  unread_messages_hang (suc k) is h a l b =
      let e : Event = refusal n in
      let next : Hub = set_client c (push e (h.heap c)) h in
      let longer = length-append (h.heap c).events (e ∷ []) in
      elim (Bool-cases (ltb (length (h.heap c).events) events_cap)) [
        | inl room ↦
            rw (refused_message svc c n m h a.outside, send-queued c e n h a room)
              (unread_messages_hang k is next (pushed-Abandoned c e n h a)
                (ground (arith, l, longer, room)) (ground (arith, longer, room)))
        | inr full ↦ rw (refused_message svc c n m h a.outside, send-hangs c e n h a full) refl
      ]

  -- Where a client's write loop ends before the hub has handled its commands: if the client's
  -- channel is open, and it sends more messages to a room that it is not in than its channel has
  -- places left, then the hub waits for ever, and nothing that comes after is handled.
  pub run-hangs :
      (k : ℕ) (is : List Input) (h : Hub)
      → (h.heap c).is_open ≡ true
      → joined n (h.heap c).rooms ≡ false
      → length (h.heap c).events ≤ events_cap
      → events_cap < length (h.heap c).events + k
      → run svc (changes c stops ∷ copies k (commands c (says n m)) is) h ≡ stuck
  unfolding run step changed
  run-hangs k is h o j b l =
      unread_messages_hang k is (set_client c (record (h.heap c) { is_reading = false }) h)
        (record { opened = ground (arith, o); stopped = ground arith; outside = ground (arith, j) })
        (ground (arith, l)) (ground (arith, b))
