-- ===== src/Hub/Tables.antt =====
-- internal/core/hub.go: what the hub does to the tables of the store.
pub mod Runs
use wirechat_server.Common.{
  ◌≡◌, refl, ap, ◌∙◌, ℕ, String, Bool, not, ◌&&◌, Option, none, some, List, [], ◌∷◌, str_eq, ltb,
  arith, Bool-cases, Option-cases, false, inl, inr,
}
use wirechat_server.Effect.{Outcome, ok, err, after}
use wirechat_server.Store.World.{World, DbError}
use wirechat_server.Store.Types as Stored
use wirechat_server.Store.Rooms.{get_room_by_name}
use wirechat_server.Store.Users.{get_user_by_id}
use wirechat_server.Store.Messages.{save_message, list_messages}
use wirechat_server.Hub.Types.{
  contains, Ptr, Room, Client, Message, Event, Command, join_room, leave_room, send_room_message,
}
use wirechat_server.Hub.{
  Hub, Go, done, panicked, stuck, ◌>>=◌, find_room, find_user, send, deliver, try_send, try_deliver,
  broadcast, broadcast_to_room, send_to_user, in_world, send_history, send_messages,
  send_history_of, to_history, joined, room_add, room_remove, ensure_room, drop_empty, enter, leave,
  leave_rooms, close_client, forget, remove_from_hub, save, save_in, id_of_saved, fill_message,
  register,
}
use wirechat_server.Hub as Rooms
use wirechat_server.Hub.CallCommands.{notify}
use wirechat_server.Hub.Frame.{Then, Then->>=, Then-mono, Then-if}

-- The table of calls is as before.
abbrev pub SameCalls : World → World → Type 0
SameCalls w v = v.db.calls ≡ w.db.calls

pub send-world : (c : Ptr) (e : Event) (h : Hub) → Then (λ k. k.world ≡ h.world) (send c e h)
unfolding send deliver
send-world c e h = ground arith

try_send-world :
    (c : Ptr) (e : Event) (h : Hub)
    → Then (λ (r : Hub × Bool). r.0.world ≡ h.world) (try_send c e h)
unfolding try_send try_deliver
try_send-world c e h = ground arith

broadcast-world :
    (cs : List Ptr) (e : Event) (h : Hub) → Then (λ k. k.world ≡ h.world) (broadcast cs e h)
unfolding broadcast
broadcast-world [] e h = refl
broadcast-world (c ∷ cs) e h =
    Then->>= (λ (r : Hub × Bool). r.0.world ≡ h.world) _ (try_send c e h) (λ r. broadcast cs e r.0)
      (try_send-world c e h)
      (λ r s. Then-mono (λ k. k.world ≡ r.0.world) _ _ (λ k t. t ∙ s) (broadcast-world cs e r.0))

broadcast_to_room-world :
    (n : String) (e : Event) (h : Hub) → Then (λ k. k.world ≡ h.world) (broadcast_to_room n e h)
unfolding broadcast_to_room
broadcast_to_room-world n e h =
    elim (find_room n h)
      as (λ o.
        Then (λ k. k.world ≡ h.world)
          (elim o [ none ↦ done h | some r ↦ broadcast r.clients e h ])) [
            | none ↦ refl
            | some r ↦ broadcast-world r.clients e h
          ]

send_to_user-world :
    (u : ℕ) (e : Event) (h : Hub)
    → Then (λ (r : Hub × Bool). r.0.world ≡ h.world) (send_to_user u e h)
unfolding send_to_user
send_to_user-world u e h =
    elim (find_user u h.user_clients)
      as (λ o.
        Then (λ (r : Hub × Bool). r.0.world ≡ h.world)
          (elim o [ none ↦ done (h, false) | some c ↦ try_send c e h ])) [
            | none ↦ refl
            | some c ↦ try_send-world c e h
          ]

pub notify-world : (u : ℕ) (e : Event) (h : Hub) → Then (λ k. k.world ≡ h.world) (notify u e h)
notify-world u e h =
    Then->>= (λ (r : Hub × Bool). r.0.world ≡ h.world) _ (send_to_user u e h) _
      (send_to_user-world u e h) (λ r s. s)

room_add-world :
    (c : Ptr) (n : String) (h : Hub) → (room_add c n (ensure_room n h)).0.world ≡ h.world
unfolding room_add ensure_room
room_add-world c n h = ground arith

room_remove-world : (c : Ptr) (n : String) (h : Hub) → (room_remove c n h).0.world ≡ h.world
unfolding room_remove
room_remove-world c n h = ground arith

drop_empty-world : (n : String) (h : Hub) → (drop_empty n h).world ≡ h.world
unfolding drop_empty
drop_empty-world n h = ground arith

pub leave_room-world :
    (c : Ptr) (n : String) (h : Hub) → Then (λ k. k.world ≡ h.world) (Rooms.leave_room c n h)
unfolding Rooms.leave_room
leave_room-world c n h = elim (Option-cases (find_room n h)) [
  | inl e ↦ rw (e, Rooms.leave_room) (send-world c _ h)
  | inr (r, e) ↦
      rw (e, Rooms.leave_room)
        (Then-if (λ k. k.world ≡ h.world) (not (room_remove c n h).1) _ _
          (Then-mono (λ k. k.world ≡ (room_remove c n h).0.world) _ _
            (λ k t. t ∙ room_remove-world c n h) (send-world c _ (room_remove c n h).0))
          (Then->>= (λ k. k.world ≡ (room_remove c n h).0.world) _
            (broadcast_to_room n _ (leave c n (room_remove c n h).0)) _
            (broadcast_to_room-world n _ (leave c n (room_remove c n h).0))
            (λ k t. drop_empty-world n k ∙ t ∙ room_remove-world c n h)))
]

leave_rooms-world :
    (c : Ptr) (ns : List String) (h : Hub) → Then (λ k. k.world ≡ h.world) (leave_rooms c ns h)
unfolding leave_rooms
leave_rooms-world c [] h = refl
leave_rooms-world c (n ∷ ns) h =
    Then->>= (λ k. k.world ≡ h.world) _ (Rooms.leave_room c n h) (leave_rooms c ns)
      (leave_room-world c n h)
      (λ k s. Then-mono (λ j. j.world ≡ k.world) _ _ (λ j t. t ∙ s) (leave_rooms-world c ns k))

pub remove_from_hub-world :
    (c : Ptr) (h : Hub) → Then (λ k. k.world ≡ h.world) (remove_from_hub c h)
unfolding remove_from_hub close_client forget
remove_from_hub-world c h =
    Then-if (λ k. k.world ≡ h.world) (not (contains c h.clients)) _ _ refl
      (Then->>= (λ k. k.world ≡ h.world) _ (leave_rooms c (h.heap c).rooms h) (close_client c)
        (leave_rooms-world c (h.heap c).rooms h) (λ k s. ground arith))

-- The reads of a history change no table, and a message is no call.
to_history-db :
    (n : String) (ms : List Stored.Message) (w : World) → (to_history n ms w).1.db ≡ w.db
unfolding to_history get_user_by_id
to_history-db n [] w = refl
to_history-db n (m ∷ ms) w = ground (arith, to_history-db n ms (after (get_user_by_id m.user_id w)))

send_messages-calls :
    (c : Ptr) (n : String) (r : Outcome World DbError (List Stored.Message)) (h : Hub)
    → SameCalls h.world (after r)
    → Then (λ k. SameCalls h.world k.world) (send_messages c n r h)
unfolding send_messages
send_messages-calls c n (err e w) h s = s
send_messages-calls c n (ok [] w) h s = s
send_messages-calls c n (ok (m ∷ ms) w) h s =
    Then-mono (λ k. k.world ≡ (to_history n (m ∷ ms) w).1) _ _
      (λ k t. ground (arith, t, s, to_history-db n (m ∷ ms) w))
      (send-world c _ (in_world h (to_history n (m ∷ ms) w).1))

send_history_of-calls :
    (c : Ptr) (n : String) (r : Outcome World DbError Stored.Room) (h : Hub)
    → SameCalls h.world (after r)
    → Then (λ k. SameCalls h.world k.world) (send_history_of c n r h)
unfolding send_history_of list_messages
send_history_of-calls c n (err e w) h s = s
send_history_of-calls c n (ok room w) h s =
    send_messages-calls c n (list_messages room.id 20 none w) h (ground arith)

send_history-calls :
    (c : Ptr) (n : String) (h : Hub) → Then (λ k. SameCalls h.world k.world) (send_history c n h)
unfolding send_history get_room_by_name
send_history-calls c n h =
    Then-if (λ k. SameCalls h.world k.world) h.has_store _ _
      (send_history_of-calls c n (get_room_by_name n h.world) h (ground arith)) refl

pub join_room-calls :
    (c : Ptr) (n : String) (h : Hub) → Then (λ k. SameCalls h.world k.world) (Rooms.join_room c n h)
unfolding Rooms.join_room
join_room-calls c n h =
    let added : Hub = (room_add c n (ensure_room n h)).0 in
    let same = room_add-world c n h in
    let kept = λ (k : Hub) (t : k.world ≡ h.world). ap (λ (w : World). w.db.calls) t in
    Then-if (λ k. SameCalls h.world k.world) (str_eq n "") _ _
      (Then-mono (λ k. k.world ≡ h.world) _ _ kept (send-world c _ h))
      (Then-if (λ k. SameCalls h.world k.world) (not (room_add c n (ensure_room n h)).1) _ _
        (Then-mono (λ k. k.world ≡ added.world) _ _ (λ k t. kept k (t ∙ same))
          (send-world c _ added))
        (Then->>= (λ k. k.world ≡ added.world) _ (broadcast_to_room n _ (enter c n added))
          (send_history c n) (broadcast_to_room-world n _ (enter c n added))
          (λ k t.
            Then-mono (λ j. SameCalls k.world j.world) _ _ (λ j u. u ∙ kept k (t ∙ same))
              (send_history-calls c n k))))

save_in-calls :
    (u : ℕ) (m : Message) (r : Outcome World DbError Stored.Room) (h : Hub)
    → SameCalls h.world (after r)
    → SameCalls h.world (save_in u m r h).1.world
unfolding save_in id_of_saved save_message
save_in-calls u m (err e w) h s = s
save_in-calls u m (ok room w) h s = ground arith

save-calls : (x : Client) (m : Message) (h : Hub) → SameCalls h.world (save x m h).1.world
unfolding save get_room_by_name
save-calls x m h = elim (Bool-cases (not x.is_guest && ltb 0 x.user_id && h.has_store)) [
  | inl stores ↦
      rw stores (save_in-calls x.user_id m (get_room_by_name m.room h.world) h (ground arith))
  | inr skips ↦ rw skips refl
]

pub send_room_message-calls :
    (c : Ptr) (n : String) (m : Message) (h : Hub)
    → Then (λ k. SameCalls h.world k.world) (Rooms.send_room_message c n m h)
unfolding Rooms.send_room_message
send_room_message-calls c n m h =
    let full : Message = fill_message (h.heap c) n m h.world in
    let saved : Hub = (save (h.heap c) full h).1 in
    let kept = λ (k : Hub) (t : k.world ≡ h.world). ap (λ (w : World). w.db.calls) t in
    Then-if (λ k. SameCalls h.world k.world) (str_eq n "") _ _
      (Then-mono (λ k. k.world ≡ h.world) _ _ kept (send-world c _ h))
      (Then-if (λ k. SameCalls h.world k.world) (not (joined n (h.heap c).rooms)) _ _
        (Then-mono (λ k. k.world ≡ h.world) _ _ kept (send-world c _ h))
        (Then-mono (λ k. k.world ≡ saved.world) _ _
          (λ k t. ap (λ (w : World). w.db.calls) t ∙ save-calls (h.heap c) full h)
          (broadcast_to_room-world n _ saved)))
