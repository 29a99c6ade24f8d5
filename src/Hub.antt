-- ===== src/Hub.antt =====
-- internal/core/hub.go: the commands of the chat, and the registration of clients.
pub mod Types
pub mod State
pub mod CallCommands
pub mod Loop
pub mod Frame
pub mod Rooms
pub mod Members
pub mod Leaving
pub mod Logic
pub mod Commands
pub mod Invariant
pub mod Served
pub mod Returns
pub mod Progress
pub mod Delivery
pub mod Membership
pub mod Refinement
pub mod Shutdown
pub mod Samples
pub mod Closed
pub mod Tables
pub mod Channels
pub mod Unheard
pub mod Complete
pub mod Ringing
pub mod Stale
mod Tests
use wirechat_server.Common.{
  ℕ, String, false, not, ◌&&◌, none, some, List, [], ◌∷◌, select, ltb, ◌==◌, str_eq, if◌then◌else◌,
}
use wirechat_server.Effect.{Outcome, ok, err, after}
use wirechat_server.Store.World.{World, DbError, clock}
use wirechat_server.Store.Types as Stored
use wirechat_server.Store.Users.{get_user_by_id}
use wirechat_server.Store.Rooms.{get_room_by_name}
use wirechat_server.Store.Messages.{save_message, list_messages}
use Types.{
  Message, Event, room_message, user_joined, user_left, history, Client, Ptr, new_event,
  error_event, contains, remove, code_bad_request, code_already_joined, code_not_in_room,
  code_room_not_found,
}
pub use State.{
  Hub, Go, ◌>>=◌, set_client, push, take_oldest, is_named, find_room, find_user, set_room, joined,
  enter, leave, presence, in_world, done, panicked, stuck,
}
unfoldable pub use State.{
  deliver, send, try_deliver, try_send, broadcast, broadcast_to_room, send_to_user, ensure_room,
  room_add, room_remove, drop_empty,
}

-- `GetUserByID(...)`, and "unknown" on an error.
abbrev pub username_of : Outcome World DbError Stored.User → String
username_of (ok u w) = u.username
username_of (err e w) = "unknown"

-- The loop over the stored messages.
unfoldable pub to_history : String → List Stored.Message → World → List Message × World
to_history name [] w = ([], w)
to_history name (m ∷ ms) w =
    let asked = get_user_by_id m.user_id w in
    let rest : List Message × World = to_history name ms (after asked) in
    (
      record {
        id = m.id;
        room = name;
        from = username_of asked;
        text = m.body;
        created_at = m.created_at;
      }
          ∷ rest.0,
      rest.1,
    )

abbrev pub history_event : String → List Message → Event
history_event name ms = let e : Event = new_event history in record e { room = name; messages = ms }

-- The messages of a room that is in the database, if it has any; every error is dropped.
unfoldable pub send_messages :
    Ptr → String → Outcome World DbError (List Stored.Message) → Hub → Go Hub
send_messages c name (err e w) h = done (in_world h w)
send_messages c name (ok [] w) h = done (in_world h w)
send_messages c name (ok (m ∷ ms) w) h =
    let r : List Message × World = to_history name (m ∷ ms) w in
    send c (history_event name r.0) (in_world h r.1)

unfoldable pub send_history_of : Ptr → String → Outcome World DbError Stored.Room → Hub → Go Hub
unfolding send_messages
send_history_of c name (err e w) h = done (in_world h w)
send_history_of c name (ok room w) h = send_messages c name (list_messages room.id 20 none w) h

unfoldable pub send_history : Ptr → String → Hub → Go Hub
unfolding send_history_of
send_history c name h =
    if h.has_store then send_history_of c name (get_room_by_name name h.world) h else done h

unfoldable pub join_room : Ptr → String → Hub → Go Hub
join_room c name h =
    if str_eq name ""
    then send c (error_event name code_bad_request "bad request") h
    else (let (h', added) = room_add c name (ensure_room name h) in
        if not added
        then send c (error_event name code_already_joined "already joined") h'
        else (broadcast_to_room name (presence user_joined name (h.heap c).name) (enter c name h')
            >>= send_history c name))

unfoldable pub leave_room : Ptr → String → Hub → Go Hub
leave_room c name h = elim (find_room name h) [
  | none ↦ send c (error_event name code_room_not_found "room not found") h
  | some r ↦
      let (h', removed) = room_remove c name h in
      if not removed
      then send c (error_event name code_not_in_room "not in room") h'
      else (broadcast_to_room name (presence user_left name (h.heap c).name) (leave c name h')
          >>= λ h''. done (drop_empty name h''))
]

-- The message as it goes out: its time, sender and room are filled in.
unfoldable pub fill_message : Client → String → Message → World → Message
fill_message x name m w = record m {
  created_at = if m.created_at == 0 then clock w else m.created_at;
  from = if str_eq m.from "" then x.name else m.from;
  room = name;
}

-- The id of the stored message, if it was stored.
unfoldable pub id_of_saved : Message → Outcome World DbError Stored.Message → Hub → Message × Hub
id_of_saved m (ok s w) h = (record m { id = s.id }, in_world h w)
id_of_saved m (err e w) h = (m, in_world h w)

unfoldable pub save_in : ℕ → Message → Outcome World DbError Stored.Room → Hub → Message × Hub
unfolding id_of_saved
save_in user m (err e w) h = (m, in_world h w)
save_in user m (ok room w) h =
    id_of_saved m
      (save_message
        (record {
          id = 0;
          room_id = room.id;
          user_id = user;
          body = m.text;
          created_at = m.created_at;
        })
        w)
      h

unfoldable pub save : Client → Message → Hub → Message × Hub
unfolding save_in
save x m h =
    if not x.is_guest && ltb 0 x.user_id && h.has_store
    then save_in x.user_id m (get_room_by_name m.room h.world) h
    else (m, h)

abbrev pub message_event : String → Message → Event
message_event name m =
    let e : Event = new_event room_message in record e { room = name; message = m }

unfoldable pub send_room_message : Ptr → String → Message → Hub → Go Hub
send_room_message c name m h =
    if str_eq name ""
    then send c (error_event name code_bad_request "bad request") h
    else if not (joined name (h.heap c).rooms)
    then send c (error_event name code_not_in_room "not in room") h
    else (let (m', h') = save (h.heap c) (fill_message (h.heap c) name m h.world) h in
        broadcast_to_room name (message_event name m') h')

-- The loop of removeClient over the rooms that the client was in.
unfoldable pub leave_rooms : Ptr → List String → Hub → Go Hub
leave_rooms c [] h = done h
leave_rooms c (name ∷ names) h = leave_room c name h >>= leave_rooms c names

abbrev pub remove_user : ℕ → List (ℕ × Ptr) → List (ℕ × Ptr)
remove_user u = select (λ e. not (e.0 == u))

-- Out of the maps, and the channel closed.
unfoldable pub forget : Ptr → Hub → Hub
forget c h =
    let x : Client = h.heap c in
    set_client c (record x { is_open = false })
      (record h {
        clients = remove c h.clients;
        user_clients =
            if ltb 0 x.user_id then remove_user x.user_id h.user_clients else h.user_clients;
      })

-- `close(client.Events)`, which panics on a closed channel.
unfoldable pub close_client : Ptr → Hub → Go Hub
unfolding forget
close_client c h = if (h.heap c).is_open then done (forget c h) else panicked

-- `removeClient`
unfoldable pub remove_from_hub : Ptr → Hub → Go Hub
remove_from_hub c h =
    if not (contains c h.clients)
    then done h
    else (leave_rooms c (h.heap c).rooms h >>= close_client c)

-- The loop of shutdown over the clients; closing a closed channel panics.
unfoldable pub close_all : List Ptr → Hub → Go Hub
close_all [] h = done h
close_all (c ∷ cs) h =
    if (h.heap c).is_open
    then close_all cs (let x : Client = h.heap c in set_client c (record x { is_open = false }) h)
    else panicked

unfoldable pub shutdown : Hub → Go Hub
unfolding close_all
shutdown h = close_all h.clients h

-- `case client := <-h.register`
unfoldable pub register : Ptr → Hub → Hub
register c h = record h {
  clients = if contains c h.clients then h.clients else c ∷ h.clients;
  user_clients =
      let u : ℕ = (h.heap c).user_id in
      if ltb 0 u then (u, c) ∷ remove_user u h.user_clients else h.user_clients;
}
