-- ===== src/Hub/State.antt =====
-- internal/core/hub.go: the state of the hub, the sends on its clients' channels, and the room map.
use wirechat_server.Common.{
  ℕ, String, Bool, true, false, not, Option, none, some, List, [], ◌∷◌, ◌++◌, any, find, select,
  update, length, ltb, ◌==◌, str_eq, if◌then◌else◌,
}
use wirechat_server.Store.World.{World}
use wirechat_server.Hub.Types.{
  add_client, remove_client, Event, EventKind, Client, Ptr, Room, new_event, new_room, empty,
  events_cap,
}

-- `clients` is the key set of the map; `rooms` is the map by name; `user_clients` is the map from user
-- ids to clients. `heap` holds the clients themselves, which the transport shares.
pub record Hub : Type 0 where
  pub heap : Ptr → Client
  pub clients : List Ptr
  pub rooms : List Room
  pub user_clients : List (ℕ × Ptr)
  pub has_store : Bool
  pub world : World

-- How the hub's goroutine comes out of a piece of code: with a result, dead by a panic, or waiting for
-- ever in a send that nobody receives.
pub data Go {ℓ} (A : Type ℓ) : Type ℓ where
  done : A → Go A
  panicked : Go A
  stuck : Go A

infixl 5 ◌>>=◌
abbrev pub ◌>>=◌ {ℓ κ} : {A : Type ℓ} {B : Type κ} → Go A → (A → Go B) → Go B
done a >>= f = f a
panicked >>= f = panicked
stuck >>= f = stuck

abbrev pub set_client : Ptr → Client → Hub → Hub
set_client c x h = record h { heap = λ d. if d == c then x else h.heap d }

-- `client.Events <- event`: on a full channel the hub waits for the write loop to take an event.
abbrev pub push : Event → Client → Client
push e x = record x { events = x.events ++ e ∷ [] }

abbrev pub take_oldest : Client → Client
take_oldest x = elim x.events [
  | [] ↦ x
  | e ∷ es ↦ record x { events = es; written = x.written ++ e ∷ [] }
]

unfoldable pub deliver : Event → Client → Go Client
deliver e x =
    if not x.is_open
    then panicked
    else if ltb (length x.events) events_cap
    then done (push e x)
    else if x.is_reading
    then done (push e (take_oldest x))
    else stuck

unfoldable pub send : Ptr → Event → Hub → Go Hub
unfolding deliver
send c e h = deliver e (h.heap c) >>= λ x. done (set_client c x h)

-- The `select` with a `default`: a full channel drops the event. The Boolean says if it was sent.
unfoldable pub try_deliver : Event → Client → Go (Client × Bool)
try_deliver e x =
    if not x.is_open
    then panicked
    else if ltb (length x.events) events_cap
    then done (push e x, true)
    else done (x, false)

unfoldable pub try_send : Ptr → Event → Hub → Go (Hub × Bool)
unfolding try_deliver
try_send c e h = try_deliver e (h.heap c) >>= λ r. done (set_client c r.0 h, r.1)

-- `room.Broadcast(event)`
unfoldable pub broadcast : List Ptr → Event → Hub → Go Hub
unfolding try_send
broadcast [] e h = done h
broadcast (c ∷ cs) e h = try_send c e h >>= λ r. broadcast cs e r.0

abbrev pub is_named : String → Room → Bool
is_named name r = str_eq r.name name

abbrev pub find_room : String → Hub → Option Room
find_room name h = find (is_named name) h.rooms

-- `broadcastToRoom`
unfoldable pub broadcast_to_room : String → Event → Hub → Go Hub
broadcast_to_room name e h = elim (find_room name h) [
  | none ↦ done h
  | some r ↦ broadcast r.clients e h
]

abbrev pub find_user : ℕ → List (ℕ × Ptr) → Option Ptr
find_user u [] = none
find_user u ((v, c) ∷ m) = if v == u then some c else find_user u m

-- `sendToUser`
unfoldable pub send_to_user : ℕ → Event → Hub → Go (Hub × Bool)
send_to_user u e h = elim (find_user u h.user_clients) [
  | none ↦ done (h, false)
  | some c ↦ try_send c e h
]

-- `ensureRoom`
unfoldable pub ensure_room : String → Hub → Hub
ensure_room name h = elim (find_room name h) [
  | some r ↦ h
  | none ↦ record h { rooms = new_room name ∷ h.rooms }
]

-- `room.AddClient(client)` and `room.RemoveClient(client)`, on the room that the map holds.
abbrev pub set_room : String → Room → Hub → Hub
set_room name r h = record h { rooms = update (is_named name) (λ _. r) h.rooms }

unfoldable pub room_add : Ptr → String → Hub → Hub × Bool
unfolding add_client
room_add c name h = elim (find_room name h) [
  | none ↦ (h, false)
  | some r ↦ let (r', added) = add_client c r in (set_room name r' h, added)
]

unfoldable pub room_remove : Ptr → String → Hub → Hub × Bool
unfolding remove_client
room_remove c name h = elim (find_room name h) [
  | none ↦ (h, false)
  | some r ↦ let (r', removed) = remove_client c r in (set_room name r' h, removed)
]

-- `if room.Empty() { delete(h.rooms, roomName) }`
unfoldable pub drop_empty : String → Hub → Hub
drop_empty name h = elim (find_room name h) [
  | none ↦ h
  | some r ↦ if empty r then record h { rooms = select (λ q. not (is_named name q)) h.rooms } else h
]

abbrev pub joined : String → List String → Bool
joined name = any (λ r. str_eq r name)

abbrev pub enter : Ptr → String → Hub → Hub
enter c name h =
    let x : Client = h.heap c in
    set_client c (record x { rooms = if joined name x.rooms then x.rooms else name ∷ x.rooms }) h

abbrev pub leave : Ptr → String → Hub → Hub
leave c name h =
    let x : Client = h.heap c in
    set_client c (record x { rooms = select (λ r. not (str_eq r name)) x.rooms }) h

-- `{Kind: EventUserJoined, Room: roomName, User: client.Name}`, and so for leaving.
abbrev pub presence : EventKind → String → String → Event
presence kind name user = let e : Event = new_event kind in record e { room = name; user = user }

-- A store call of the hub's: its result, and the world after it.
abbrev pub in_world : Hub → World → Hub
in_world h w = record h { world = w }
