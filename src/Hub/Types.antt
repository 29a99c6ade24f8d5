-- ===== src/Hub/Types.antt =====
-- internal/core/{message,event,errors,command,client,room}.go: what the hub passes around and keeps.
use wirechat_server.Common.{
  ℕ, String, Bool, true, false, not, Option, none, some, List, [], ◌∷◌, any, select, is_some, ◌==◌,
  str_eq, if◌then◌else◌,
}

pub record Message : Type 0 where
  pub id : ℕ
  pub room : String
  pub from : String
  pub text : String
  pub created_at : ℕ

pub data EventKind : Type 0 where
  room_message user_joined user_left history error : EventKind
  call_incoming call_ringing call_accepted call_rejected call_join_info : EventKind
  call_participant_joined call_participant_left call_ended : EventKind

pub record CallJoinInfo : Type 0 where
  pub url : String
  pub token : String
  pub room_name : String
  pub identity : String

pub record CallEvent : Type 0 where
  pub call_id : String
  pub call_type : String
  pub from_user_id : ℕ
  pub from_username : String
  pub to_user_id : ℕ
  pub to_username : String
  pub room_id : ℕ
  pub room_name : String
  pub reason : String
  pub join_info : Option CallJoinInfo
  pub created_at : ℕ

pub record CoreError : Type 0 where
  pub code : String
  pub message : String

pub record Event : Type 0 where
  pub kind : EventKind
  pub room : String
  pub user : String
  pub message : Message
  pub messages : List Message
  pub error : Option CoreError
  pub call : Option CallEvent

-- The pointers that the transport follows for an event of its kind are not nil.
abbrev pub is_complete : Event → Bool
is_complete e = elim e.kind [
  | room_message ↦ true
  | user_joined ↦ true
  | user_left ↦ true
  | history ↦ true
  | error ↦ true
  | call_join_info ↦ elim e.call [ none ↦ false | some c ↦ is_some c.join_info ]
  | _ ↦ is_some e.call
]

-- The zero values of Go.
abbrev pub no_message : Message
no_message = record { id = 0; room = ""; from = ""; text = ""; created_at = 0 }

abbrev pub no_call : CallEvent
no_call = record {
  call_id = "";
  call_type = "";
  from_user_id = 0;
  from_username = "";
  to_user_id = 0;
  to_username = "";
  room_id = 0;
  room_name = "";
  reason = "";
  join_info = none;
  created_at = 0;
}

-- `&Event{Kind: kind}`
abbrev pub new_event : EventKind → Event
new_event kind = record {
  kind = kind;
  room = "";
  user = "";
  message = no_message;
  messages = [];
  error = none;
  call = none;
}

-- `&Event{Kind: EventError, Room: room, Error: coreError(code, msg)}`
abbrev pub error_event : String → String → String → Event
error_event room code msg =
    let e : Event = new_event error in
    record e { room = room; error = some (record { code = code; message = msg }) }

-- The error codes of errors.go.
abbrev pub code_room_not_found : String
code_room_not_found = "room_not_found"

abbrev pub code_already_joined : String
code_already_joined = "already_joined"

abbrev pub code_not_in_room : String
code_not_in_room = "not_in_room"

abbrev pub code_bad_request : String
code_bad_request = "bad_request"

abbrev pub code_unauthorized : String
code_unauthorized = "unauthorized"

abbrev pub code_calls_disabled : String
code_calls_disabled = "calls_disabled"

abbrev pub code_call_not_found : String
code_call_not_found = "call_not_found"

abbrev pub code_call_error : String
code_call_error = "call_error"

pub record CallCommand : Type 0 where
  pub call_id : String
  pub call_type : String
  pub to_user_id : ℕ
  pub room_id : ℕ
  pub reason : String

-- CommandKind with the fields of Command that each kind reads.
pub data Command : Type 0 where
  send_room_message : String → Message → Command
  join_room leave_room : String → Command
  call_invite call_accept call_reject call_join call_leave call_end : CallCommand → Command

-- A client as the hub sees it. `events` is the channel Events, oldest first, and `written` what the
-- client's write loop has taken from it; `is_open` says that the channel is not closed, and
-- `is_reading` that the write loop still runs. `rooms` is the key set of the map Rooms.
pub record Client : Type 0 where
  pub id : String
  pub user_id : ℕ
  pub name : String
  pub is_guest : Bool
  pub events : List Event
  pub written : List Event
  pub is_open : Bool
  pub is_reading : Bool
  pub rooms : List String

-- `make(chan *Event, 8)`
abbrev pub events_cap : ℕ
events_cap = 8

unfoldable pub new_client : String → String → ℕ → Bool → Client
new_client id name user_id is_guest = record {
  id = id;
  user_id = user_id;
  name = if str_eq name "" then id else name;
  is_guest = is_guest;
  events = [];
  written = [];
  is_open = true;
  is_reading = true;
  rooms = [];
}

-- A client is known by its pointer, a number.
abbrev pub Ptr : Type 0
Ptr = ℕ

pub record Room : Type 0 where
  pub name : String
  pub clients : List Ptr

abbrev pub new_room : String → Room
new_room name = record { name = name; clients = [] }

abbrev pub contains : Ptr → List Ptr → Bool
contains c = any (λ d. d == c)

abbrev pub remove : Ptr → List Ptr → List Ptr
remove c = select (λ d. not (d == c))

unfoldable pub add_client : Ptr → Room → Room × Bool
add_client c r =
    if contains c r.clients then (r, false) else (record r { clients = c ∷ r.clients }, true)

unfoldable pub remove_client : Ptr → Room → Room × Bool
remove_client c r =
    if contains c r.clients then (record r { clients = remove c r.clients }, true) else (r, false)

abbrev pub empty : Room → Bool
empty r = elim r.clients [ [] ↦ true | c ∷ cs ↦ false ]
