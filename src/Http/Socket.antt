-- ===== src/Http/Socket.antt =====
-- internal/transport/http/ws_handler.go: the loop that reads a WebSocket connection.
pub mod Allowed
pub mod Rate
pub mod Speech
pub mod Identity
pub mod Kinds
use Prim.Native.String.{◌++◌ as concat}
use wirechat_server.Common.{
  ℕ, ◌+◌, String, Bool, true, false, not, ◌&&◌, ◌||◌, Option, none, some, List, [], ◌∷◌, ◌==◌,
  str_eq, if◌then◌else◌,
}
use wirechat_server.Common.Texts.{prefix}
use wirechat_server.Effect.{Action, Outcome, ok, err, wrap, branch, pure, fail, ◌>>=◌}
use wirechat_server.Store.Types.{
  Room, RoomType, public_room, private_room, direct_room, channel_room,
}
use wirechat_server.Store.World.{World, clock}
use wirechat_server.Store.Rooms.{get_room_by_name, is_member}
use wirechat_server.Auth.{Claims, JwtConfig, Crypto, validate_token}
use wirechat_server.Hub.Types.{
  Client, Command, join_room, leave_room, send_room_message, call_invite, call_accept, call_reject,
  call_join, call_leave, call_end, code_unauthorized,
}
use wirechat_server.Proto.{Inbound, HelloData, Error, new_error, protocol_version}
use wirechat_server.Http.Limiter.{Limiter, new_limiter, allow, reset_counter}
use wirechat_server.Http.Mapper.{Mapped, command, refused, malformed, inbound_to_command}

-- The variables of the loop, the client that it serves, and the store.
pub record Session : Type 0 where
  pub client : Client
  pub authenticated : Bool
  pub joins : Limiter
  pub messages : Limiter
  pub world : World

-- What one message from the client leads to: the loop ends with an error, an error goes back, a command
-- goes to the hub, or nothing.
pub data Reaction : Type 0 where
  closes : Reaction
  replies : Error → Reaction
  forwards : Command → Reaction
  silent : Reaction

abbrev ends : Reaction → Bool
ends closes = true
ends _ = false

-- `cmd` and `protoErr`.
pub record Pending : Type 0 where
  pub cmd : Option Command
  pub refusal : Option Error

-- The results of handleHello: an error, a refusal, or the client with its new identity.
pub data Hello : Type 0 where
  hello_malformed : Hello
  hello_refused : Error → Hello
  hello_done : Client → Hello

abbrev pub as_guest : HelloData → Client → Client
as_guest d x = record x {
  name = if not (str_eq d.user "") then d.user else concat "guest-" (prefix 8 x.id);
  is_guest = true;
}

abbrev pub as_user : Claims → Client → Client
as_user c x = record x { user_id = c.user_id; name = c.username; is_guest = c.is_guest }

abbrev refuse_unless_guest : Bool → String → HelloData → Client → Hello
refuse_unless_guest required text d x =
    if required then hello_refused (new_error "unauthorized" text) else hello_done (as_guest d x)

abbrev pub new_session : ℕ → ℕ → Bool → Client → World → Session
new_session join_limit message_limit required x w = record {
  client = x;
  authenticated = not required;
  joins = new_limiter join_limit;
  messages = new_limiter message_limit;
  world = w;
}

module _ (lib : Crypto) (cfg : JwtConfig) (required : Bool) where
  -- What handleHello makes of the decoded message, with the claims of its token, if it is valid.
  greet : Option Claims → HelloData → Client → Hello
  unfolding prefix
  greet claims d x =
      if not (d.protocol == 0) && not (d.protocol == protocol_version)
      then hello_refused (new_error "unsupported_version" "unsupported protocol version")
      else if not (str_eq d.token "")
      then (elim claims [
        | none ↦ refuse_unless_guest required "invalid token" d x
        | some c ↦ hello_done (as_user c x)
      ])
      else refuse_unless_guest required "token required" d x

  unfoldable pub handle_hello : Client → Inbound → ℕ → Hello
  unfolding greet
  handle_hello x m now = elim m.as_hello [
    | none ↦ hello_malformed
    | some d ↦ greet (validate_token lib cfg now d.token) d x
  ]

  hear_hello : Session → Hello → Option (Pending × Session)
  hear_hello s hello_malformed = none
  hear_hello s (hello_refused e) = some (record { cmd = none; refusal = some e }, s)
  hear_hello s (hello_done x) =
      some (record { cmd = none; refusal = none }, record s { client = x; authenticated = true })

  hear_other : Session → Mapped → Option (Pending × Session)
  hear_other s malformed = none
  hear_other s (refused e) = some (record { cmd = none; refusal = some e }, s)
  hear_other s (command c) = some (record { cmd = some c; refusal = none }, s)

  -- From the message to `cmd` and `protoErr`; the mapper knows no type "hello", and its error is
  -- overwritten. `none` ends the loop.
  understand : Session → Inbound → Option (Pending × Session)
  unfolding hear_hello hear_other
  understand s m =
      if str_eq m.type "hello"
      then hear_hello s (handle_hello s.client m (clock s.world))
      else hear_other s (inbound_to_command s.client m (clock s.world))

  demand_hello : Inbound → Session → Pending → Pending
  demand_hello m s p =
      if not s.authenticated && not (str_eq m.type "hello") && required
      then record p { refusal = some (new_error "unauthorized" "hello with valid token required") }
      else p

abbrev limited : Bool → String → Pending → Pending
limited allowed text p =
    if allowed then p else record p { refusal = some (new_error "rate_limited" text) }

-- Calls want a user who is no guest.
abbrev pub is_anonymous : Client → Bool
is_anonymous x = x.is_guest || x.user_id == 0

abbrev named_user : Session → Pending → Pending × Session
named_user s p = (
  if is_anonymous s.client
      then record p { refusal = some (new_error code_unauthorized "calls require authentication") }
      else p,
  s,
)

-- `switch cmd.Kind`
abbrev check_command : Command → Session → Pending → Pending × Session
check_command (join_room r) s p =
    let a = allow s.joins in (limited a.0 "too many join requests" p, record s { joins = a.1 })
check_command (send_room_message r m) s p =
    let a = allow s.messages in (limited a.0 "too many messages" p, record s { messages = a.1 })
check_command (leave_room r) s p = (p, s)
check_command (call_invite c) s p = named_user s p
check_command (call_accept c) s p = named_user s p
check_command (call_reject c) s p = named_user s p
check_command (call_join c) s p = named_user s p
check_command (call_leave c) s p = named_user s p
check_command (call_end c) s p = named_user s p

check_limits : Session → Pending → Pending × Session
check_limits s p = elim p.cmd [ none ↦ (p, s) | some c ↦ check_command c s p ]

abbrev for_members : Client → Room → Action World Error (Unit {0})
for_members x r = do
  member ← wrap (λ _. new_error "internal_error" "internal server error") (is_member x.user_id r.id)
  branch (not member) (fail (new_error "access_denied" "access denied")) (pure tt)

abbrev by_type : Client → Room → RoomType → Action World Error (Unit {0})
by_type x r public_room = pure tt
by_type x r private_room = for_members x r
by_type x r direct_room = for_members x r
by_type x r channel_room = fail (new_error "access_denied" "access denied")

-- Who may join a room.
unfoldable pub admit : Client → String → Action World Error (Unit {0})
admit x room = do
  r ← wrap (λ _. new_error "room_not_found" "room does not exist") (get_room_by_name room)
  by_type x r r.type

forward_join : Session → String → Outcome World Error (Unit {0}) → Reaction × Session
forward_join s room (ok u w) = (forwards (join_room room), record s { world = w })
forward_join s room (err e w) = (replies e, record s { world = w })

forward : Session → Command → Reaction × Session
unfolding forward_join
forward s (join_room room) = forward_join s room (admit s.client room s.world)
forward s c = (forwards c, s)

finish : Pending × Session → Reaction × Session
unfolding forward
finish (p, s) = elim p.refusal [
  | some e ↦ (replies e, s)
  | none ↦ elim p.cmd [ none ↦ (silent, s) | some c ↦ forward s c ]
]

module _ (lib : Crypto) (cfg : JwtConfig) (required : Bool) where
  -- One turn of readLoop, on a message that was read.
  unfoldable pub read : Session → Inbound → Reaction × Session
  unfolding understand demand_hello check_limits finish
  read s m = elim (understand lib cfg required s m) [
    | none ↦ (closes, s)
    | some (p, t) ↦ finish (check_limits t (demand_hello lib cfg required m t p))
  ]

  -- `for`, over the messages that are read: an error ends the loop.
  unfoldable pub read_loop : Session → List Inbound → List Reaction × Session
  unfolding read
  read_loop s [] = ([], s)
  read_loop s (m ∷ ms) =
      let (r, t) = read s m in
      elim (ends r) [
        | true ↦ (r ∷ [], t)
        | false ↦ let rest = read_loop t ms in (r ∷ rest.0, rest.1)
      ]

-- The ticker of the two limiters, which fire apart from each other.
unfoldable pub reset_joins : Session → Session
reset_joins s = record s { joins = reset_counter s.joins }

unfoldable pub reset_messages : Session → Session
reset_messages s = record s { messages = reset_counter s.messages }

unfoldable pub command_kind_string : Command → String
command_kind_string (join_room r) = "join"
command_kind_string (leave_room r) = "leave"
command_kind_string (send_room_message r m) = "msg"
command_kind_string (call_invite c) = "call.invite"
command_kind_string (call_accept c) = "call.accept"
command_kind_string (call_reject c) = "call.reject"
command_kind_string (call_join c) = "call.join"
command_kind_string (call_leave c) = "call.leave"
command_kind_string (call_end c) = "call.end"
