-- ===== src/Http/Mapper.antt =====
-- internal/transport/http/mapper.go: wire messages to commands, and events to wire messages.
use wirechat_server.Common.{
  ℕ, String, not, ◌&&◌, Option, none, some, map, ◌==◌, str_eq, if◌then◌else◌,
}
use wirechat_server.Proto
use wirechat_server.Proto.{
  Inbound, Outbound, Payload, CallActionData, JoinData, MsgData, CallInviteData, new_error,
  EventMessage,
}
use wirechat_server.Hub.Types.{
  Client, Command, CallCommand, Message, Event, EventKind, CoreError, CallEvent, CallJoinInfo,
  code_bad_request,
}
use wirechat_server.Hub.CallCommands.{unix}

-- The three results of inboundToCommand, of which one at most is not nil: an error ends the connection.
pub data Mapped : Type 0 where
  command : Command → Mapped
  refused : Proto.Error → Mapped
  malformed : Mapped

abbrev pub bad_request : String → Mapped
bad_request msg = refused (new_error code_bad_request msg)

-- `json.Unmarshal` with its error, and a check on the one field that is required.
abbrev pub decoded {ℓ} : {A : Type ℓ} → Option A → (A → Mapped) → Mapped
decoded none f = malformed
decoded (some a) f = f a

abbrev pub room_named : String → Command → Mapped
room_named room cmd = if str_eq room "" then bad_request "room is required" else command cmd

abbrev pub no_call_command : CallCommand
no_call_command = record { call_id = ""; call_type = ""; to_user_id = 0; room_id = 0; reason = "" }

-- `&core.CallCommand{CallID: ...}`
abbrev pub on_call : String → CallCommand
on_call id = let c : CallCommand = no_call_command in record c { call_id = id }

abbrev pub call_named : CallActionData → Command → Mapped
call_named a cmd = if str_eq a.call_id "" then bad_request "call_id is required" else command cmd

unfoldable pub invited : CallInviteData → Mapped
invited d =
    if not (str_eq d.call_type "direct") && not (str_eq d.call_type "room")
    then bad_request "call_type must be 'direct' or 'room'"
    else if str_eq d.call_type "direct" && d.to_user_id == 0
    then bad_request "to_user_id is required for direct calls"
    else if str_eq d.call_type "room" && d.room_id == 0
    then bad_request "room_id is required for room calls"
    else command (
        Command.call_invite (record {
          call_id = "";
          call_type = d.call_type;
          to_user_id = d.to_user_id;
          room_id = d.room_id;
          reason = "";
        }))

-- `now` is what `time.Now()` gives.
unfoldable pub inbound_to_command : Client → Inbound → ℕ → Mapped
unfolding invited
inbound_to_command x m now =
    if str_eq m.type "join"
    then decoded m.as_join (λ d. room_named d.room (Command.join_room d.room))
    else if str_eq m.type "leave"
    then decoded m.as_join (λ d. room_named d.room (Command.leave_room d.room))
    else if str_eq m.type "msg"
    then decoded m.as_msg (λ d. room_named d.room (
        Command.send_room_message d.room
          (record { id = 0; room = d.room; from = x.name; text = d.text; created_at = now })))
    else if str_eq m.type "call.invite"
    then decoded m.as_invite invited
    else if str_eq m.type "call.accept"
    then decoded m.as_action (λ d. call_named d (Command.call_accept (on_call d.call_id)))
    else if str_eq m.type "call.reject"
    then decoded m.as_action (λ d.
      let c : CallCommand = on_call d.call_id in
      call_named d (Command.call_reject (record c { reason = d.reason })))
    else if str_eq m.type "call.join"
    then decoded m.as_action (λ d. call_named d (Command.call_join (on_call d.call_id)))
    else if str_eq m.type "call.leave"
    then decoded m.as_action (λ d. call_named d (Command.call_leave (on_call d.call_id)))
    else if str_eq m.type "call.end"
    then decoded m.as_action (λ d. call_named d (Command.call_end (on_call d.call_id)))
    else refused (new_error "invalid_message" "unknown message type")

unfoldable pub event_message : Message → EventMessage
event_message m = record {
  id = m.id;
  room = m.room;
  user = m.from;
  text = m.text;
  ts = unix m.created_at;
}

abbrev pub an_event : String → Payload → Outbound
an_event name p = record { type = "event"; event = name; payload = p; error = none }

abbrev pub an_error : Option CoreError → Outbound
an_error none = record {
  type = "error";
  event = "";
  payload = Payload.nothing;
  error = some (new_error "unknown" "unknown error");
}
an_error (some e) = record {
  type = "error";
  event = "";
  payload = Payload.nothing;
  error = some (new_error e.code e.message);
}

-- Reading a field of a nil pointer panics: `none`.
abbrev pub with_call : Event → (CallEvent → Outbound) → Option Outbound
with_call e f = elim e.call [ none ↦ none | some c ↦ some (f c) ]

unfoldable pub join_info_outbound : CallEvent → CallJoinInfo → Outbound
join_info_outbound c i = an_event "call.join-info" (
    Payload.call_join_info (record {
      call_id = c.call_id;
      url = i.url;
      token = i.token;
      room_name = i.room_name;
      identity = i.identity;
    }))

outbound_of_kind : EventKind → Event → Option Outbound
unfolding join_info_outbound
outbound_of_kind EventKind.call_incoming e = with_call e (λ c. an_event "call.incoming" (
    Payload.call_incoming (record {
      call_id = c.call_id;
      call_type = c.call_type;
      from_user_id = c.from_user_id;
      from_username = c.from_username;
      room_id = c.room_id;
      room_name = c.room_name;
      created_at = c.created_at;
    })))
outbound_of_kind EventKind.call_ringing e = with_call e (λ c. an_event "call.ringing" (
    Payload.call_ringing
      (record { call_id = c.call_id; to_user_id = c.to_user_id; to_username = c.to_username })))
outbound_of_kind EventKind.call_accepted e = with_call e (λ c. an_event "call.accepted" (
    Payload.call_accepted (record {
      call_id = c.call_id;
      accepted_by_user_id = c.from_user_id;
      accepted_by_username = c.from_username;
    })))
outbound_of_kind EventKind.call_rejected e = with_call e (λ c. an_event "call.rejected" (
    Payload.call_rejected
      (record { call_id = c.call_id; rejected_by_user_id = c.from_user_id; reason = c.reason })))
outbound_of_kind EventKind.call_join_info e = elim e.call [
  | none ↦ none
  | some c ↦ elim c.join_info [ none ↦ none | some i ↦ some (join_info_outbound c i) ]
]
outbound_of_kind EventKind.call_participant_joined e = with_call e (λ c.
    an_event "call.participant-joined" (
      Payload.call_participant_joined
        (record { call_id = c.call_id; user_id = c.from_user_id; username = c.from_username })))
outbound_of_kind EventKind.call_participant_left e = with_call e (λ c.
    an_event "call.participant-left" (
      Payload.call_participant_left (record {
        call_id = c.call_id;
        user_id = c.from_user_id;
        username = c.from_username;
        reason = c.reason;
      })))
outbound_of_kind EventKind.call_ended e = with_call e (λ c. an_event "call.ended" (
    Payload.call_ended
      (record { call_id = c.call_id; ended_by_user_id = c.from_user_id; reason = c.reason })))
outbound_of_kind EventKind.room_message e =
    some (an_event "message" (Payload.message (event_message e.message)))
outbound_of_kind EventKind.user_joined e =
    some (an_event "user_joined" (Payload.user_joined (record { room = e.room; user = e.user })))
outbound_of_kind EventKind.user_left e =
    some (an_event "user_left" (Payload.user_left (record { room = e.room; user = e.user })))
outbound_of_kind EventKind.history e = some (
    an_event "history"
      (Payload.history (record { room = e.room; messages = map event_message e.messages })))
outbound_of_kind EventKind.error e = some (an_error e.error)

unfoldable pub outbound_from_event : Event → Option Outbound
unfolding outbound_of_kind
outbound_from_event e = outbound_of_kind e.kind e
