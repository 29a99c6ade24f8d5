-- ===== src/Hub/CallCommands.antt =====
-- internal/core/hub.go, the call commands, over the interface of internal/core/call_service.go.
use wirechat_server.Common.{
  ℕ, ◌-◌, String, ◌||◌, Option, none, some, List, [], ◌∷◌, ◌==◌, str_eq, if◌then◌else◌,
}
use wirechat_server.Effect.{Outcome, ok, err, after}
use wirechat_server.Engine.{JoinInfo}
use wirechat_server.Store.Types.{Call}
use wirechat_server.Store.World.{World}
use wirechat_server.Hub.Types.{
  Event, EventKind, call_incoming, call_ringing, call_accepted, call_rejected, call_join_info,
  call_ended, CallEvent, CallCommand, Client, Ptr, new_event, error_event, no_call,
  code_calls_disabled, code_unauthorized, code_call_error, code_call_not_found,
}
use wirechat_server.Hub.{Hub, Go, done, ◌>>=◌, send, send_to_user, in_world}

-- The interface CallService. An error is its text, `err.Error()`.
pub record CallService : Type 0 where
  pub create_direct_call : ℕ → ℕ → World → Outcome World String Call
  pub create_room_call : ℕ → ℕ → World → Outcome World String Call
  pub get_call : String → World → Outcome World String Call
  pub get_join_info : String → ℕ → World → Outcome World String JoinInfo
  pub end_call : String → ℕ → World → Outcome World String (Unit {0})
  pub reject_call : String → ℕ → String → World → Outcome World String (Unit {0})
  pub leave_call : String → ℕ → World → Outcome World String (Unit {0})
  pub get_target_user : ℕ → World → Outcome World String String
  pub list_room_members : ℕ → World → Outcome World String (List ℕ)
  pub get_room_info : ℕ → World → Outcome World String String

-- `time.Unix()`: seconds since 1970, of a time counted in seconds from Go's zero time.
abbrev pub unix : ℕ → ℕ
unix t = t - 62135596800

abbrev pub call_error : String → String → Event
call_error code msg = error_event "" code msg

-- `&Event{Kind: kind, Call: call}`
abbrev pub call_event : EventKind → CallEvent → Event
call_event kind c = let e : Event = new_event kind in record e { call = some c }

abbrev pub join_info_event : String → JoinInfo → Event
join_info_event id info = call_event call_join_info (
    let c : CallEvent = no_call in
    record c {
      call_id = id;
      join_info = some (record {
        url = info.url;
        token = info.token;
        room_name = info.room_name;
        identity = info.identity;
      });
    })

abbrev pub ringing_event : String → ℕ → String → Event
ringing_event id to name =
    call_event call_ringing (
      let c : CallEvent = no_call in record c { call_id = id; to_user_id = to; to_username = name })

abbrev pub incoming_direct : Call → Client → Event
incoming_direct call x = call_event call_incoming (
    let c : CallEvent = no_call in
    record c {
      call_id = call.id;
      call_type = "direct";
      from_user_id = x.user_id;
      from_username = x.name;
      created_at = unix call.created_at;
    })

abbrev pub incoming_room : Call → Client → ℕ → String → Event
incoming_room call x room name = call_event call_incoming (
    let c : CallEvent = no_call in
    record c {
      call_id = call.id;
      call_type = "room";
      from_user_id = x.user_id;
      from_username = x.name;
      room_id = room;
      room_name = name;
      created_at = unix call.created_at;
    })

-- `h.sendToUser(...)`, whose result the handlers drop.
abbrev pub notify : ℕ → Event → Hub → Go Hub
notify u e h = send_to_user u e h >>= λ r. done r.0

-- "unknown" for a target without a name, "" for a room without one.
abbrev pub or_else : Outcome World String String → String → String
or_else (ok s w) d = s
or_else (err e w) d = d

-- `memberID != client.UserID`
unfoldable pub notify_members : ℕ → List ℕ → Event → Hub → Go Hub
notify_members self [] e h = done h
notify_members self (u ∷ us) e h =
    (if u == self then done h else notify u e h) >>= notify_members self us e

module _ (svc : CallService) (c : Ptr) (cmd : CallCommand) where
  unfoldable pub invited : Outcome World String Call → Hub → Go Hub
  invited (err e w) h = send c (call_error code_call_error e) (in_world h w)
  invited (ok call w) h =
      let target = svc.get_target_user cmd.to_user_id w in
      (send c (ringing_event call.id cmd.to_user_id (or_else target "unknown"))
          (in_world h (after target))
        >>= notify cmd.to_user_id (incoming_direct call (h.heap c)))

  unfoldable pub invited_members : Call → String → Outcome World String (List ℕ) → Hub → Go Hub
  unfolding notify_members
  invited_members call name (err e w) h = send c (call_error code_call_error e) (in_world h w)
  invited_members call name (ok us w) h =
      notify_members (h.heap c).user_id us (incoming_room call (h.heap c) cmd.room_id name)
        (in_world h w)

  unfoldable pub invited_room : Outcome World String Call → Hub → Go Hub
  unfolding invited_members
  invited_room (err e w) h = send c (call_error code_call_error e) (in_world h w)
  invited_room (ok call w) h =
      let name = svc.get_room_info cmd.room_id w in
      invited_members call (or_else name "") (svc.list_room_members cmd.room_id (after name)) h

  unfoldable pub invite : Hub → Go Hub
  unfolding invited invited_room
  invite h =
      if str_eq cmd.call_type "direct"
      then invited (svc.create_direct_call (h.heap c).user_id cmd.to_user_id h.world) h
      else if str_eq cmd.call_type "room"
      then invited_room (svc.create_room_call (h.heap c).user_id cmd.room_id h.world) h
      else done h

  -- The initiator's own credentials, if he gets any.
  unfoldable pub accepted_initiator : ℕ → Outcome World String JoinInfo → Hub → Go Hub
  accepted_initiator u (err e w) h = done (in_world h w)
  accepted_initiator u (ok info w) h = notify u (join_info_event cmd.call_id info) (in_world h w)

  unfoldable pub accepted_call : JoinInfo → Outcome World String Call → Hub → Go Hub
  unfolding accepted_initiator
  accepted_call info (err e w) h =
      send c (call_error code_call_not_found "call not found") (in_world h w)
  accepted_call info (ok call w) h =
      let x : Client = h.heap c in
      send c (join_info_event cmd.call_id info) (in_world h w)
      >>= notify call.initiator_user_id (
          call_event call_accepted (
            let e : CallEvent = no_call in
            record e { call_id = cmd.call_id; from_user_id = x.user_id; from_username = x.name }))
      >>= λ h'.
          accepted_initiator call.initiator_user_id
            (svc.get_join_info cmd.call_id call.initiator_user_id h'.world) h'

  unfoldable pub accepted_join : Outcome World String JoinInfo → Hub → Go Hub
  unfolding accepted_call
  accepted_join (err e w) h = send c (call_error code_call_error e) (in_world h w)
  accepted_join (ok info w) h = accepted_call info (svc.get_call cmd.call_id w) h

  unfoldable pub accept : Hub → Go Hub
  unfolding accepted_join
  accept h = accepted_join (svc.get_join_info cmd.call_id (h.heap c).user_id h.world) h

  unfoldable pub rejected : Call → Outcome World String (Unit {0}) → Hub → Go Hub
  rejected call (err e w) h = send c (call_error code_call_error e) (in_world h w)
  rejected call (ok t w) h =
      let u : ℕ = (h.heap c).user_id in
      notify call.initiator_user_id
        (call_event call_rejected (
          let e : CallEvent = no_call in
          record e { call_id = cmd.call_id; from_user_id = u; reason = cmd.reason }))
        (in_world h w)
      >>= notify call.initiator_user_id (
          call_event call_ended (
            let e : CallEvent = no_call in
            record e {
              call_id = cmd.call_id;
              from_user_id = u;
              reason = if str_eq cmd.reason "" then "rejected" else cmd.reason;
            }))

  unfoldable pub reject_found : Outcome World String Call → Hub → Go Hub
  unfolding rejected
  reject_found (err e w) h = send c (call_error code_call_not_found "call not found") (in_world h w)
  reject_found (ok call w) h =
      rejected call (svc.reject_call cmd.call_id (h.heap c).user_id cmd.reason w) h

  unfoldable pub reject : Hub → Go Hub
  unfolding reject_found
  reject h = reject_found (svc.get_call cmd.call_id h.world) h

  unfoldable pub joined_call : Outcome World String JoinInfo → Hub → Go Hub
  joined_call (err e w) h = send c (call_error code_call_error e) (in_world h w)
  joined_call (ok info w) h = send c (join_info_event cmd.call_id info) (in_world h w)

  unfoldable pub join : Hub → Go Hub
  unfolding joined_call
  join h = joined_call (svc.get_join_info cmd.call_id (h.heap c).user_id h.world) h

  unfoldable pub left_call : Outcome World String (Unit {0}) → Hub → Go Hub
  left_call (err e w) h = send c (call_error code_call_error e) (in_world h w)
  left_call (ok t w) h = done (in_world h w)

  unfoldable pub leave_from : Hub → Go Hub
  unfolding left_call
  leave_from h = left_call (svc.leave_call cmd.call_id (h.heap c).user_id h.world) h

  unfoldable pub ended_now : Call → Outcome World String (Unit {0}) → Hub → Go Hub
  ended_now call (err e w) h = send c (call_error code_call_error e) (in_world h w)
  ended_now call (ok t w) h =
      let u : ℕ = (h.heap c).user_id in
      if call.initiator_user_id == u
      then done (in_world h w)
      else notify call.initiator_user_id
          (call_event call_ended (
            let e : CallEvent = no_call in
            record e { call_id = cmd.call_id; from_user_id = u; reason = "ended" }))
          (in_world h w)

  unfoldable pub end_found : Outcome World String Call → Hub → Go Hub
  unfolding ended_now
  end_found (err e w) h = send c (call_error code_call_not_found "call not found") (in_world h w)
  end_found (ok call w) h = ended_now call (svc.end_call cmd.call_id (h.heap c).user_id w) h

  unfoldable pub end_for_all : Hub → Go Hub
  unfolding end_found
  end_for_all h = end_found (svc.get_call cmd.call_id h.world) h

-- The two checks that each of the six handlers begins with.
unfoldable pub guarded : Option CallService → Ptr → (CallService → Hub → Go Hub) → Hub → Go Hub
guarded none c handle h = send c (call_error code_calls_disabled "calls are not enabled") h
guarded (some svc) c handle h =
    if (h.heap c).is_guest || ((h.heap c).user_id == 0)
    then send c (call_error code_unauthorized "authentication required for calls") h
    else handle svc h
