-- ===== src/Calls/Start.antt =====
-- internal/service/calls/service.go: CreateDirectCall and CreateRoomCall.
use wirechat_server.Common.{ℕ, not, Option, none, some, ◌==◌}
use wirechat_server.Effect.{◌>>=◌, got, failed, attempt, wrap, branch, pure, fail, ◌>>◌}
use wirechat_server.Engine.{Engine}
use wirechat_server.Store.Types.{
  Call, direct_call, room_call, AllowCallsFrom, everyone, friends_only,
}
use wirechat_server.Store.Users.{get_user_by_id, get_user_call_settings}
use wirechat_server.Store.Rooms.{get_room_by_id, is_member}
use wirechat_server.Store.Calls as Table
use wirechat_server.Friends.{is_friend}
use wirechat_server.Calls.Shared.{
  user_not_found, calls_not_allowed, room_not_found, not_room_member, cannot_call_self,
  livekit_not_enabled, store_error, Service, or_fail, new_participant, new_call, from_engine,
}

-- `externalRoomID, err := s.engine.CreateCall(ctx, call)`, then the INSERT.
unfoldable pub register_call : Engine → Call → Service Call
register_call engine call = do
  room ← from_engine (engine.create_call call)
  wrap store_error (Table.create_call (record call { external_room_id = some room }))
  pure (record call { external_room_id = some room })

-- Calls may be limited to friends.
unfoldable pub check_privacy : ℕ → ℕ → AllowCallsFrom → Service (Unit {0})
check_privacy from to everyone = pure tt
check_privacy from to friends_only = do
  friends ← wrap store_error (is_friend from to)
  branch friends (pure tt) (fail calls_not_allowed)

unfoldable pub start_direct : Engine → ℕ → ℕ → Service Call
start_direct engine from to w =
    (do
      call ← register_call engine (new_call direct_call from none w)
      wrap store_error (Table.add_participant (new_participant call.id from))
      wrap store_error (Table.add_participant (new_participant call.id to))
      pure call)
      w

unfoldable pub direct_with : Option Engine → ℕ → ℕ → Service Call
direct_with none from to = fail livekit_not_enabled
direct_with (some engine) from to = branch (from == to) (fail cannot_call_self) do
  or_fail user_not_found (get_user_by_id to)
  setting ← wrap store_error (get_user_call_settings to)
  check_privacy from to setting
  start_direct engine from to

-- Join the running call of the room: the caller becomes a participant, if he is none.
unfoldable pub join_existing : Call → ℕ → Service Call
join_existing call user = do
  participant ← attempt (Table.get_participant call.id user)
  elim participant [
    | got p ↦ pure call
    | failed e ↦
        wrap store_error (Table.add_participant (new_participant call.id user)) >> pure call
  ]

unfoldable pub start_room : Engine → ℕ → ℕ → Service Call
start_room engine from room w =
    (do
      call ← register_call engine (new_call room_call from (some room) w)
      wrap store_error (Table.add_participant (new_participant call.id from))
      pure call)
      w

unfoldable pub room_unless : Engine → ℕ → ℕ → Option Call → Service Call
room_unless engine from room (some call) = join_existing call from
room_unless engine from room none = start_room engine from room

unfoldable pub room_with : Option Engine → ℕ → ℕ → Service Call
room_with none from room = fail livekit_not_enabled
room_with (some engine) from room = do
  r ← or_fail room_not_found (get_room_by_id room)
  member ← wrap store_error (is_member from room)
  branch (not member) (fail not_room_member) do
    existing ← wrap store_error (Table.get_active_call_for_room room)
    room_unless engine from r.id existing
