-- ===== src/Calls/Join.antt =====
-- internal/service/calls/service.go: GetJoinInfo.
use wirechat_server.Common.{ℕ, String, not, Option, none, some}
use wirechat_server.Effect.{◌>>=◌, Attempt, got, failed, attempt, wrap, branch, pure, fail, ◌>>◌}
use wirechat_server.Engine.{Engine, JoinInfo}
use wirechat_server.Store.Types.{
  Call, direct_call, room_call, ringing, active, CallParticipant, call_status_eq,
}
use wirechat_server.Store.World.{DbError, clock}
use wirechat_server.Store.Users.{get_user_by_id}
use wirechat_server.Store.Rooms.{is_member}
use wirechat_server.Store.Calls as Table
use wirechat_server.Calls.Shared.{
  call_not_found, call_ended, not_participant, livekit_not_enabled, store_error, Service, or_fail,
  is_over, new_participant, from_engine,
}

-- A participant row for the user of a room call, or the error.
admit_member : String → ℕ → ℕ → Service CallParticipant
admit_member id user room = do
  member ← or_fail not_participant (is_member user room)
  branch (not member) (fail not_participant)
      (wrap store_error (Table.add_participant (new_participant id user)))

unfoldable pub admit : Call → ℕ → Attempt DbError CallParticipant → Service CallParticipant
unfolding admit_member
admit call user (got p) = pure p
admit call user (failed e) = elim call.type [
  | direct_call ↦ fail not_participant
  | room_call ↦ elim call.room_id [
    | none ↦ fail not_participant
    | some room ↦ admit_member call.id user room
  ]
]

-- `joined_at` is set once; an error of the UPDATE is dropped.
unfoldable pub mark_joined : CallParticipant → Service (Unit {0})
mark_joined p = elim p.joined_at [
  | some t ↦ pure tt
  | none ↦ λ w.
      (attempt (Table.update_participant (record p { joined_at = some (clock w) })) >> pure tt) w
]

-- A ringing call becomes active; an error of the UPDATE is dropped.
unfoldable pub mark_active : Call → Service Call
mark_active call =
    branch (call_status_eq call.status ringing)
      (λ w.
        (attempt (Table.update_call (record call { status = active; updated_at = clock w }))
            >> pure (record call { status = active; updated_at = clock w }))
          w)
      (pure call)

-- The user's display name, and the credentials of the engine.
unfoldable pub credentials : Engine → ℕ → Call → Service JoinInfo
credentials engine user call = do
  u ← wrap store_error (get_user_by_id user)
  from_engine (engine.generate_join_info call user u.username)

unfoldable pub enter_call : Engine → Call → ℕ → CallParticipant → Service JoinInfo
enter_call engine call user p = do
  mark_joined p
  joined ← mark_active call
  credentials engine user joined

unfoldable pub admit_and_enter : Engine → ℕ → Call → Service JoinInfo
admit_and_enter engine user call = do
  found ← attempt (Table.get_participant call.id user)
  p ← admit call user found
  enter_call engine call user p

unfoldable pub join_call : Engine → ℕ → Call → Service JoinInfo
join_call engine user call =
    branch (is_over call.status) (fail call_ended) (admit_and_enter engine user call)

unfoldable pub join_with : Option Engine → String → ℕ → Service JoinInfo
join_with none id user = fail livekit_not_enabled
join_with (some engine) id user = do
  call ← or_fail call_not_found (Table.get_call id)
  join_call engine user call
