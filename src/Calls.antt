-- ===== src/Calls.antt =====
-- internal/service/calls/service.go: the methods that end a call, or read it.
pub mod Shared
pub mod Start
pub mod Join
pub mod Frame
pub mod RoomsKept
pub mod Lifecycle
pub mod History
pub mod Access
pub mod Running
pub mod Emptied
pub mod Rejoined
mod Tests
use wirechat_server.Common.{
  ℕ, String, Bool, true, not, Option, some, List, all, is_some, ◌==◌, str_eq, if◌then◌else◌,
}
use wirechat_server.Effect.{◌>>=◌, Attempt, got, failed, attempt, wrap, branch, pure, fail, ◌>>◌}
use wirechat_server.Engine.{Engine, JoinInfo}
use wirechat_server.Engine
use wirechat_server.Store.Types.{Call, ringing, ended, CallParticipant, call_status_eq}
use wirechat_server.Store.World.{DbError, clock}
use wirechat_server.Store.Users.{get_user_by_id}
use wirechat_server.Store.Rooms.{get_room_by_id, list_members}
use wirechat_server.Store.Calls as Table
pub use Shared.{
  Error, user_not_found, call_not_found, call_ended, not_participant, calls_not_allowed,
  room_not_found, not_room_member, cannot_call_self, livekit_not_enabled, store_error, engine_error,
  Service, or_fail, is_over, time_now, new_participant, new_call, from_engine,
}
unfoldable pub use Start.{
  register_call, check_privacy, start_direct, direct_with, join_existing, start_room, room_unless,
  room_with,
}
unfoldable pub use Join.{
  admit, mark_joined, mark_active, credentials, enter_call, admit_and_enter, join_call, join_with,
}

unfoldable pub get_call : String → Service Call
get_call id = or_fail call_not_found (Table.get_call id)

-- `participantErr != nil && call.InitiatorUserID != byUserID`
abbrev pub may_end : Call → ℕ → Attempt DbError CallParticipant → Bool
may_end call user (got p) = true
may_end call user (failed e) = call.initiator_user_id == user

abbrev pub ended_call : Call → ℕ → Call
ended_call call now = record call { status = ended; ended_at = some now; updated_at = now }

unfoldable pub end_call : String → ℕ → Service (Unit {0})
end_call id user = do
  call ← or_fail call_not_found (Table.get_call id)
  branch (is_over call.status) (pure tt) do
    found ← attempt (Table.get_participant id user)
    branch (not (may_end call user found)) (fail not_participant)
        (λ w. wrap store_error (Table.update_call (ended_call call (clock w))) w)

unfoldable pub list_active_calls : ℕ → Service (List Call)
list_active_calls user = wrap store_error (Table.list_active_calls user)

-- `if reason != "" { participant.Reason = &reason }`
abbrev pub with_reason : String → CallParticipant → CallParticipant
with_reason r p = if str_eq r "" then p else record p { reason = some r }

-- After a rejection the participant has left; every error of this part is dropped.
note_rejection : String → ℕ → String → ℕ → Service (Unit {0})
note_rejection id user reason now = do
  found ← attempt (Table.get_participant id user)
  elim found [
    | failed e ↦ pure tt
    | got p ↦
        attempt (Table.update_participant (with_reason reason (record p { left_at = some now })))
        >> pure tt
  ]

unfoldable pub reject_call : String → ℕ → String → Service (Unit {0})
unfolding note_rejection
reject_call id user reason = do
  call ← or_fail call_not_found (Table.get_call id)
  branch (not (call_status_eq call.status ringing)) (fail call_ended) do
    or_fail not_participant (Table.get_participant id user)
    now ← time_now
    wrap store_error (Table.update_call (ended_call call now))
    note_rejection id user reason now

-- `participants, _ :=`, and the loop with its `break`: an error leaves no participants.
abbrev pub all_left : Attempt DbError (List CallParticipant) → Bool
all_left (failed e) = true
all_left (got ps) = all (λ p. is_some p.left_at) ps

-- The end of LeaveCall, when everyone has left; errors are dropped.
pub close_empty : String → ℕ → Service (Unit {0})
close_empty id now = do
  found ← attempt (Table.get_call id)
  elim found [
    | failed e ↦ pure tt
    | got call ↦
        branch (call_status_eq call.status ended) (pure tt)
          (attempt (Table.update_call (ended_call call now)) >> pure tt)
  ]

unfoldable pub leave_call : String → ℕ → Service (Unit {0})
leave_call id user = do
  p ← or_fail not_participant (Table.get_participant id user)
  now ← time_now
  wrap store_error
      (Table.update_participant (record p { left_at = some now; reason = some "left" }))
  others ← attempt (Table.list_participants id)
  branch (all_left others) (close_empty id now) (pure tt)

unfoldable pub get_target_user : ℕ → Service String
get_target_user user = do u ← or_fail user_not_found (get_user_by_id user); pure u.username

unfoldable pub list_room_members : ℕ → Service (List ℕ)
list_room_members room = wrap store_error (list_members room)

unfoldable pub get_room_info : ℕ → Service String
get_room_info room = do r ← or_fail room_not_found (get_room_by_id room); pure r.name

-- The methods that need the engine, which may be nil.
module _ (engine : Option Engine) where
  unfoldable pub create_direct_call : ℕ → ℕ → Service Call
  unfolding direct_with
  create_direct_call = direct_with engine

  unfoldable pub create_room_call : ℕ → ℕ → Service Call
  unfolding room_with
  create_room_call = room_with engine

  unfoldable pub get_join_info : String → ℕ → Service JoinInfo
  unfolding join_with
  get_join_info = join_with engine
