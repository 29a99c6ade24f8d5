-- ===== src/Calls/Shared.antt =====
-- internal/service/calls/service.go: the errors, and what the methods share.
use wirechat_server.Common.{ℕ, String, Bool, ◌||◌, Option, none}
use wirechat_server.Effect.{Action, ok, err, Attempt, got, failed, wrap}
use wirechat_server.Engine.{Engine}
use wirechat_server.Engine
use wirechat_server.Store.Types.{
  Call, CallType, CallStatus, ringing, ended, failed_call, livekit, CallParticipant, call_status_eq,
}
use wirechat_server.Store.World.{World, DbError, clock}

pub data Error : Type 0 where
  user_not_found call_not_found call_ended not_participant calls_not_allowed : Error
  room_not_found not_room_member cannot_call_self livekit_not_enabled : Error
  store_error : DbError → Error
  engine_error : Engine.Error → Error

abbrev pub Service : Type 0 → Type 0
Service A = Action World Error A

abbrev pub or_fail : {A : Type 0} → Error → Action World DbError A → Service A
or_fail e = wrap (λ _. e)

abbrev pub is_over : CallStatus → Bool
is_over s = call_status_eq s ended || call_status_eq s failed_call

-- `time.Now()`
abbrev pub time_now : Service ℕ
time_now w = ok (clock w) w

abbrev pub new_participant : String → ℕ → CallParticipant
new_participant id u = record {
  id = 0;
  call_id = id;
  user_id = u;
  joined_at = none;
  left_at = none;
  reason = none;
}

-- The record that CreateDirectCall and CreateRoomCall fill in.
abbrev pub new_call : CallType → ℕ → Option ℕ → World → Call
new_call type from room w = record {
  id = w.env.uuid w.ticks;
  type = type;
  mode = livekit;
  initiator_user_id = from;
  room_id = room;
  status = ringing;
  external_room_id = none;
  created_at = clock w;
  updated_at = clock w;
  ended_at = none;
}

abbrev pub from_engine : {A : Type 0} → Attempt Engine.Error A → Service A
from_engine (got a) w = ok a w
from_engine (failed e) w = err (engine_error e) w
