-- ===== src/App.antt =====
-- internal/app/app.go: the calls service as the hub's CallService.
pub mod Calls
pub mod Privacy
pub mod Start
pub mod Main
pub mod Fresh
mod Tests
use wirechat_server.Common.{ℕ, String, Option, some}
use wirechat_server.Effect.{wrap}
use wirechat_server.Engine.{Engine}
use wirechat_server.Calls as Service
use wirechat_server.Calls.{
  Error, user_not_found, call_not_found, call_ended, not_participant, calls_not_allowed,
  room_not_found, not_room_member, cannot_call_self, livekit_not_enabled, store_error, engine_error,
}
use wirechat_server.Hub.CallCommands.{CallService}

-- `err.Error()`: the texts of service.go; what stands in an error of the driver or of the engine is a
-- parameter.
unfoldable pub error_text : (Error → String) → Error → String
error_text wrapped user_not_found = "user not found"
error_text wrapped call_not_found = "call not found"
error_text wrapped call_ended = "call has ended"
error_text wrapped not_participant = "not a participant in this call"
error_text wrapped calls_not_allowed = "user does not accept calls from non-friends"
error_text wrapped room_not_found = "room not found"
error_text wrapped not_room_member = "not a member of this room"
error_text wrapped cannot_call_self = "cannot call yourself"
error_text wrapped livekit_not_enabled = "livekit is not enabled"
error_text wrapped (store_error e) = wrapped (store_error e)
error_text wrapped (engine_error e) = wrapped (engine_error e)

-- `core.NewHub(st, callsService)`: the engine is nil where LiveKit is off.
unfoldable pub call_service : (Error → String) → Option Engine → CallService
unfolding error_text
call_service wrapped engine = record {
  create_direct_call = λ u v. wrap (error_text wrapped) (Service.create_direct_call engine u v);
  create_room_call = λ u r. wrap (error_text wrapped) (Service.create_room_call engine u r);
  get_call = λ id. wrap (error_text wrapped) (Service.get_call id);
  get_join_info = λ id u. wrap (error_text wrapped) (Service.get_join_info engine id u);
  end_call = λ id u. wrap (error_text wrapped) (Service.end_call id u);
  reject_call = λ id u reason. wrap (error_text wrapped) (Service.reject_call id u reason);
  leave_call = λ id u. wrap (error_text wrapped) (Service.leave_call id u);
  get_target_user = λ u. wrap (error_text wrapped) (Service.get_target_user u);
  list_room_members = λ r. wrap (error_text wrapped) (Service.list_room_members r);
  get_room_info = λ r. wrap (error_text wrapped) (Service.get_room_info r);
}
