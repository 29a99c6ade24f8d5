-- ===== src/Http/Calls.antt =====
-- internal/transport/http/calls_handlers.go
use wirechat_server.Common.{ℕ, String, Option, str_eq}
use wirechat_server.Engine.{Engine}
use wirechat_server.Calls as Service
use wirechat_server.Calls.{
  user_not_found, call_not_found, call_ended, not_participant, calls_not_allowed, room_not_found,
  not_room_member, cannot_call_self, livekit_not_enabled,
}
use wirechat_server.Http.Response.{
  Handler, reply, refuse, internal_error, either, with_user, with_body, call_then, call, calls,
  join_info, message,
}

abbrev pub direct_error : Service.Error → Handler
direct_error cannot_call_self = refuse 400 "cannot call yourself"
direct_error user_not_found = refuse 404 "user not found"
direct_error calls_not_allowed = refuse 403 "user does not accept calls from non-friends"
direct_error livekit_not_enabled = refuse 503 "calls are not available"
direct_error _ = internal_error

abbrev pub room_error : Service.Error → Handler
room_error room_not_found = refuse 404 "room not found"
room_error not_room_member = refuse 403 "not a member of this room"
room_error livekit_not_enabled = refuse 503 "calls are not available"
room_error _ = internal_error

abbrev pub get_error : Service.Error → Handler
get_error call_not_found = refuse 404 "call not found"
get_error _ = internal_error

abbrev pub join_error : Service.Error → Handler
join_error call_not_found = refuse 404 "call not found"
join_error call_ended = refuse 410 "call has ended"
join_error not_participant = refuse 403 "not a participant in this call"
join_error livekit_not_enabled = refuse 503 "calls are not available"
join_error _ = internal_error

abbrev pub end_error : Service.Error → Handler
end_error call_not_found = refuse 404 "call not found"
end_error not_participant = refuse 403 "not a participant in this call"
end_error _ = internal_error

abbrev pub with_call : String → (String → Handler) → Handler
with_call id h = either (str_eq id "") (refuse 400 "call id required") (h id)

module _ (engine : Option Engine) where
  unfoldable pub create_direct_call : Option ℕ → Option ℕ → Handler
  create_direct_call user body = with_user user λ u.
      with_body body λ v.
        call_then (Service.create_direct_call engine u v) direct_error (λ c. reply 201 (call c))

  unfoldable pub create_room_call : Option ℕ → Option ℕ → Handler
  create_room_call user body = with_user user λ u.
      with_body body
        λ r. call_then (Service.create_room_call engine u r) room_error (λ c. reply 201 (call c))

  unfoldable pub get_join_info : Option ℕ → String → Handler
  get_join_info user id = with_user user λ u.
      with_call id λ id.
        call_then (Service.get_join_info engine id u) join_error (λ i. reply 200 (join_info i))

unfoldable pub get_call : String → Handler
get_call id = with_call id λ id. call_then (Service.get_call id) get_error (λ c. reply 200 (call c))

unfoldable pub end_call : Option ℕ → String → Handler
end_call user id = with_user user λ u.
    with_call id
      λ id. call_then (Service.end_call id u) end_error (λ _. reply 200 (message "call ended"))

unfoldable pub list_active_calls : Option ℕ → Handler
list_active_calls user =
    with_user user λ u.
      call_then (Service.list_active_calls u) (λ _. internal_error) (λ cs. reply 200 (calls cs))
