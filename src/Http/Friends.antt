-- ===== src/Http/Friends.antt =====
-- internal/transport/http/friends_handlers.go
use wirechat_server.Common.{ℕ, Option, List, [], ◌∷◌, ◌==◌, if◌then◌else◌}
use wirechat_server.Effect.{Action, Attempt, got, failed, attempt, pure, ◌>>=◌}
use wirechat_server.Store.Types.{Friend, User}
use wirechat_server.Store.World.{World, DbError}
use wirechat_server.Store.Users.{get_user_by_id}
use wirechat_server.Friends as Service
use wirechat_server.Friends.{
  cannot_friend_self, already_friends, request_already_exists, request_not_found, user_not_found,
  not_blocked,
}
use wirechat_server.Http.Response.{
  Handler, FriendResponse, reply, refuse, internal_error, with_user, with_body, with_id, call_then,
  friend, friends, message,
}

-- The name of the other user, which stays empty where the look-up fails.
abbrev pub named : Friend → Attempt DbError User → FriendResponse
named f (got u) = record { friend = f; friend_username = u.username }
named f (failed e) = record { friend = f; friend_username = "" }

abbrev pub other_user : Friend → ℕ → ℕ
other_user f u = if f.friend_id == u then f.user_id else f.friend_id

unfoldable pub friend_to_response : Friend → ℕ → Action World DbError FriendResponse
friend_to_response f u = do user ← attempt (get_user_by_id (other_user f u)); pure (named f user)

unfoldable pub to_responses : List Friend → ℕ → Action World DbError (List FriendResponse)
unfolding friend_to_response
to_responses [] u = pure []
to_responses (f ∷ fs) u = do r ← friend_to_response f u; rs ← to_responses fs u; pure (r ∷ rs)

abbrev pub send_error : Service.Error → Handler
send_error cannot_friend_self = refuse 400 "cannot send friend request to yourself"
send_error already_friends = refuse 409 "already friends"
send_error request_already_exists = refuse 409 "friend request already exists"
send_error user_not_found = refuse 404 "user not found"
send_error _ = internal_error

unfoldable pub send_request : Option ℕ → Option ℕ → Handler
unfolding friend_to_response
send_request user body = with_user user λ u. with_body body λ v.
    call_then (Service.send_request u v) send_error
      λ f. call_then (friend_to_response f u) (λ _. internal_error) (λ r. reply 201 (friend r))

abbrev pub listed : ℕ → Action World Service.Error (List Friend) → Handler
listed u rows =
    call_then rows (λ _. internal_error)
      λ fs. call_then (to_responses fs u) (λ _. internal_error) (λ rs. reply 200 (friends rs))

unfoldable pub list_friends : Option ℕ → Handler
unfolding to_responses
list_friends user = with_user user λ u. listed u (Service.list_friends u)

unfoldable pub list_pending_requests : Option ℕ → Handler
unfolding to_responses
list_pending_requests user = with_user user λ u. listed u (Service.list_pending_requests u)

abbrev pub answer_error : Service.Error → Handler
answer_error request_not_found = refuse 404 "friend request not found"
answer_error _ = internal_error

unfoldable pub accept_request : Option ℕ → Option ℕ → Handler
accept_request user id = with_user user λ u. with_id id "invalid user id" λ v.
    call_then (Service.accept_request u v) answer_error
      (λ _. reply 200 (message "friend request accepted"))

unfoldable pub reject_request : Option ℕ → Option ℕ → Handler
reject_request user id = with_user user λ u. with_id id "invalid user id" λ v.
    call_then (Service.reject_request u v) answer_error
      (λ _. reply 200 (message "friend request rejected"))

abbrev pub block_error : Service.Error → Handler
block_error cannot_friend_self = refuse 400 "cannot block yourself"
block_error user_not_found = refuse 404 "user not found"
block_error _ = internal_error

unfoldable pub block_user : Option ℕ → Option ℕ → Handler
block_user user id = with_user user λ u.
    with_id id "invalid user id"
      λ v. call_then (Service.block_user u v) block_error (λ _. reply 200 (message "user blocked"))

abbrev pub unblock_error : Service.Error → Handler
unblock_error not_blocked = refuse 404 "user is not blocked"
unblock_error _ = internal_error

unfoldable pub unblock_user : Option ℕ → Option ℕ → Handler
unblock_user user id = with_user user λ u. with_id id "invalid user id" λ v.
    call_then (Service.unblock_user u v) unblock_error (λ _. reply 200 (message "user unblocked"))
