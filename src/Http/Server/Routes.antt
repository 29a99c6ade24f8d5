-- ===== src/Http/Server/Routes.antt =====
-- internal/transport/http: every route behind the middleware, and the members of a private room.
use wirechat_server.Common.{
  ℕ, ◌+◌, inl, inr, refl, String, Option, none, some, List, ltb, str_eq, Bool-cases,
}
use wirechat_server.Common.Texts.{trim_space, byte_length}
use wirechat_server.Effect.{Action, after}
use wirechat_server.Engine.{Engine}
use wirechat_server.Store.Types.{Room, Friend}
use wirechat_server.Store.World.{World}
use wirechat_server.Store.Users as Users
use wirechat_server.Store.Messages.{list_messages}
use wirechat_server.Store.Rooms as Table
use wirechat_server.Store.Rooms.{owned_by}
use wirechat_server.Store.Rooms.Untouched.{SameRooms}
use wirechat_server.Friends as FriendsService
use wirechat_server.Friends.RoomsKept.{
  send_request-SameRooms, accept_request-SameRooms, reject_request-SameRooms, block_user-SameRooms,
  unblock_user-SameRooms,
}
use wirechat_server.Calls as CallsService
use wirechat_server.Calls.RoomsKept.{
  get_call-SameRooms, list_active_calls-SameRooms, end_call-SameRooms, get_join_info-SameRooms,
  create_direct_call-SameRooms, create_room_call-SameRooms,
}
use wirechat_server.Http.Response.{world_of}
use wirechat_server.Http.Rooms
use wirechat_server.Http.Rooms.{
  create_error, add_creator, create_typed, requested_type, is_private, direct_of, direct_key, lower,
  upper, page_limit,
}
use wirechat_server.Http.Friends
use wirechat_server.Http.Friends.{
  send_error, answer_error, block_error, unblock_error, listed, friend_to_response, to_responses,
}
use wirechat_server.Http.Calls
use wirechat_server.Http.Calls.{direct_error, room_error, get_error, join_error, end_error}
use wirechat_server.Http.Accounts
use wirechat_server.Http.Server.Privacy.{kept}
use wirechat_server.Http.Server.Outsiders.{Outside, Same-Outside, call_then-Outside}
use wirechat_server.Http.Server.Quiet.{
  answers, call_then-Quiet, send_error-Quiet, answer_error-Quiet, block_error-Quiet,
  unblock_error-Quiet, direct_error-Quiet, room_error-Quiet, get_error-Quiet, join_error-Quiet,
  end_error-Quiet, friend_to_response-SameRooms, to_responses-SameRooms, list_messages-SameRooms,
  list_rooms-SameRooms, search_users-SameRooms,
}

module _ (v : ℕ) (r : Room) (w : World) (o : Outside v r w) where
  pub send_request-Outside :
      (u : ℕ) (id : Option ℕ) → Outside v r (world_of (Friends.send_request (some u) id w))
  unfolding Friends.send_request
  send_request-Outside u none = o
  send_request-Outside u (some x) =
      call_then-Outside v r (FriendsService.send_request u x) send_error _ w
        (Same-Outside v r w (after (FriendsService.send_request u x w))
          (send_request-SameRooms u x w) o)
        (λ e k p. kept v r w o send_error send_error-Quiet e k p)
        (λ f k q p.
          call_then-Quiet v r (friend_to_response f u) _ _ k (answers _ (λ a j. refl))
            (answers _ (λ a j. refl)) (friend_to_response-SameRooms f u k) p)

  pub listed-Outside :
      (u : ℕ) (m : Action World FriendsService.Error (List Friend))
      → SameRooms w (after (m w))
      → Outside v r (world_of (listed u m w))
  listed-Outside u m s =
      call_then-Outside v r m _ _ w (Same-Outside v r w (after (m w)) s o) (λ e k p. p)
        (λ fs k q p.
          call_then-Quiet v r (to_responses fs u) _ _ k (answers _ (λ a j. refl))
            (answers _ (λ a j. refl)) (to_responses-SameRooms fs u k) p)

  pub accept_request-Outside :
      (u : ℕ) (id : Option ℕ) → Outside v r (world_of (Friends.accept_request (some u) id w))
  unfolding Friends.accept_request
  accept_request-Outside u none = o
  accept_request-Outside u (some x) =
      call_then-Quiet v r (FriendsService.accept_request u x) answer_error _ w answer_error-Quiet
        (answers _ (λ a k. refl)) (accept_request-SameRooms u x w) o

  pub reject_request-Outside :
      (u : ℕ) (id : Option ℕ) → Outside v r (world_of (Friends.reject_request (some u) id w))
  unfolding Friends.reject_request
  reject_request-Outside u none = o
  reject_request-Outside u (some x) =
      call_then-Quiet v r (FriendsService.reject_request u x) answer_error _ w answer_error-Quiet
        (answers _ (λ a k. refl)) (reject_request-SameRooms u x w) o

  pub block_user-Outside :
      (u : ℕ) (id : Option ℕ) → Outside v r (world_of (Friends.block_user (some u) id w))
  unfolding Friends.block_user
  block_user-Outside u none = o
  block_user-Outside u (some x) =
      call_then-Quiet v r (FriendsService.block_user u x) block_error _ w block_error-Quiet
        (answers _ (λ a k. refl)) (block_user-SameRooms u x w) o

  pub unblock_user-Outside :
      (u : ℕ) (id : Option ℕ) → Outside v r (world_of (Friends.unblock_user (some u) id w))
  unfolding Friends.unblock_user
  unblock_user-Outside u none = o
  unblock_user-Outside u (some x) =
      call_then-Quiet v r (FriendsService.unblock_user u x) unblock_error _ w unblock_error-Quiet
        (answers _ (λ a k. refl)) (unblock_user-SameRooms u x w) o

  pub create_direct_call-Outside :
      (engine : Option Engine) (u : ℕ) (id : Option ℕ)
      → Outside v r (world_of (Calls.create_direct_call engine (some u) id w))
  unfolding Calls.create_direct_call
  create_direct_call-Outside engine u none = o
  create_direct_call-Outside engine u (some x) =
      call_then-Quiet v r (CallsService.create_direct_call engine u x) direct_error _ w
        direct_error-Quiet (answers _ (λ a k. refl)) (create_direct_call-SameRooms engine u x w) o

  pub create_room_call-Outside :
      (engine : Option Engine) (u : ℕ) (id : Option ℕ)
      → Outside v r (world_of (Calls.create_room_call engine (some u) id w))
  unfolding Calls.create_room_call
  create_room_call-Outside engine u none = o
  create_room_call-Outside engine u (some x) =
      call_then-Quiet v r (CallsService.create_room_call engine u x) room_error _ w room_error-Quiet
        (answers _ (λ a k. refl)) (create_room_call-SameRooms engine u x w) o

  pub get_join_info-Outside :
      (engine : Option Engine) (u : ℕ) (id : String)
      → Outside v r (world_of (Calls.get_join_info engine (some u) id w))
  unfolding Calls.get_join_info
  get_join_info-Outside engine u id = elim (Bool-cases (str_eq id "")) [
    | inl e ↦ rw e o
    | inr e ↦ rw e (
        call_then-Quiet v r (CallsService.get_join_info engine id u) join_error _ w join_error-Quiet
          (answers _ (λ a k. refl)) (get_join_info-SameRooms engine id u w) o)
  ]

  pub get_call-Outside : (id : String) → Outside v r (world_of (Calls.get_call id w))
  unfolding Calls.get_call
  get_call-Outside id = elim (Bool-cases (str_eq id "")) [
    | inl e ↦ rw e o
    | inr e ↦ rw e (
        call_then-Quiet v r (CallsService.get_call id) get_error _ w get_error-Quiet
          (answers _ (λ a k. refl)) (get_call-SameRooms w id) o)
  ]

  pub end_call-Outside :
      (u : ℕ) (id : String) → Outside v r (world_of (Calls.end_call (some u) id w))
  unfolding Calls.end_call
  end_call-Outside u id = elim (Bool-cases (str_eq id "")) [
    | inl e ↦ rw e o
    | inr e ↦ rw e (
        call_then-Quiet v r (CallsService.end_call id u) end_error _ w end_error-Quiet
          (answers _ (λ a k. refl)) (end_call-SameRooms w id u) o)
  ]

  pub search_users-Outside :
      (u : ℕ) (q : String) → Outside v r (world_of (Accounts.search_users (some u) q w))
  unfolding Accounts.search_users
  search_users-Outside u q = elim (Bool-cases (ltb (byte_length (trim_space q)) 3)) [
    | inl e ↦ rw e o
    | inr e ↦ rw e (
        call_then-Quiet v r (Users.search_users (trim_space q)) _ _ w (answers _ (λ a k. refl))
          (answers _ (λ a k. refl)) (search_users-SameRooms (trim_space q) w) o)
  ]

  pub list_rooms-Outside : (u : ℕ) → Outside v r (world_of (Rooms.list_rooms (some u) w))
  unfolding Rooms.list_rooms
  list_rooms-Outside u =
      call_then-Quiet v r (Table.list_rooms u) _ _ w (answers _ (λ a k. refl))
        (answers _ (λ a k. refl)) (list_rooms-SameRooms u w) o

  pub get_messages-Outside :
      (id limit before : Option ℕ) → Outside v r (world_of (Rooms.get_messages id limit before w))
  unfolding Rooms.get_messages
  get_messages-Outside none limit before = o
  get_messages-Outside (some rid) limit before =
      call_then-Quiet v r (list_messages rid (page_limit limit + 1) before) _ _ w
        (answers _ (λ a k. refl)) (answers _ (λ a k. refl))
        (list_messages-SameRooms rid (page_limit limit + 1) before w) o

  pub list_active_calls-Outside :
      (u : ℕ) → Outside v r (world_of (Calls.list_active_calls (some u) w))
  unfolding Calls.list_active_calls
  list_active_calls-Outside u =
      call_then-Quiet v r (CallsService.list_active_calls u) _ _ w (answers _ (λ a k. refl))
        (answers _ (λ a k. refl)) (list_active_calls-SameRooms w u) o
