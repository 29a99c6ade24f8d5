-- ===== src/Friends/RoomsKept.antt =====
-- internal/service/friends/service.go leaves the rooms and their members alone.
use wirechat_server.Common.{ℕ, arith}
use wirechat_server.Effect.{after}
use wirechat_server.Store.World.{World}
use wirechat_server.Store.Users.{get_user_by_id}
use wirechat_server.Store.Rooms.Untouched.{SameRooms}
use wirechat_server.Store.Friends as Table
use wirechat_server.Store.Friends.{
  create_friend_request, update_friend_status, get_friendship, delete_friendship,
}
use wirechat_server.Friends.{
  send_request, accept_request, reject_request, block_user, unblock_user, list_friends,
  list_pending_requests,
}

module _ (u v : ℕ) (w : World) where
  pub send_request-SameRooms : SameRooms w (after (send_request u v w))
  unfolding send_request get_user_by_id get_friendship create_friend_request
  send_request-SameRooms = ground arith

  pub accept_request-SameRooms : SameRooms w (after (accept_request u v w))
  unfolding accept_request get_friendship update_friend_status
  accept_request-SameRooms = ground arith

  pub reject_request-SameRooms : SameRooms w (after (reject_request u v w))
  unfolding reject_request get_friendship delete_friendship
  reject_request-SameRooms = ground arith

  pub block_user-SameRooms : SameRooms w (after (block_user u v w))
  unfolding block_user get_user_by_id get_friendship delete_friendship update_friend_status
      create_friend_request
  block_user-SameRooms = ground arith

  pub unblock_user-SameRooms : SameRooms w (after (unblock_user u v w))
  unfolding unblock_user get_friendship delete_friendship
  unblock_user-SameRooms = ground arith

pub list_friends-SameRooms : (u : ℕ) (w : World) → SameRooms w (after (list_friends u w))
unfolding list_friends Table.list_friends
list_friends-SameRooms u w = ground arith

pub list_pending_requests-SameRooms :
    (u : ℕ) (w : World) → SameRooms w (after (list_pending_requests u w))
unfolding list_pending_requests Table.list_friends
list_pending_requests-SameRooms u w = ground arith
