-- ===== src/Friends/Frame.antt =====
-- internal/service/friends/service.go touches no table but `friends`.
use wirechat_server.Common.{ℕ, ◌≡◌, arith}
use wirechat_server.Effect.{after}
use wirechat_server.Store.World.{World, IsQuiet}
use wirechat_server.Store.Users.{get_user_by_id}
use wirechat_server.Store.Friends.{
  create_friend_request, update_friend_status, get_friendship, delete_friendship,
}
use wirechat_server.Friends.{send_request, accept_request, reject_request, block_user, unblock_user}

-- The users and the environment are as before.
abbrev pub Keeps : World → World → Type 0
Keeps w v = (v.env ≡ w.env) × (v.db.users ≡ w.db.users)

pub IsQuiet-Keeps : (w v : World) → Keeps w v → IsQuiet w → IsQuiet v
IsQuiet-Keeps w v k q n = rw k.0 (q n)

module _ (u v : ℕ) (w : World) where
  pub send_request-Keeps : Keeps w (after (send_request u v w))
  unfolding send_request get_user_by_id get_friendship create_friend_request
  send_request-Keeps = ground arith

  pub accept_request-Keeps : Keeps w (after (accept_request u v w))
  unfolding accept_request get_friendship update_friend_status
  accept_request-Keeps = ground arith

  pub reject_request-Keeps : Keeps w (after (reject_request u v w))
  unfolding reject_request get_friendship delete_friendship
  reject_request-Keeps = ground arith

  pub block_user-Keeps : Keeps w (after (block_user u v w))
  unfolding block_user get_user_by_id get_friendship delete_friendship update_friend_status
      create_friend_request
  block_user-Keeps = ground arith

  pub unblock_user-Keeps : Keeps w (after (unblock_user u v w))
  unfolding unblock_user get_friendship delete_friendship
  unblock_user-Keeps = ground arith
