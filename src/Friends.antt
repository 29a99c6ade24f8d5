-- ===== src/Friends.antt =====
-- internal/service/friends/service.go: requests, blocks and lists of friends over the store.
pub mod Frame
pub mod RoomsKept
pub mod Quiet
pub mod Pairs
pub mod Blocks
pub mod Requests
pub mod History
mod Tests
use wirechat_server.Common.{
  ℕ, Bool, true, false, not, ◌&&◌, ◌||◌, Option, none, some, List, [], ◌∷◌, select, ◌==◌,
  if◌then◌else◌,
}
use wirechat_server.Effect.{
  Outcome, Action, ok, err, Attempt, got, failed, attempt, wrap, branch, pure, fail, ◌>>=◌, ◌>>◌,
}
use wirechat_server.Store.Types.{Friend, FriendStatus, pending, accepted, blocked, status_eq}
use wirechat_server.Store.World.{World, DbError}
use wirechat_server.Store.Users.{get_user_by_id}
use wirechat_server.Store.Friends as Table

-- The sentinel errors, the two unnamed ones of `SendRequest`, and a store error passed on, bare or
-- behind a prefix.
pub data Error : Type 0 where
  cannot_friend_self already_friends request_already_exists request_not_found : Error
  user_not_found not_blocked blocked_by_user unblock_first : Error
  store_error : DbError → Error

abbrev pub Service : Type 0 → Type 0
Service A = Action World Error A

-- `if err != nil { return e }`
abbrev pub or_fail : {A : Type 0} → Error → Action World DbError A → Service A
or_fail e = wrap (λ _. e)

-- The `switch existing.Status` of SendRequest.
abbrev pub refusal : ℕ → Friend → FriendStatus → Error
refusal to f accepted = already_friends
refusal to f pending = request_already_exists
refusal to f blocked = if f.user_id == to then blocked_by_user else unblock_first

-- `if err == nil { switch ... }`, then the INSERT.
request_unless : ℕ → ℕ → Attempt DbError Friend → Service Friend
request_unless from to (got f) = fail (refusal to f f.status)
request_unless from to (failed e) = wrap store_error (Table.create_friend_request from to)

unfoldable pub send_request : ℕ → ℕ → Service Friend
unfolding request_unless
send_request from to = branch (from == to) (fail cannot_friend_self) do
  or_fail user_not_found (get_user_by_id to)
  existing ← attempt (Table.get_friendship from to)
  request_unless from to existing

-- A pending request to `user`, or the error.
incoming : ℕ → Friend → Service Friend
incoming user f =
    branch (not (status_eq f.status pending)) (fail request_not_found)
      (branch (not (f.friend_id == user)) (fail request_not_found) (pure f))

unfoldable pub accept_request : ℕ → ℕ → Service (Unit {0})
unfolding incoming
accept_request user from = do
  existing ← or_fail request_not_found (Table.get_friendship from user)
  f ← incoming user existing
  wrap store_error (Table.update_friend_status f.user_id f.friend_id accepted)

unfoldable pub reject_request : ℕ → ℕ → Service (Unit {0})
unfolding incoming
reject_request user from = do
  existing ← or_fail request_not_found (Table.get_friendship from user)
  f ← incoming user existing
  wrap store_error (Table.delete_friendship f.user_id f.friend_id)

-- A new record of ours, blocked.
create_block : ℕ → ℕ → Service (Unit {0})
create_block user target = do
  wrap store_error (Table.create_friend_request user target)
  wrap store_error (Table.update_friend_status user target blocked)

block_existing : ℕ → ℕ → Attempt DbError Friend → Service (Unit {0})
unfolding create_block
block_existing user target (failed e) = create_block user target
block_existing user target (got f) =
    branch (f.user_id == user) (wrap store_error (Table.update_friend_status user target blocked))
      do wrap store_error (Table.delete_friendship f.user_id f.friend_id); create_block user target

unfoldable pub block_user : ℕ → ℕ → Service (Unit {0})
unfolding block_existing
block_user user target = branch (user == target) (fail cannot_friend_self) do
  or_fail user_not_found (get_user_by_id target)
  existing ← attempt (Table.get_friendship user target)
  block_existing user target existing

unfoldable pub unblock_user : ℕ → ℕ → Service (Unit {0})
unblock_user user target = do
  f ← or_fail not_blocked (Table.get_friendship user target)
  branch (not (status_eq f.status blocked) || not (f.user_id == user)) (fail not_blocked)
      (wrap store_error (Table.delete_friendship user target))

unfoldable pub list_friends : ℕ → Service (List Friend)
list_friends user = wrap store_error (Table.list_friends user (some accepted))

unfoldable pub list_pending_requests : ℕ → Service (List Friend)
list_pending_requests user = do
  all ← wrap store_error (Table.list_friends user (some pending))
  pure (select (λ f. f.friend_id == user) all)

unfoldable pub is_friend : ℕ → ℕ → Action World DbError Bool
is_friend user friend = Table.is_friend user friend
