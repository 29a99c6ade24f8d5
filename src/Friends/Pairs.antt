-- ===== src/Friends/Pairs.antt =====
-- internal/service/friends/service.go keeps one record for two users.
use wirechat_server.Common.{
  ℕ, ◌≡◌, ◌≢◌, ◌+◌, inl, inr, false, not, none, some, find, select, arith, Bool-cases, Option-cases,
  ◌==◌,
}
use wirechat_server.Effect.{ok, got, after}
use wirechat_server.Store.Types.{Friend, FriendStatus, blocked}
use wirechat_server.Store.World.{World, IsQuiet, clock}
use wirechat_server.Store.Users.{get_user_by_id}
use wirechat_server.Store.Friends.{
  new_friend, is_between, is_record, create_friend_request, update_friend_status, get_friendship,
  delete_friendship,
}
use wirechat_server.Store.Friends.Rows.{
  Separate, Separate-append, Separate-update, Separate-select, find-select_found,
}
use wirechat_server.Friends.{
  send_request, accept_request, reject_request, block_user, unblock_user, create_block,
  block_existing,
}

abbrev pub HasPairs : World → Type 0
HasPairs w = Separate w.db.friends

update_friend_status-HasPairs :
    (u v : ℕ) (status : FriendStatus) (w : World)
    → HasPairs w
    → HasPairs (after (update_friend_status u v status w))
unfolding update_friend_status
update_friend_status-HasPairs u v status w h =
    ground (arith, Separate-update (is_record u v) status (clock w) w.db.friends h)

delete_friendship-HasPairs :
    (u v : ℕ) (w : World) → HasPairs w → HasPairs (after (delete_friendship u v w))
unfolding delete_friendship
delete_friendship-HasPairs u v w h =
    ground (arith, Separate-select (λ f. not (is_record u v f)) w.db.friends h)

pub send_request-HasPairs :
    (from to : ℕ) (w : World) → IsQuiet w → HasPairs w → HasPairs (after (send_request from to w))
unfolding send_request get_user_by_id create_friend_request get_friendship
send_request-HasPairs from to w q h = ground (
  arith,
  q w.ticks,
  q (w.ticks + 1),
  q (w.ticks + 1 + 1),
  q (w.ticks + 1 + 1 + 1),
  Separate-append (new_friend w.db (w.env.now (w.ticks + 1 + 1)) from to) w.db.friends,
)

pub accept_request-HasPairs :
    (user from : ℕ) (w : World) → HasPairs w → HasPairs (after (accept_request user from w))
unfolding accept_request get_friendship
accept_request-HasPairs user from w h = grind (arith, update_friend_status-HasPairs)

pub reject_request-HasPairs :
    (user from : ℕ) (w : World) → HasPairs w → HasPairs (after (reject_request user from w))
unfolding reject_request get_friendship
reject_request-HasPairs user from w h = grind (arith, delete_friendship-HasPairs)

pub unblock_user-HasPairs :
    (user target : ℕ) (w : World) → HasPairs w → HasPairs (after (unblock_user user target w))
unfolding unblock_user get_friendship
unblock_user-HasPairs user target w h = grind (arith, delete_friendship-HasPairs)

-- A row is created between two users that have none.
create_friend_request-HasPairs :
    (u v : ℕ) (w : World)
    → u ≢ v
    → find (is_between u v) w.db.friends ≡ none
    → HasPairs w
    → HasPairs (after (create_friend_request u v w))
unfolding create_friend_request
create_friend_request-HasPairs u v w d e h =
    ground (arith, Separate-append (new_friend w.db (clock w) u v) w.db.friends)

create_block-HasPairs :
    (u v : ℕ) (w : World)
    → u ≢ v
    → find (is_between u v) w.db.friends ≡ none
    → HasPairs w
    → HasPairs (after (create_block u v w))
unfolding create_block
create_block-HasPairs u v w d e h =
    grind (arith, create_friend_request-HasPairs u v w d e h, update_friend_status-HasPairs)

delete_friendship-quiet :
    (u v : ℕ) (w : World)
    → w.env.faulty w.ticks ≡ false
    → delete_friendship u v w
      ≡ ok tt (record w {
        db = record w.db { friends = select (λ g. not (is_record u v g)) w.db.friends };
        ticks = w.ticks + 1;
      })
unfolding delete_friendship
delete_friendship-quiet u v w q = ground arith

-- The row that `get_friendship` answers is replaced or updated.
block_existing-HasPairs :
    (u v : ℕ) (f : Friend) (w : World)
    → IsQuiet w
    → u ≢ v
    → find (is_between u v) w.db.friends ≡ some f
    → HasPairs w
    → HasPairs (after (block_existing u v (got f) w))
unfolding block_existing
block_existing-HasPairs u v f w q d e h =
    let cleared : World = record w {
      db = record w.db {
        friends = select (λ g. not (is_record f.user_id f.friend_id g)) w.db.friends;
      };
      ticks = w.ticks + 1;
    } in
    elim (Bool-cases (f.user_id == u)) [
      | inl ours ↦ ground (arith, update_friend_status-HasPairs u v blocked w h)
      | inr theirs ↦ ground (
        arith,
        delete_friendship-quiet f.user_id f.friend_id w (q w.ticks),
        create_block-HasPairs u v cleared d (find-select_found u v w.db.friends f h e)
            (Separate-select (λ g. not (is_record f.user_id f.friend_id g)) w.db.friends h),
      )
    ]

pub block_user-HasPairs :
    (user target : ℕ) (w : World)
    → IsQuiet w
    → HasPairs w
    → HasPairs (after (block_user user target w))
unfolding block_user get_user_by_id get_friendship
block_user-HasPairs user target w q h =
    let asked : World = record w { ticks = w.ticks + 1 + 1 } in
    elim (Option-cases (find (is_between user target) w.db.friends)) [
      | inl e ↦ ground (arith, q w.ticks, q (w.ticks + 1), create_block-HasPairs user target asked)
      | inr (f, e) ↦
          ground (arith, q w.ticks, q (w.ticks + 1), block_existing-HasPairs user target f asked)
    ]
