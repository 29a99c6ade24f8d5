-- ===== src/Friends/Blocks.antt =====
-- internal/service/friends/service.go: what a block does to the other user, and how it is lost.
use wirechat_server.Common.{
  ℕ, ◌≡◌, sym, refl, ◌≢◌, ◌+◌, inl, inr, true, not, none, some, find, select, arith, Option-cases,
}
use wirechat_server.Effect.{err, got, after, succeeds}
use wirechat_server.Store.Types.{Friend, blocked}
use wirechat_server.Store.World.{World, IsQuiet, clock}
use wirechat_server.Store.Users.{get_user_by_id}
use wirechat_server.Store.Friends.{
  new_friend, is_between, is_record, update_friend_status, get_friendship, delete_friendship,
}
use wirechat_server.Store.Friends.Rows.{
  find-append, find-swap, find-between, find-select_found, find-update_status,
}
use wirechat_server.Friends.{
  send_request, block_user, unblock_user, create_block, block_existing, blocked_by_user,
}
use wirechat_server.Friends.Quiet.{
  row, Exists, inserted, create_friend_request-quiet, update_friend_status-quiet,
}
use wirechat_server.Friends.Pairs.{HasPairs, block_user-HasPairs}
use wirechat_server.Friends.Frame.{IsQuiet-Keeps, block_user-Keeps, unblock_user-Keeps}

-- The row between two users is a block by the first.
abbrev pub Blocks : ℕ → ℕ → World → Type 0
Blocks u v w = row (find (is_between u v) w.db.friends) ≡ some (u, v, blocked)

-- A user that another one blocks cannot send him a request.
send_request-Blocks :
    (u v : ℕ) (w : World)
    → IsQuiet w
    → u ≢ v
    → Exists u w
    → Blocks u v w
    → send_request v u w ≡ err blocked_by_user (record w { ticks = w.ticks + 1 + 1 })
unfolding send_request get_user_by_id get_friendship
send_request-Blocks u v w q d (r, e) b =
    ground (arith, q w.ticks, q (w.ticks + 1), find-swap u v w.db.friends)

update_friend_status-Blocks :
    (u v : ℕ) (w : World) (f : Friend)
    → IsQuiet w
    → find (is_between u v) w.db.friends ≡ some f
    → f.user_id ≡ u
    → f.friend_id ≡ v
    → (succeeds (update_friend_status u v blocked w) ≡ true)
      × Blocks u v (after (update_friend_status u v blocked w))
update_friend_status-Blocks u v w f q e a b = ground (
  arith,
  update_friend_status-quiet u v blocked w f q e a b,
  find-update_status u v blocked (clock w) w.db.friends f e a b,
)

create_block-Blocks :
    (u v : ℕ) (w : World)
    → IsQuiet w
    → find (is_between u v) w.db.friends ≡ none
    → (succeeds (create_block u v w) ≡ true) × Blocks u v (after (create_block u v w))
unfolding create_block
create_block-Blocks u v w q e =
    let g : Friend = new_friend w.db (clock w) u v in
    let made = create_friend_request-quiet u v w q e in
    let blocks =
      update_friend_status-Blocks u v (inserted u v w) g q
        (ground (arith, find-append u v g w.db.friends e)) refl refl in
    ground (arith, made, blocks)

-- Without a row between them, a user can send a request to one who exists.
send_request-succeeds :
    (u v : ℕ) (w : World)
    → IsQuiet w
    → u ≢ v
    → Exists v w
    → find (is_between u v) w.db.friends ≡ none
    → succeeds (send_request u v w) ≡ true
unfolding send_request get_user_by_id get_friendship
send_request-succeeds u v w q d (r, k) e =
    let asked : World = record w { ticks = w.ticks + 1 + 1 } in
    ground (arith, q w.ticks, q (w.ticks + 1), create_friend_request-quiet u v asked q e)

block_existing-Blocks :
    (u v : ℕ) (f : Friend) (w : World)
    → IsQuiet w
    → HasPairs w
    → find (is_between u v) w.db.friends ≡ some f
    → (succeeds (block_existing u v (got f) w) ≡ true)
      × Blocks u v (after (block_existing u v (got f) w))
unfolding block_existing delete_friendship
block_existing-Blocks u v f w q h e =
    let cleared : World = record w {
      db = record w.db {
        friends = select (λ g. not (is_record f.user_id f.friend_id g)) w.db.friends;
      };
      ticks = w.ticks + 1;
    } in
    ground (
      arith,
      q w.ticks,
      find-between u v w.db.friends f e,
      update_friend_status-Blocks u v w f q e,
      create_block-Blocks u v cleared q (find-select_found u v w.db.friends f h e),
    )

-- While the driver does not fail, and any two users have at most one row, blocking another user who
-- exists succeeds, and leaves a block by the caller as the row of the two, whatever row stood there
-- before: a request, a friendship, or a block by the other user.
pub block_user-Blocks :
    (u v : ℕ) (w : World)
    → IsQuiet w
    → HasPairs w
    → u ≢ v
    → Exists v w
    → (succeeds (block_user u v w) ≡ true) × Blocks u v (after (block_user u v w))
unfolding block_user get_user_by_id get_friendship
block_user-Blocks u v w q h d (r, k) =
    let asked : World = record w { ticks = w.ticks + 1 + 1 } in
    elim (Option-cases (find (is_between u v) w.db.friends)) [
      | inl e ↦ ground (arith, q w.ticks, q (w.ticks + 1), create_block-Blocks u v asked q e)
      | inr (f, e) ↦
          ground (arith, q w.ticks, q (w.ticks + 1), block_existing-Blocks u v f asked q h e)
    ]

unblock_user-Blocks :
    (u v : ℕ) (w : World)
    → IsQuiet w
    → HasPairs w
    → Blocks u v w
    → find (is_between u v) (after (unblock_user u v w)).db.friends ≡ none
unfolding unblock_user get_friendship delete_friendship
unblock_user-Blocks u v w q h b = elim (Option-cases (find (is_between u v) w.db.friends)) [
  | inl e ↦ ground arith
  | inr (f, e) ↦
      ground (arith, q w.ticks, q (w.ticks + 1), find-select_found u v w.db.friends f h e)
]

-- Blocking a user and unblocking him leaves no row, whatever stood there.
unblock_user-block_user :
    (v u : ℕ) (w : World)
    → IsQuiet w
    → HasPairs w
    → v ≢ u
    → Exists u w
    → find (is_between v u) (after (unblock_user v u (after (block_user v u w)))).db.friends ≡ none
unblock_user-block_user v u w q h d k =
    let back : World = after (block_user v u w) in
    let quiet = IsQuiet-Keeps w back (block_user-Keeps v u w) q in
    let pairs = block_user-HasPairs v u w q h in
    unblock_user-Blocks v u back quiet pairs (block_user-Blocks v u w q h d k).1

-- While the driver does not fail, and any two users have at most one row: a user whom another,
-- existing user blocks cannot send a request; after blocking back and unblocking, the request
-- succeeds, although the first user never unblocked.
pub block_bypass :
    (u v : ℕ) (w : World)
    → IsQuiet w
    → HasPairs w
    → v ≢ u
    → Exists u w
    → Blocks u v w
    → (send_request v u w ≡ err blocked_by_user (record w { ticks = w.ticks + 1 + 1 }))
      × (succeeds (send_request v u (after (unblock_user v u (after (block_user v u w))))) ≡ true)
block_bypass u v w q h d (r, k) b =
    let back : World = after (block_user v u w) in
    let keep = block_user-Keeps v u w in
    let free : World = after (unblock_user v u back) in
    let kept = unblock_user-Keeps v u back in
    (
      send_request-Blocks u v w q (λ e. d (sym e)) (r, k) b,
      send_request-succeeds v u free (IsQuiet-Keeps back free kept (IsQuiet-Keeps w back keep q)) d
          (r, rw (kept.1, keep.1) k) (unblock_user-block_user v u w q h d (r, k)),
    )
