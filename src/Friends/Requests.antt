-- ===== src/Friends/Requests.antt =====
-- internal/service/friends/service.go: who can accept or reject a request, and what friendship is.
use wirechat_server.Common.{
  ℕ, ◌≡◌, ◌≢◌, ◌↔◌, inl, inr, ◌∙◌, ◌+◌, true, Option, none, some, find, arith, Option-cases,
}
use wirechat_server.Effect.{ok, after, succeeds}
use wirechat_server.Store.Types.{FriendStatus, pending, accepted}
use wirechat_server.Store.World.{World, IsQuiet, clock}
use wirechat_server.Store.Users.{get_user_by_id}
use wirechat_server.Store.Friends.{
  new_friend, is_between, is_record, get_friendship, delete_friendship,
}
use wirechat_server.Store.Friends as Table
use wirechat_server.Store.Friends.Rows.{
  find-append, find-swap, find-between, find-select_found, find-update_status, any-accepted,
}
use wirechat_server.Friends.{send_request, accept_request, reject_request, is_friend}
use wirechat_server.Friends.Quiet.{
  row, Exists, create_friend_request-quiet, update_friend_status-quiet,
}
use wirechat_server.Friends.Frame.{IsQuiet-Keeps, send_request-Keeps, accept_request-Keeps}
use wirechat_server.Friends.Pairs.{HasPairs}

-- What stands between two users.
abbrev pub between : ℕ → ℕ → World → Option (ℕ × ℕ × FriendStatus)
between u v w = row (find (is_between u v) w.db.friends)

-- While the driver does not fail, a request can be accepted exactly if it is pending, by `from`,
-- and to the user who accepts.
pub accept_request_iff :
    (user from : ℕ) (w : World)
    → IsQuiet w
    → (succeeds (accept_request user from w) ≡ true)
      ↔ (between from user w ≡ some (from, user, pending))
unfolding accept_request get_friendship
accept_request_iff user from w q = elim (Option-cases (find (is_between from user) w.db.friends)) [
  | inl e ↦ ground (arith, q w.ticks)
  | inr (f, e) ↦
      let asked : World = record w { ticks = w.ticks + 1 } in
      ground (
        arith,
        q w.ticks,
        find-between from user w.db.friends f e,
        update_friend_status-quiet from user accepted asked f q e,
      )
]

-- While the driver does not fail, and any two users have at most one row, a request can be rejected
-- exactly if it is pending, by `from`, and to the user who rejects; afterwards no row stands
-- between the two.
pub reject_request_iff :
    (user from : ℕ) (w : World)
    → IsQuiet w
    → HasPairs w
    → ((succeeds (reject_request user from w) ≡ true)
        ↔ (between from user w ≡ some (from, user, pending)))
      × (succeeds (reject_request user from w) ≡ true
          → between from user (after (reject_request user from w)) ≡ none)
unfolding reject_request get_friendship delete_friendship
reject_request_iff user from w q h =
    elim (Option-cases (find (is_between from user) w.db.friends)) [
      | inl e ↦ ground (arith, q w.ticks)
      | inr (f, e) ↦ ground (
        arith,
        q w.ticks,
        q (w.ticks + 1),
        find-between from user w.db.friends f e,
        find-select_found from user w.db.friends f h e,
      )
    ]

-- An accepted request makes the row a friendship.
accept_request-between :
    (user from : ℕ) (w : World)
    → IsQuiet w
    → between from user w ≡ some (from, user, pending)
    → (succeeds (accept_request user from w) ≡ true)
      × (between from user (after (accept_request user from w)) ≡ some (from, user, accepted))
unfolding accept_request get_friendship
accept_request-between user from w q b =
    elim (Option-cases (find (is_between from user) w.db.friends)) [
      | inl e ↦ ground arith
      | inr (f, e) ↦
          let asked : World = record w { ticks = w.ticks + 1 } in
          ground (
            arith,
            q w.ticks,
            update_friend_status-quiet from user accepted asked f q e,
            find-update_status from user accepted (clock asked) w.db.friends f e,
          )
    ]

is_friend-between :
    (u v : ℕ) (w : World)
    → IsQuiet w
    → between u v w ≡ some (u, v, accepted)
    → (is_friend u v w ≡ ok true (record w { ticks = w.ticks + 1 }))
      × (is_friend v u w ≡ ok true (record w { ticks = w.ticks + 1 }))
unfolding is_friend Table.is_friend
is_friend-between u v w q b = elim (Option-cases (find (is_between u v) w.db.friends)) [
  | inl e ↦ ground arith
  | inr (f, e) ↦ ground (
    arith,
    q w.ticks,
    any-accepted u v w.db.friends f e,
    any-accepted v u w.db.friends f (find-swap v u w.db.friends ∙ e),
  )
]

send_request-between :
    (u v : ℕ) (w : World)
    → IsQuiet w
    → u ≢ v
    → Exists v w
    → find (is_between u v) w.db.friends ≡ none
    → (succeeds (send_request u v w) ≡ true)
      × (between u v (after (send_request u v w)) ≡ some (u, v, pending))
unfolding send_request get_user_by_id get_friendship
send_request-between u v w q d (r, k) e =
    let asked : World = record w { ticks = w.ticks + 1 + 1 } in
    ground (
      arith,
      q w.ticks,
      q (w.ticks + 1),
      create_friend_request-quiet u v asked q e,
      find-append u v (new_friend w.db (clock asked) u v) w.db.friends e,
    )

-- While the driver does not fail, between two different users without a row, of whom the second
-- exists, a request that is sent and then accepted makes them friends in both directions, and both
-- calls succeed.
pub accept_request-send_request :
    (u v : ℕ) (w : World)
    → IsQuiet w
    → u ≢ v
    → Exists v w
    → find (is_between u v) w.db.friends ≡ none
    → let sent = send_request u v w in
      let done = accept_request v u (after sent) in
      (succeeds sent ≡ true)
      × (succeeds done ≡ true)
      × (is_friend u v (after done)
          ≡ ok true (record (after done) { ticks = (after done).ticks + 1 }))
      × (is_friend v u (after done)
          ≡ ok true (record (after done) { ticks = (after done).ticks + 1 }))
accept_request-send_request u v w q d k e =
    let sent : World = after (send_request u v w) in
    let (s, b) = send_request-between u v w q d k e in
    let quiet = IsQuiet-Keeps w sent (send_request-Keeps u v w) q in
    let (t, c) = accept_request-between v u sent quiet b in
    let done : World = after (accept_request v u sent) in
    let (x, y) =
      is_friend-between u v done (IsQuiet-Keeps sent done (accept_request-Keeps v u sent) quiet)
        c in
    (s, t, x, y)
