-- ===== src/Friends/History.antt =====
-- internal/service/friends/service.go over any sequence of calls, and what a driver error does.
use wirechat_server.Common.{ℕ, ◌≡◌, ◌≢◌, ◌+◌, true, false, List, [], ◌∷◌, any, arith}
use wirechat_server.Effect.{after}
use wirechat_server.Store.World.{World, IsQuiet}
use wirechat_server.Store.Users.{get_user_by_id}
use wirechat_server.Store.Friends.{new_friend, is_record, get_friendship, create_friend_request}
use wirechat_server.Store.Friends.Rows.{append-not-Separate}
use wirechat_server.Friends.{send_request, accept_request, reject_request, block_user, unblock_user}
use wirechat_server.Friends.Frame.{
  IsQuiet-Keeps, send_request-Keeps, accept_request-Keeps, reject_request-Keeps, block_user-Keeps,
  unblock_user-Keeps, Keeps,
}
use wirechat_server.Friends.Pairs.{
  HasPairs, send_request-HasPairs, accept_request-HasPairs, reject_request-HasPairs,
  block_user-HasPairs, unblock_user-HasPairs,
}
use wirechat_server.Friends.Quiet.{Exists}

-- A call of the service that writes.
pub data Request : Type 0 where
  sends accepts rejects blocks unblocks : ℕ → ℕ → Request

pub serve : Request → World → World
serve (sends u v) w = after (send_request u v w)
serve (accepts u v) w = after (accept_request u v w)
serve (rejects u v) w = after (reject_request u v w)
serve (blocks u v) w = after (block_user u v w)
serve (unblocks u v) w = after (unblock_user u v w)

pub run : List Request → World → World
run [] w = w
run (r ∷ rs) w = run rs (serve r w)

serve-Keeps : (r : Request) (w : World) → Keeps w (serve r w)
unfolding serve
serve-Keeps (sends u v) w = send_request-Keeps u v w
serve-Keeps (accepts u v) w = accept_request-Keeps u v w
serve-Keeps (rejects u v) w = reject_request-Keeps u v w
serve-Keeps (blocks u v) w = block_user-Keeps u v w
serve-Keeps (unblocks u v) w = unblock_user-Keeps u v w

serve-HasPairs : (r : Request) (w : World) → IsQuiet w → HasPairs w → HasPairs (serve r w)
unfolding serve
serve-HasPairs (sends u v) w q h = send_request-HasPairs u v w q h
serve-HasPairs (accepts u v) w q h = accept_request-HasPairs u v w h
serve-HasPairs (rejects u v) w q h = reject_request-HasPairs u v w h
serve-HasPairs (blocks u v) w q h = block_user-HasPairs u v w q h
serve-HasPairs (unblocks u v) w q h = unblock_user-HasPairs u v w h

-- While the driver does not fail, every sequence of requests, acceptances, rejections, blocks and
-- unblocks that starts with at most one row for two users, in either direction, and no row of a
-- user with himself, ends so.
pub run-HasPairs : (rs : List Request) (w : World) → IsQuiet w → HasPairs w → HasPairs (run rs w)
unfolding run
run-HasPairs [] w q h = h
run-HasPairs (r ∷ rs) w q h =
    run-HasPairs rs (serve r w) (IsQuiet-Keeps w (serve r w) (serve-Keeps r w) q)
      (serve-HasPairs r w q h)

-- A driver error of the look-up for an existing row is taken for "no row": where the other two
-- statements work, the other user has a row to the caller and the caller none to the other user,
-- the request to the existing user adds a second row between the two.
pub send_request_doubles :
    (u v : ℕ) (w : World)
    → u ≢ v
    → w.env.faulty w.ticks ≡ false
    → w.env.faulty (w.ticks + 1) ≡ true
    → w.env.faulty (w.ticks + 1 + 1) ≡ false
    → Exists v w
    → any (is_record u v) w.db.friends ≡ false
    → any (is_record v u) w.db.friends ≡ true
    → ¬ HasPairs (after (send_request u v w))
unfolding send_request get_user_by_id get_friendship create_friend_request
send_request_doubles u v w d q0 q1 q2 (r, k) a b s =
    ground (
      arith,
      append-not-Separate (new_friend w.db (w.env.now (w.ticks + 1 + 1)) u v) w.db.friends b,
    )
