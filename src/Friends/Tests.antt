-- ===== src/Friends/Tests.antt =====
-- Runs of internal/service/friends/service.go on small databases.
use wirechat_server.Common.{◌≡◌, refl, ◌+◌, true, ◌==◌, [], ◌∷◌, arith}
use wirechat_server.Effect.{err, ok, succeeds, after}
use wirechat_server.Store.Types.{pending, blocked}
use wirechat_server.Store.World.{World}
use wirechat_server.Store.Samples.{sample, never, friend_row}
use wirechat_server.Friends.{
  send_request, accept_request, block_user, unblock_user, is_friend, blocked_by_user,
}
use wirechat_server.Friends.Pairs.{HasPairs}
use wirechat_server.Friends.Blocks.{Blocks, block_user-Blocks, block_bypass}
use wirechat_server.Friends.Requests.{accept_request-send_request}
use wirechat_server.Friends.History.{
  sends, blocks, unblocks, accepts, run, run-HasPairs, send_request_doubles,
}

abbrev strangers : World
strangers = sample never [] [] []

abbrev asked : World
asked = sample never (friend_row 8 1 2 pending ∷ []) [] []

abbrev barred : World
barred = sample never (friend_row 8 1 2 blocked ∷ []) [] []

-- The second statement of a call fails.
abbrev shaky : World
shaky = sample (λ n. n == 1) (friend_row 8 1 2 pending ∷ []) [] []

run-HasPairs_example :
    HasPairs (run (sends 1 2 ∷ sends 2 1 ∷ accepts 2 1 ∷ blocks 2 1 ∷ unblocks 2 1 ∷ []) strangers)
run-HasPairs_example =
    run-HasPairs (sends 1 2 ∷ sends 2 1 ∷ accepts 2 1 ∷ blocks 2 1 ∷ unblocks 2 1 ∷ []) strangers
      (λ n. refl) tt

block_user-Blocks_example :
    (succeeds (block_user 2 1 asked) ≡ true) × Blocks 2 1 (after (block_user 2 1 asked))
block_user-Blocks_example =
    block_user-Blocks 2 1 asked (λ n. refl) (ground arith, refl, tt) (ground arith) (_, refl)

accept_request-send_request_example :
    let sent = send_request 1 2 strangers in
    let done = accept_request 2 1 (after sent) in
    (succeeds sent ≡ true)
    × (succeeds done ≡ true)
    × (is_friend 1 2 (after done)
        ≡ ok true (record (after done) { ticks = (after done).ticks + 1 }))
    × (is_friend 2 1 (after done)
        ≡ ok true (record (after done) { ticks = (after done).ticks + 1 }))
accept_request-send_request_example =
    accept_request-send_request 1 2 strangers (λ n. refl) (ground arith) (_, refl) refl

block_bypass_example :
    (send_request 2 1 barred ≡ err blocked_by_user (record barred { ticks = 0 + 1 + 1 }))
    × (succeeds (send_request 2 1 (after (unblock_user 2 1 (after (block_user 2 1 barred)))))
        ≡ true)
block_bypass_example =
    block_bypass 1 2 barred (λ n. refl) (ground arith, refl, tt) (ground arith) (_, refl) refl

send_request_doubles_example : ¬ HasPairs (after (send_request 2 1 shaky))
send_request_doubles_example =
    send_request_doubles 2 1 shaky (ground arith) refl refl refl (_, refl) refl refl
