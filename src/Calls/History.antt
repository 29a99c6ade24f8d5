-- ===== src/Calls/History.antt =====
-- internal/service/calls/service.go over any sequence of calls of its methods.
use wirechat_server.Common.{ℕ, ◌≡◌, String, true, Option, none, some, List, [], ◌∷◌, arith}
use wirechat_server.Effect.{after}
use wirechat_server.Engine.{Engine}
use wirechat_server.Store.Types.{Call, CallStatus, ringing, active, ended, failed_call}
use wirechat_server.Store.World.{World}
use wirechat_server.Store.Calls.Rows.{Follows, Follows-refl, may_step}
use wirechat_server.Calls.{
  end_call, reject_call, leave_call, get_join_info, create_direct_call, create_room_call,
}
use wirechat_server.Calls.Lifecycle.{
  Steps, call_row, end_call-Steps, reject_call-Steps, leave_call-Steps, get_join_info-Steps,
  create_direct_call-Steps, create_room_call-Steps,
}

-- The methods that write, with their arguments.
pub data Request : Type 0 where
  directs rooms : ℕ → ℕ → Request
  joins ends leaves : String → ℕ → Request
  rejects : String → ℕ → String → Request

may_step_trans :
    (s t u : CallStatus) → may_step s t ≡ true → may_step t u ≡ true → may_step s u ≡ true
may_step_trans ringing t u h k = ground arith
may_step_trans active t u h k = ground arith
may_step_trans ended t u h k = ground arith
may_step_trans failed_call t u h k = ground arith

pub Follows-trans : (a b c : Option Call) → Follows a b → Follows b c → Follows a c
Follows-trans none b c h k = tt
Follows-trans (some x) (some y) (some z) h k =
    ground (arith, may_step_trans x.status y.status z.status)
Follows-trans (some x) (some y) none h k = k
Follows-trans (some x) none c h k = absurd h

module _ (engine : Option Engine) where
  unfoldable pub serve : Request → World → World
  serve (directs u v) w = after (create_direct_call engine u v w)
  serve (rooms u r) w = after (create_room_call engine u r w)
  serve (joins id u) w = after (get_join_info engine id u w)
  serve (ends id u) w = after (end_call id u w)
  serve (leaves id u) w = after (leave_call id u w)
  serve (rejects id u reason) w = after (reject_call id u reason w)

  unfoldable pub run : List Request → World → World
  run [] w = w
  run (r ∷ rs) w = run rs (serve r w)

  pub serve-Steps : (id : String) (r : Request) (w : World) → Steps id w (serve r w)
  unfolding serve
  serve-Steps id (directs u v) w = create_direct_call-Steps engine id u v w
  serve-Steps id (rooms u r) w = create_room_call-Steps engine id u r w
  serve-Steps id (joins k u) w = get_join_info-Steps engine id k u w
  serve-Steps id (ends k u) w = end_call-Steps id k u w
  serve-Steps id (leaves k u) w = leave_call-Steps id k u w
  serve-Steps id (rejects k u reason) w = reject_call-Steps id k u reason w

  -- Whatever the six writing methods are called with and wherever the driver fails, a call is never
  -- deleted, its type, initiator and room never change, and its status moves only forward: from
  -- ringing to active to ended, from ringing or failed to ended, and never out of ended.
  pub run-Steps : (id : String) (rs : List Request) (w : World) → Steps id w (run rs w)
  unfolding run
  run-Steps id [] w = Follows-refl (call_row id w)
  run-Steps id (r ∷ rs) w =
      Follows-trans (call_row id w) (call_row id (serve r w)) _ (serve-Steps id r w)
        (run-Steps id rs (serve r w))
