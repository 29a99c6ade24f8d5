-- ===== src/App/Tests.antt =====
-- Runs of the hub of internal/core/hub.go with the calls service behind it.
use wirechat_server.Common.{
  inr, ◌≡◌, ◌≢◌, refl, ℕ, String, true, false, some, none, List, [], ◌∷◌, arith,
}
use wirechat_server.Engine.{Engine, livekit}
use wirechat_server.Config.{default_config, jwt_config, seconds}
use wirechat_server.Calls.{Error}
use wirechat_server.Calls.Running.{IsOrderly}
use wirechat_server.Calls.Lifecycle.{Steps}
use wirechat_server.Store.Types.{direct_call, ringing, friends_only}
use wirechat_server.Store.World.{World}
use wirechat_server.Store.Samples.{sample, never, call_row_of, user_row}
use wirechat_server.Store.Rooms.{get_room_by_name}
use wirechat_server.Store.Messages.{list_messages}
use wirechat_server.Hub.Types.{
  Ptr, Client, CallCommand, new_client, add_client, join_room, call_invite, call_end,
}
use wirechat_server.Hub.{
  Go, done, panicked, stuck, Hub, register, ensure_room, room_add, broadcast_to_room, broadcast,
  try_send, try_deliver, send_history, send, deliver,
}
use wirechat_server.Hub as Rooms
use wirechat_server.Hub.Loop.{
  changes, identifies, stops, changed, Input, registers, commands, run, step, handle_command,
}
use wirechat_server.Hub.Served.{Does}
use wirechat_server.Hub.Frame.{Then}
use wirechat_server.Hub.Progress.{IsSound, AllHonest}
use wirechat_server.Hub.Samples.{names}
use wirechat_server.Http.Connection.Frames.{Written}
use wirechat_server.App.{call_service}
use wirechat_server.App.Calls.{run-Tidy}
use wirechat_server.App.Privacy.{invite-Shuns}
use wirechat_server.App.Start.{App, new_hub, new_app}
use wirechat_server.App.Fresh.{started-run}

abbrev wrapped : Error → String
wrapped e = "internal error"

abbrev engine_of : String → String → String → Engine
engine_of key secret url =
    livekit (record { ws_url = url; sign = λ r i n. some "token"; itoa = λ n. "n" })

abbrev heap : Ptr → Client
unfolding new_client
heap c = new_client (names c) (names c) 0 false

abbrev stored : World
stored = sample never [] (call_row_of "c1" direct_call 1 none ringing ∷ []) []

abbrev morning : List Input
morning =
    registers 1
    ∷ changes 1 (identifies 7 "ann" false)
    ∷ commands 1 (join_room "den")
    ∷ registers 2
    ∷ changes 2 stops
    ∷ []

abbrev plain_app : App
plain_app = record {
  jwt = jwt_config default_config;
  engine = none;
  service = call_service wrapped none;
  shutdown_timeout = seconds 5;
}

started-run_example :
    Does
      (λ k. IsSound k × IsOrderly k.world × Written (k.heap 1).events × Written (k.heap 1).written)
      (run (some plain_app.service) morning (new_hub heap stored))
unfolding AllHonest step new_client handle_command register Rooms.join_room ensure_room room_add
    add_client broadcast_to_room broadcast try_send try_deliver send_history new_hub new_app
    default_config get_room_by_name list_messages changed
started-run_example =
    started-run engine_of wrapped true default_config plain_app heap stored morning 1 refl
      (λ d. (refl, refl, refl)) (refl, refl, tt)
      (refl, (inr (λ u e. ground (arith, e)), ((refl, refl), (refl, (tt, tt)))))

-- Two connected users, and a call of the first.
abbrev users_of : Ptr → Client
unfolding new_client
users_of c = new_client (names c) (names c) c false

abbrev talking : World → Hub
talking w = record {
  heap = users_of;
  clients = 1 ∷ 2 ∷ [];
  rooms = [];
  user_clients = (1, 1) ∷ (2, 2) ∷ [];
  has_store = true;
  world = w;
}

talking-IsSound : (w : World) → IsSound (talking w)
unfolding new_client
talking-IsSound w = (
  record { linked = λ c n. refl; inhabited = λ n r e. cc; once = λ n r e. cc },
  record {
    opened = λ c e. refl;
    keyed = λ c. refl;
    inside = λ c n e. cc;
    users = λ u c e. ground arith;
  },
)

abbrev about : String → String → ℕ → CallCommand
about id type to = record {
  call_id = id;
  call_type = type;
  to_user_id = to;
  room_id = 0;
  reason = "";
}

Then-any : {A : Type 0} (m : Go A) → Then (λ a. Unit {0}) m
Then-any (done a) = tt
Then-any panicked = tt
Then-any stuck = tt

run-Tidy_example :
    Does
      (λ k. IsSound k × IsOrderly k.world × Steps "c1" stored k.world)
      (run
        (some (call_service wrapped none))
        (commands 2 (call_end (about "c1" "" 0)) ∷ [])
        (talking stored))
unfolding AllHonest new_client
run-Tidy_example =
    run-Tidy wrapped none "c1" (commands 2 (call_end (about "c1" "" 0)) ∷ []) (talking stored)
      (talking-IsSound stored) ((refl, refl), Then-any _) (refl, refl, tt)

invite-Shuns_example :
    Does
      (λ k. (k.world.db ≡ stored.db) × ((x : Ptr) → x ≢ 1 → k.heap x ≡ users_of x))
      (handle_command
        (some (call_service wrapped (some (engine_of "" "" ""))))
        1
        (call_invite (about "" "direct" 3))
        (talking stored))
unfolding new_client
invite-Shuns_example =
    invite-Shuns wrapped (engine_of "" "" "") 1 (about "" "direct" 3) (talking stored)
      (talking-IsSound stored).1 (refl, refl) (refl, ground arith) refl
      (user_row 3 "cyd" friends_only, refl, refl, refl)
