-- ===== src/App/Fresh.antt =====
-- internal/app/app.go: the server from its start.
use wirechat_server.Common.{◌≡◌, String, Bool, some, List, [], arith}
use wirechat_server.Engine.{Engine}
use wirechat_server.Config.{Config}
use wirechat_server.Calls.{Error}
use wirechat_server.Calls.Running.{IsOrderly}
use wirechat_server.Store.World.{World}
use wirechat_server.Hub.Types.{Ptr, Client}
use wirechat_server.Hub.{Hub}
use wirechat_server.Hub.Progress.{IsSound, AllHonest, Does-Then}
use wirechat_server.Hub.Complete.{IsComplete}
use wirechat_server.App.{call_service}
use wirechat_server.App.Calls.{run-Tidy}
use wirechat_server.Calls.Lifecycle.{Steps}
use wirechat_server.Hub.Served.{Does, Does-mono}
use wirechat_server.Hub.Loop.{Input, run}
use wirechat_server.Hub.Complete.Runs.{run-IsComplete}
use wirechat_server.Http.Connection.Frames.{Written, complete-Written}
use wirechat_server.App.Start.{new_hub, App, new_app, started}

-- The client has just been made: it is in no room, and no event is in its channel.
abbrev pub IsFresh : Client → Type 0
IsFresh x = (x.rooms ≡ []) × (x.events ≡ []) × (x.written ≡ [])

pub new_hub-IsSound :
    (heap : Ptr → Client) (w : World) → ((c : Ptr) → IsFresh (heap c)) → IsSound (new_hub heap w)
unfolding new_hub
new_hub-IsSound heap w f = (
  record { linked = λ c n. ground (arith, f c); inhabited = λ n r e. cc; once = λ n r e. cc },
  record {
    opened = λ c e. cc;
    keyed = λ c. ground (arith, f c);
    inside = λ c n e. ground (arith, f c);
    users = λ u c e. cc;
  },
)

pub new_hub-IsComplete :
    (heap : Ptr → Client) (w : World) → ((c : Ptr) → IsFresh (heap c)) → IsComplete (new_hub heap w)
unfolding new_hub
new_hub-IsComplete heap w f c = rw ((f c).1, (f c).2) (tt, tt)

module _ (new_engine : String → String → String → Engine) (wrapped : Error → String) where
  new_app-service :
      (opens : Bool) (cfg : Config) (a : App)
      → new_app new_engine wrapped opens cfg ≡ started a
      → a.service ≡ call_service wrapped a.engine
  unfolding new_app
  new_app-service opens cfg a e = ground arith

  -- A server that has started, from its first moment: if New succeeds, the hub is the new one,
  -- every client is fresh (in no room, with an empty channel) until it registers, call ids are
  -- distinct in the store and no room has two running calls, then every sequence of inputs of which
  -- each is honest at its turn (a client registers with an open channel; a command comes from a
  -- client of the hub, and the client's write loop runs until the command is handled; and a hello
  -- gives no other user id to a client that is a user's entry; otherwise write loops take events
  -- and end, and hellos and unregistrations come, at any time) is processed to its end, wherever
  -- the driver fails. Then the hub is well-formed and served, call ids are distinct and no room has
  -- two running calls, and of every event in the channel of a client, or taken from it, the mapper
  -- makes a message.
  pub started-run :
      (opens : Bool) (cfg : Config) (a : App) (heap : Ptr → Client) (w : World) (is : List Input)
      (c : Ptr)
      → new_app new_engine wrapped opens cfg ≡ started a
      → ((d : Ptr) → IsFresh (heap d))
      → IsOrderly w
      → AllHonest (some a.service) is (new_hub heap w)
      → Does
          (λ k.
            IsSound k × IsOrderly k.world × Written (k.heap c).events × Written (k.heap c).written)
          (run (some a.service) is (new_hub heap w))
  started-run opens cfg a heap w is c e f o honest =
      let service = new_app-service opens cfg a e in
      let h : Hub = new_hub heap w in
      let tidy =
        run-Tidy wrapped a.engine "" is h (new_hub-IsSound heap w f) (rw service at honest)
          (unfold new_hub in o) in
      Does-mono (λ k. (IsSound k × IsOrderly k.world × Steps "" h.world k.world) × IsComplete k) _ _
        (λ k t. (t.0.0, t.0.1, complete-Written _ (t.1 c).0, complete-Written _ (t.1 c).1))
        (Does-Then (λ k. IsSound k × IsOrderly k.world × Steps "" h.world k.world) IsComplete _
          (rw service tidy) (run-IsComplete (some a.service) is h (new_hub-IsComplete heap w f)))
