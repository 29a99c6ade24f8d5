-- ===== src/Hub/Logic.antt =====
-- internal/core/hub.go: what can be said of the code of the call commands, which only sends and asks.
use wirechat_server.Common.{ℕ, ◌≡◌, String, Bool, true, false, if◌then◌else◌}
use wirechat_server.Effect.{after}
use wirechat_server.Store.World.{World}
use wirechat_server.Hub.Types.{
  is_complete, Ptr, Event, Command, send_room_message, join_room, leave_room,
}
use wirechat_server.Hub.{Hub, Go, done, ◌>>=◌, send, in_world}
use wirechat_server.Hub.CallCommands.{CallService, notify}

-- The commands on calls.
abbrev pub is_call : Command → Bool
is_call (send_room_message n m) = false
is_call (join_room n) = false
is_call (leave_room n) = false
is_call _ = true

-- A way to say what a piece of code does when it only sends to the client and to users, closed under
-- what the handlers are made of. `Holds h m` says it of the code `m` that starts in the hub `h`, and
-- `Fits w v` what it asks of a call that takes the world from `w` to `v`.
pub record Logic (c : Ptr) : Type 1 where
  pub Holds : Hub → Go Hub → Type 0
  pub Fits : World → World → Type 0
  pub follows : (u v w : World) → Fits u v → Fits v w → Fits u w
  pub stays : (h : Hub) → Holds h (done h)
  pub moves :
      (w : World) (h : Hub) (m : Go Hub) → Fits h.world w → Holds (in_world h w) m → Holds h m
  pub chains :
      (h : Hub) (m : Go Hub) (f : Hub → Go Hub)
      → Holds h m
      → ((k : Hub) → Holds k (f k))
      → Holds h (m >>= f)
  pub chooses :
      (h : Hub) (b : Bool) (m k : Go Hub) → Holds h m → Holds h k → Holds h (if b then m else k)
  pub sends : (e : Event) → is_complete e ≡ true → (h : Hub) → Holds h (send c e h)
  pub notifies : (u : ℕ) (e : Event) → is_complete e ≡ true → (h : Hub) → Holds h (notify u e h)

-- Every method of the service takes the world where the logic asks it to.
pub record Fitting {c : Ptr} (l : Logic c) (svc : CallService) : Type 0 where
  pub direct_fits : (u v : ℕ) (w : World) → l.Fits w (after (svc.create_direct_call u v w))
  pub room_fits : (u r : ℕ) (w : World) → l.Fits w (after (svc.create_room_call u r w))
  pub call_fits : (id : String) (w : World) → l.Fits w (after (svc.get_call id w))
  pub join_fits : (id : String) (u : ℕ) (w : World) → l.Fits w (after (svc.get_join_info id u w))
  pub end_fits : (id : String) (u : ℕ) (w : World) → l.Fits w (after (svc.end_call id u w))
  pub reject_fits :
      (id : String) (u : ℕ) (reason : String) (w : World)
      → l.Fits w (after (svc.reject_call id u reason w))
  pub leave_fits : (id : String) (u : ℕ) (w : World) → l.Fits w (after (svc.leave_call id u w))
  pub target_fits : (u : ℕ) (w : World) → l.Fits w (after (svc.get_target_user u w))
  pub members_fit : (r : ℕ) (w : World) → l.Fits w (after (svc.list_room_members r w))
  pub info_fits : (r : ℕ) (w : World) → l.Fits w (after (svc.get_room_info r w))

-- Where the logic asks nothing, every service will do.
pub free-Fitting :
    {c : Ptr} (l : Logic c) → ((u v : World) → l.Fits u v) → (s : CallService) → Fitting l s
free-Fitting l free s = record {
  direct_fits = λ u v w. free w _;
  room_fits = λ u r w. free w _;
  call_fits = λ id w. free w _;
  join_fits = λ id u w. free w _;
  end_fits = λ id u w. free w _;
  reject_fits = λ id u reason w. free w _;
  leave_fits = λ id u w. free w _;
  target_fits = λ u w. free w _;
  members_fit = λ r w. free w _;
  info_fits = λ r w. free w _;
}
