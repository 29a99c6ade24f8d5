-- ===== src/Hub/Ringing.antt =====
-- internal/core/hub.go: who hears of a direct call.
use wirechat_server.Common.{
  ◌≡◌, ◌≢◌, refl, String, true, false, some, arith, ltb, length, eq_iff, if◌then◌else◌,
}
use wirechat_server.Effect.{err}
use wirechat_server.Store.World.{World}
use wirechat_server.Hub.Types.{
  Ptr, Client, Event, CallCommand, call_invite, events_cap, code_call_error,
}
use wirechat_server.Hub.{Hub, done, send, deliver, set_client, in_world, push, take_oldest}
use wirechat_server.Hub.CallCommands.{CallService, guarded, invite, invited, call_error}
use wirechat_server.Hub.Loop.{handle_command}
use wirechat_server.Hub.Served.{Present, Does, Served}

-- A client after an event was sent to it: if its channel was full, the write loop took the oldest one.
abbrev pub sent : Event → Client → Client
sent e x = if ltb (length x.events) events_cap then push e x else push e (take_oldest x)

pub send-sent :
    (c : Ptr) (e : Event) (h : Hub)
    → (h.heap c).is_open ≡ true
    → (h.heap c).is_reading ≡ true
    → send c e h ≡ done (set_client c (sent e (h.heap c)) h)
unfolding send deliver
send-sent c e h o r = ground arith

-- A client that may use calls.
abbrev pub IsUser : Client → Type 0
IsUser x = (x.is_guest ≡ false) × (x.user_id ≢ 0)

module _ (svc : CallService) (c : Ptr) (cmd : CallCommand) (h : Hub) where
  -- An invitation to a direct call is what the service's answer makes of it.
  pub invite-direct :
      IsUser (h.heap c)
      → cmd.call_type ≡ "direct"
      → handle_command (some svc) c (call_invite cmd) h
        ≡ invited svc c cmd (svc.create_direct_call (h.heap c).user_id cmd.to_user_id h.world) h
  unfolding handle_command guarded invite
  invite-direct u t = ground (arith, eq_iff cmd.call_type "direct")

  -- A refusal reaches the caller only.
  pub invite-Refused :
      (text : String) (w : World)
      → Served h
      → Present c h
      → IsUser (h.heap c)
      → cmd.call_type ≡ "direct"
      → svc.create_direct_call (h.heap c).user_id cmd.to_user_id h.world ≡ err text w
      → Does
          (λ k.
            (k.world ≡ w)
            × (k.heap c ≡ sent (call_error code_call_error text) (h.heap c))
            × ((x : Ptr) → x ≢ c → k.heap x ≡ h.heap x))
          (handle_command (some svc) c (call_invite cmd) h)
  unfolding invited
  invite-Refused text w s e u t r =
      rw
        (
          invite-direct u t,
          r,
          send-sent c (call_error code_call_error text) (in_world h w) (s.opened c e.0) e.1,
        )
        (refl, ground arith, λ x p. ground arith)
