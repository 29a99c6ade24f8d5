-- ===== src/App/Privacy.antt =====
-- internal/core/hub.go over internal/service/calls/service.go: a user who takes calls from friends only.
use wirechat_server.Common.{◌≡◌, ◌≢◌, refl, ap, ◌∙◌, String, false, some}
use wirechat_server.Effect.{Outcome, ok, err, succeeds, after, wrap-err}
use wirechat_server.Engine.{Engine}
use wirechat_server.Store.World.{World}
use wirechat_server.Calls.{Error, create_direct_call}
use wirechat_server.Hub.Types.{Ptr, CallCommand, call_invite, code_call_error}
use wirechat_server.Hub.{Hub}
use wirechat_server.Hub.CallCommands.{call_error}
use wirechat_server.Hub.Loop.{handle_command}
use wirechat_server.Hub.Served.{Present, Does, Does-mono, Served}
use wirechat_server.Hub.Ringing.{IsUser, sent, invite-Refused}
use wirechat_server.Calls.Access.{Shuns, create_direct_call-Shuns}
use wirechat_server.App.{call_service, error_text}

refused :
    {A E : Type 0} (o : Outcome World E A) → succeeds o ≡ false → (e : E) × (o ≡ err e (after o))
refused (ok a w) s = cc
refused (err e w) s = (e, refl)

-- With the calls service and an engine behind a served hub: if a client of it with a running write
-- loop, of a user who is no guest, asks for a direct call to a user who takes calls from friends
-- only, and the two are no friends, then the command comes to its end, wherever the driver fails:
-- no table is changed, and no other client hears of it.
pub invite-Shuns :
    (wrapped : Error → String) (engine : Engine) (c : Ptr) (cmd : CallCommand) (h : Hub)
    → Served h
    → Present c h
    → IsUser (h.heap c)
    → cmd.call_type ≡ "direct"
    → Shuns cmd.to_user_id (h.heap c).user_id h.world
    → Does
        (λ k. (k.world.db ≡ h.world.db) × ((x : Ptr) → x ≢ c → k.heap x ≡ h.heap x))
        (handle_command (some (call_service wrapped (some engine))) c (call_invite cmd) h)
unfolding call_service
invite-Shuns wrapped engine c cmd h s e u t n =
    let made = create_direct_call (some engine) (h.heap c).user_id cmd.to_user_id h.world in
    let none_made = create_direct_call-Shuns engine (h.heap c).user_id cmd.to_user_id h.world n in
    let (x, q) = refused made none_made.0 in
    Does-mono
      (λ k.
        (k.world ≡ after made)
        × (k.heap c ≡ sent (call_error code_call_error (error_text wrapped x)) (h.heap c))
        × ((y : Ptr) → y ≢ c → k.heap y ≡ h.heap y))
      _ _ (λ k t. (ap (λ (w : World). w.db) t.0 ∙ none_made.1, t.2))
      (invite-Refused (call_service wrapped (some engine)) c cmd h (error_text wrapped x)
        (after made) s e u t
        (wrap-err (error_text wrapped)
          (create_direct_call (some engine) (h.heap c).user_id cmd.to_user_id) q))
