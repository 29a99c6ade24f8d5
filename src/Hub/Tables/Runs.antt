-- ===== src/Hub/Tables/Runs.antt =====
-- internal/core/hub.go: the loop changes the table of calls only through the call service.
use wirechat_server.Common.{◌≡◌, refl, ap, Option, some, List, [], ◌∷◌}
use wirechat_server.Store.World.{World}
use wirechat_server.Hub.Types.{Ptr, Command, join_room, leave_room, send_room_message}
use wirechat_server.Hub.{Hub, register}
use wirechat_server.Hub.CallCommands.{CallService}
use wirechat_server.Hub.Commands.{handle_command-Holds}
use wirechat_server.Hub.Logic.{Logic, Fitting}
use wirechat_server.Hub.Loop.{
  Input, registers, unregisters, commands, changes, handle_command, step, run,
}
use wirechat_server.Hub.Frame.{Then, Then->>=, Then-mono, Then-if}
use wirechat_server.Hub.Tables.{
  send-world, notify-world, remove_from_hub-world, join_room-calls, leave_room-world,
  send_room_message-calls,
}

-- What the calls of a service may do to the world, one after the other; whatever leaves the table of
-- calls alone is allowed.
pub record Allows (R : World → World → Type 0) : Type 0 where
  pub same : (w v : World) → v.db.calls ≡ w.db.calls → R w v
  pub trans : (u v w : World) → R u v → R v w → R u w

module _ (R : World → World → Type 0) (allows : Allows R) where
  pub unmoved : (k h : Hub) → k.world ≡ h.world → R h.world k.world
  unmoved k h t = allows.same h.world k.world (ap (λ (w : World). w.db.calls) t)

  -- The commands on calls take the world along R, if the service does.
  abbrev pub along : (c : Ptr) → Logic c
  along c = record {
    Holds = λ h m. Then (λ k. R h.world k.world) m;
    Fits = R;
    follows = allows.trans;
    stays = λ h. allows.same h.world h.world refl;
    moves =
        λ w h m f p. Then-mono (λ k. R w k.world) _ m (λ k t. allows.trans h.world w k.world f t) p;
    chains = λ h m f p q.
        Then->>= (λ k. R h.world k.world) (λ k. R h.world k.world) m f p
          (λ k t.
            Then-mono (λ j. R k.world j.world) _ (f k)
              (λ j u. allows.trans h.world k.world j.world t u) (q k));
    chooses = λ h b m k p q. Then-if (λ j. R h.world j.world) b m k p q;
    sends =
        λ e g h. Then-mono (λ k. k.world ≡ h.world) _ _ (λ k t. unmoved k h t) (send-world c e h);
    notifies = λ u e g h.
        Then-mono (λ k. k.world ≡ h.world) _ _ (λ k t. unmoved k h t) (notify-world u e h);
  }

  module _ (svc : Option CallService)
      (fits : (c : Ptr) (s : CallService) → svc ≡ some s → Fitting (along c) s) where
    handle_command-Along :
        (c : Ptr) (cmd : Command) (h : Hub)
        → Then (λ k. R h.world k.world) (handle_command svc c cmd h)
    unfolding handle_command
    handle_command-Along c (join_room n) h =
        Then-mono _ _ _ (λ (k : Hub) t. allows.same h.world k.world t) (join_room-calls c n h)
    handle_command-Along c (leave_room n) h =
        Then-mono _ _ _ (λ (k : Hub) t. unmoved k h t) (leave_room-world c n h)
    handle_command-Along c (send_room_message n m) h =
        Then-mono _ _ _ (λ (k : Hub) t. allows.same h.world k.world t)
          (send_room_message-calls c n m h)
    handle_command-Along c cmd h = handle_command-Holds c (along c) svc (fits c) cmd h refl

    step-Along : (i : Input) (h : Hub) → Then (λ k. R h.world k.world) (step svc i h)
    unfolding step register
    step-Along (registers c) h = allows.same h.world h.world refl
    step-Along (unregisters c) h =
        Then-mono _ _ _ (λ (k : Hub) t. unmoved k h t) (remove_from_hub-world c h)
    step-Along (commands c cmd) h = handle_command-Along c cmd h
    step-Along (changes c x) h = allows.same h.world h.world refl

    pub run-Along : (is : List Input) (h : Hub) → Then (λ k. R h.world k.world) (run svc is h)
    unfolding run
    run-Along [] h = allows.same h.world h.world refl
    run-Along (i ∷ is) h =
        Then->>= (λ k. R h.world k.world) (λ k. R h.world k.world) (step svc i h) (run svc is)
          (step-Along i h)
          (λ k t.
            Then-mono _ _ _ (λ (j : Hub) u. allows.trans h.world k.world j.world t u)
              (run-Along is k))
