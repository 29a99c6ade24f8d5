-- ===== src/Hub/Channels/Rooms.antt =====
-- internal/core/hub.go: the rooms of the hub under every schedule of the goroutines around it.
use wirechat_server.Common.{
  ◌≡◌, refl, subst, ℕ, zero, suc, Option, none, some, List, [], ◌∷◌, arith, Option-cases, inl, inr,
}
use mathlib.Core.Option.{some-injective}
use wirechat_server.Hub.Types.{Ptr, Command}
use wirechat_server.Hub.{Hub, Go, done, panicked, stuck, take_oldest}
use wirechat_server.Hub.CallCommands.{CallService}
use wirechat_server.Hub.Frame.{Then}
use wirechat_server.Hub.Members.{WellFormed}
use wirechat_server.Hub.Invariant.{same_rooms-WellFormed, step-WellFormed}
use wirechat_server.Hub.Loop as Loop
use wirechat_server.Hub.Loop.{step}
use wirechat_server.Hub.Channels.{
  System, Act, register_client, unregister_client, registers, unregisters, writes, fetches, submits,
  identifies, hands, takes_registration, takes_unregistration, takes_command, perform, perform_all,
  after_loop, submit, fetch_from, hand_over, take_registration, take_unregistration, take_command,
}

after_loop-WellFormed :
    (m : Go Hub) (f : Hub → System) (t : System)
    → ((h : Hub) → (f h).hub ≡ h)
    → Then WellFormed m
    → after_loop m f ≡ some t
    → WellFormed t.hub
unfolding after_loop
after_loop-WellFormed (done h) f t k w e = ground (arith, k h)
after_loop-WellFormed panicked f t k w e = cc
after_loop-WellFormed stuck f t k w e = cc

hand_over-hub :
    (c : Ptr) (o : Option (Command × List Command)) (s t : System)
    → hand_over c o s ≡ some t
    → t.hub ≡ s.hub
unfolding hand_over
hand_over-hub c none s t e = cc
hand_over-hub c (some (cmd, cmds)) s t e = ground arith

fetch_from-hub :
    (c : Ptr) (n : ℕ) (cmds : List Command) (s t : System)
    → fetch_from c n cmds s ≡ some t
    → t.hub ≡ s.hub
unfolding fetch_from
fetch_from-hub c zero cmds s t e = cc
fetch_from-hub c (suc n) [] s t e = cc
fetch_from-hub c (suc n) (x ∷ xs) s t e = ground arith

submit-hub : (c : Ptr) (cmd : Command) (s t : System) → submit c cmd s ≡ some t → t.hub ≡ s.hub
unfolding submit
submit-hub c cmd s t e = ground arith

module _ (svc : Option CallService) where
  take_registration-WellFormed :
      (cs : List Ptr) (s t : System)
      → WellFormed s.hub
      → take_registration svc cs s ≡ some t
      → WellFormed t.hub
  unfolding take_registration
  take_registration-WellFormed [] s t w e = cc
  take_registration-WellFormed (c ∷ cs) s t w e =
      after_loop-WellFormed _ _ t (λ h. refl) (step-WellFormed svc (Loop.registers c) s.hub w) e

  take_unregistration-WellFormed :
      (cs : List Ptr) (s t : System)
      → WellFormed s.hub
      → take_unregistration svc cs s ≡ some t
      → WellFormed t.hub
  unfolding take_unregistration
  take_unregistration-WellFormed [] s t w e = cc
  take_unregistration-WellFormed (c ∷ cs) s t w e =
      after_loop-WellFormed _ _ t (λ h. refl) (step-WellFormed svc (Loop.unregisters c) s.hub w) e

  take_command-WellFormed :
      (q : List (Ptr × Command)) (s t : System)
      → WellFormed s.hub
      → take_command svc q s ≡ some t
      → WellFormed t.hub
  unfolding take_command
  take_command-WellFormed [] s t w e = cc
  take_command-WellFormed ((c, cmd) ∷ q) s t w e =
      after_loop-WellFormed _ _ t (λ h. refl) (step-WellFormed svc (Loop.commands c cmd) s.hub w) e

  perform-WellFormed :
      (a : Act) (s t : System) → WellFormed s.hub → perform svc a s ≡ some t → WellFormed t.hub
  unfolding perform register_client unregister_client
  perform-WellFormed (registers c) s t w e =
      subst (λ (x : System). WellFormed x.hub) (some-injective _ t e) w
  perform-WellFormed (unregisters c) s t w e =
      subst (λ (x : System). WellFormed x.hub) (some-injective _ t e) w
  perform-WellFormed (submits c cmd) s t w e = rw (submit-hub c cmd s t e) w
  perform-WellFormed (writes c) s t w e =
      subst (λ (x : System). WellFormed x.hub) (some-injective _ t e)
        (same_rooms-WellFormed c (take_oldest (s.hub.heap c)) s.hub (ground arith) w)
  perform-WellFormed (identifies c user name guest) s t w e =
      subst (λ (x : System). WellFormed x.hub) (some-injective _ t e)
        (same_rooms-WellFormed c _ s.hub refl w)
  perform-WellFormed (fetches c) s t w e = rw (fetch_from-hub c _ _ s t e) w
  perform-WellFormed (hands c n) s t w e = rw (hand_over-hub c _ s t e) w
  perform-WellFormed takes_registration s t w e = take_registration-WellFormed _ s t w e
  perform-WellFormed takes_unregistration s t w e = take_unregistration-WellFormed _ s t w e
  perform-WellFormed takes_command s t w e = take_command-WellFormed _ s t w e

  -- Whatever clients, readers, writers and the goroutines of consumeCommands do in between, and in
  -- whatever order the loop takes from its channels: from a system whose hub is well-formed (its
  -- map of rooms agrees with the clients' own sets, has no empty room, and lists no client twice in
  -- a room), every schedule that the hub's loop survives leads to such a hub, with any call
  -- service.
  pub perform_all-WellFormed :
      (acts : List Act) (s t : System)
      → WellFormed s.hub
      → perform_all svc acts s ≡ some t
      → WellFormed t.hub
  unfolding perform_all
  perform_all-WellFormed [] s t w e =
      subst (λ (x : System). WellFormed x.hub) (some-injective s t e) w
  perform_all-WellFormed (a ∷ acts) s t w e = elim (Option-cases (perform svc a s)) [
    | inl n ↦ ground (arith, n)
    | inr (u, q) ↦
        perform_all-WellFormed acts u t (perform-WellFormed a s u w q) (ground (arith, q))
  ]
