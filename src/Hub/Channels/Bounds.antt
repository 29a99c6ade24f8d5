-- ===== src/Hub/Channels/Bounds.antt =====
-- internal/core/hub.go, client.go: no channel holds more than its capacity.
use mathlib.Core.Option.{some-injective}
use wirechat_server.Common.{
  ◌≡◌, ◌≤◌, refl, subst, ℕ, zero, suc, Option, none, some, List, [], ◌∷◌, length, arith,
  Option-cases, inl, inr, length-append,
}
use wirechat_server.Hub.Types.{Ptr, Command}
use wirechat_server.Hub.{Hub, Go, done, panicked, stuck}
use wirechat_server.Hub.CallCommands.{CallService}
use wirechat_server.Hub.Channels.{
  System, Act, registers, unregisters, writes, fetches, submits, identifies, hands,
  takes_registration, takes_unregistration, takes_command, perform, perform_all, register_client,
  unregister_client, after_loop, submit, fetch_from, hand_over, take_registration,
  take_unregistration, take_command, try_push, register_cap, commands_cap, inbox_cap,
}

pub record Fits (c : Ptr) (s : System) : Type 0 where
  pub registering : length s.registering ≤ register_cap
  pub unregistering : length s.unregistering ≤ register_cap
  pub queued : length s.queued ≤ commands_cap
  pub inbox : length (s.inbox c) ≤ inbox_cap

try_push-length :
    (c : Ptr) (cs : List Ptr) → length cs ≤ register_cap → length (try_push c cs) ≤ register_cap
try_push-length c cs h = ground (arith, length-append cs (c ∷ []))

submit-Fits :
    (c d : Ptr) (cmd : Command) (s t : System) → Fits c s → submit d cmd s ≡ some t → Fits c t
unfolding submit
submit-Fits c d cmd s t f e = ground (arith, length-append (s.inbox d) (cmd ∷ []), f)

fetch_from-Fits :
    (c d : Ptr) (n : ℕ) (cmds : List Command) (s t : System)
    → s.inbox d ≡ cmds
    → Fits c s
    → fetch_from d n cmds s ≡ some t
    → Fits c t
unfolding fetch_from
fetch_from-Fits c d zero cmds s t i f e = cc
fetch_from-Fits c d (suc n) [] s t i f e = cc
fetch_from-Fits c d (suc n) (x ∷ xs) s t i f e = ground (arith, f, i)

hand_over-Fits :
    (c d : Ptr) (o : Option (Command × List Command)) (s t : System)
    → Fits c s
    → hand_over d o s ≡ some t
    → Fits c t
unfolding hand_over
hand_over-Fits c d none s t f e = cc
hand_over-Fits c d (some (cmd, cmds)) s t f e =
    ground (arith, f, length-append s.queued ((d, cmd) ∷ []))

after_loop-Fits :
    (c : Ptr) (t : System) (m : Go Hub) (f : Hub → System)
    → ((h : Hub) → Fits c (f h))
    → after_loop m f ≡ some t
    → Fits c t
unfolding after_loop
after_loop-Fits c t (done h) f k e = subst (Fits c) (some-injective (f h) t e) (k h)
after_loop-Fits c t panicked f k e = cc
after_loop-Fits c t stuck f k e = cc

module _ (svc : Option CallService) (c : Ptr) where
  take_registration-Fits :
      (ds : List Ptr) (s t : System)
      → s.registering ≡ ds
      → Fits c s
      → take_registration svc ds s ≡ some t
      → Fits c t
  unfolding take_registration
  take_registration-Fits [] s t q f e = cc
  take_registration-Fits (d ∷ ds) s t q f e = after_loop-Fits c t _ _ (λ h. ground (arith, f, q)) e

  take_unregistration-Fits :
      (ds : List Ptr) (s t : System)
      → s.unregistering ≡ ds
      → Fits c s
      → take_unregistration svc ds s ≡ some t
      → Fits c t
  unfolding take_unregistration
  take_unregistration-Fits [] s t q f e = cc
  take_unregistration-Fits (d ∷ ds) s t q f e =
      after_loop-Fits c t _ _ (λ h. ground (arith, f, q)) e

  take_command-Fits :
      (q : List (Ptr × Command)) (s t : System)
      → s.queued ≡ q
      → Fits c s
      → take_command svc q s ≡ some t
      → Fits c t
  unfolding take_command
  take_command-Fits [] s t p f e = cc
  take_command-Fits ((d, cmd) ∷ q) s t p f e = after_loop-Fits c t _ _ (λ h. ground (arith, f, p)) e

  perform-Fits : (a : Act) (s t : System) → Fits c s → perform svc a s ≡ some t → Fits c t
  unfolding perform register_client unregister_client
  perform-Fits (registers d) s t f e =
      subst (Fits c) (some-injective _ t e) (ground (arith, f, try_push-length d s.registering))
  perform-Fits (unregisters d) s t f e =
      subst (Fits c) (some-injective _ t e) (ground (arith, f, try_push-length d s.unregistering))
  perform-Fits (submits d cmd) s t f e = submit-Fits c d cmd s t f e
  perform-Fits (writes d) s t f e = subst (Fits c) (some-injective _ t e) (ground (arith, f))
  perform-Fits (identifies d user name guest) s t f e =
      subst (Fits c) (some-injective _ t e) (ground (arith, f))
  perform-Fits (fetches d) s t f e = fetch_from-Fits c d _ _ s t refl f e
  perform-Fits (hands d n) s t f e = hand_over-Fits c d _ s t f e
  perform-Fits takes_registration s t f e = take_registration-Fits _ s t refl f e
  perform-Fits takes_unregistration s t f e = take_unregistration-Fits _ s t refl f e
  perform-Fits takes_command s t f e = take_command-Fits _ s t refl f e

  pub perform_all-Fits :
      (acts : List Act) (s t : System) → Fits c s → perform_all svc acts s ≡ some t → Fits c t
  unfolding perform_all
  perform_all-Fits [] s t f e = subst (Fits c) (some-injective s t e) f
  perform_all-Fits (a ∷ acts) s t f e = elim (Option-cases (perform svc a s)) [
    | inl n ↦ ground (arith, n)
    | inr (u, q) ↦ perform_all-Fits acts u t (perform-Fits a s u f q) (ground (arith, q))
  ]
