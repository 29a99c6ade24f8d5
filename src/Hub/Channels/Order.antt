-- ===== src/Hub/Channels/Order.antt =====
-- internal/core/hub.go: the commands of one client stay in order.
use mathlib.Core.Option.{some-injective}
use mathlib.Core.List.{append_assoc, append-nil}
use wirechat_server.Common.{
  ◌≡◌, ◌≤◌, refl, subst, sym, ◌+◌, Option, some, List, [], ◌∷◌, ◌++◌, ◌==◌, if◌then◌else◌, arith,
}
use wirechat_server.Hub.Types.{Ptr, Command}
use wirechat_server.Hub.{Hub, Go, done, panicked, stuck}
use wirechat_server.Hub.CallCommands.{CallService}
use wirechat_server.Hub.Channels.{
  System, Act, register_client, unregister_client, registers, unregisters, writes, fetches, submits,
  identifies, hands, takes_registration, takes_unregistration, takes_command, perform, after_loop,
  take_registration, take_unregistration, take_command, try_push,
}
use wirechat_server.Hub.Channels.Line.{
  of, count, line, submitted, registrations, consumers, of-append, count-append, Keeps,
  submit-Keeps, fetch_from-Keeps, hand_over-Keeps,
}

-- What the loop does leaves the line of a client as it is.
after_loop-Keeps :
    (c : Ptr) (a : Act) (s t : System) (m : Go Hub) (f : Hub → System)
    → ((h : Hub) → Keeps c a s (f h))
    → after_loop m f ≡ some t
    → Keeps c a s t
unfolding after_loop
after_loop-Keeps c a s t (done h) f k e = subst (Keeps c a s) (some-injective (f h) t e) (k h)
after_loop-Keeps c a s t panicked f k e = cc
after_loop-Keeps c a s t stuck f k e = cc

try_push-count :
    (c d : Ptr) (ds : List Ptr) → count c (try_push d ds) ≤ count c ds + (if d == c then 1 else 0)
try_push-count c d ds = ground (arith, count-append c ds (d ∷ []))

module _ (svc : Option CallService) (c : Ptr) where
  take_registration-Keeps :
      (ds : List Ptr) (s t : System)
      → s.registering ≡ ds
      → take_registration svc ds s ≡ some t
      → Keeps c takes_registration s t
  unfolding take_registration submitted registrations
  take_registration-Keeps [] s t q e = cc
  take_registration-Keeps (d ∷ ds) s t q e =
      after_loop-Keeps c takes_registration s t _ _
        (λ h. record {
          lined = sym (append-nil (line c s));
          consumed = ground (arith, q);
          quiet = λ x. refl;
        })
        e

  take_unregistration-Keeps :
      (ds : List Ptr) (s t : System)
      → take_unregistration svc ds s ≡ some t
      → Keeps c takes_unregistration s t
  unfolding take_unregistration submitted registrations
  take_unregistration-Keeps [] s t e = cc
  take_unregistration-Keeps (d ∷ ds) s t e =
      after_loop-Keeps c takes_unregistration s t _ _
        (λ h. record {
          lined = sym (append-nil (line c s));
          consumed = omega arith;
          quiet = λ x. refl;
        })
        e

  take_command-Keeps :
      (q : List (Ptr × Command)) (s t : System)
      → s.queued ≡ q
      → take_command svc q s ≡ some t
      → Keeps c takes_command s t
  unfolding take_command submitted registrations
  take_command-Keeps [] s t p e = cc
  take_command-Keeps ((d, cmd) ∷ q) s t p e =
      after_loop-Keeps c takes_command s t _ _
        (λ h. record {
          lined = ground (
            arith,
            p,
            append-nil (line c s),
            of-append c s.handled ((d, cmd) ∷ []),
            append-nil (of c s.handled),
            append_assoc (of c s.handled) (cmd ∷ []) (of c q ++ (s.holding c ++ s.inbox c)),
          );
          consumed = omega arith;
          quiet = λ x. ground (
            arith,
            p,
            of-append c s.handled ((d, cmd) ∷ []),
            append-nil (of c s.handled),
            append_assoc (of c s.handled) (cmd ∷ []) (of c q),
          );
        })
        e

  pub perform-Keeps :
      (a : Act) (s t : System) → consumers c s ≤ 1 → perform svc a s ≡ some t → Keeps c a s t
  unfolding perform register_client unregister_client submitted registrations
  perform-Keeps (registers d) s t one e =
      subst (Keeps c (registers d) s) (some-injective _ t e) (record {
        lined = sym (append-nil (line c s));
        consumed = ground (arith, try_push-count c d s.registering);
        quiet = λ x. refl;
      })
  perform-Keeps (unregisters d) s t one e =
      subst (Keeps c (unregisters d) s) (some-injective _ t e)
        (record { lined = sym (append-nil (line c s)); consumed = omega arith; quiet = λ x. refl })
  perform-Keeps (submits d cmd) s t one e = submit-Keeps c d cmd s t e
  perform-Keeps (writes d) s t one e =
      subst (Keeps c (writes d) s) (some-injective _ t e)
        (record { lined = sym (append-nil (line c s)); consumed = omega arith; quiet = λ x. refl })
  perform-Keeps (identifies d user name guest) s t one e =
      subst (Keeps c (identifies d user name guest) s) (some-injective _ t e)
        (record { lined = sym (append-nil (line c s)); consumed = omega arith; quiet = λ x. refl })
  perform-Keeps (fetches d) s t one e = fetch_from-Keeps c d _ _ s t refl refl e
  perform-Keeps (hands d n) s t one e = hand_over-Keeps c d n s t one e
  perform-Keeps takes_registration s t one e = take_registration-Keeps _ s t refl e
  perform-Keeps takes_unregistration s t one e = take_unregistration-Keeps _ s t e
  perform-Keeps takes_command s t one e = take_command-Keeps _ s t refl e
