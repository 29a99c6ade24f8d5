-- ===== src/Hub/Refinement.antt =====
-- internal/core/hub.go: the loop implements an abstract membership.
use wirechat_server.Common.{
  ◌≡◌, refl, ◌∙◌, sym, inl, inr, String, Bool, true, false, not, ◌&&◌, ◌||◌, Option, List, [], ◌∷◌,
  arith, eq_iff, ◌==◌, Bool-cases,
}
use wirechat_server.Hub.Types.{
  Ptr, contains, Command, send_room_message, join_room, leave_room, call_invite, call_accept,
  call_reject, call_join, call_leave, call_end,
}
use wirechat_server.Hub.{
  Hub, Go, done, panicked, stuck, ◌>>=◌, joined, leave_rooms, forget, close_client, remove_from_hub,
  register,
}
use wirechat_server.Hub as Rooms
use wirechat_server.Hub.Rooms.{contains-remove}
use wirechat_server.Hub.Frame.{Then, Then-both, Then->>=, Then-mono, Then-if, Same}
use wirechat_server.Hub.Members.{WellFormed}
use wirechat_server.Hub.Leaving.{leave_room-WellFormed}
use wirechat_server.Hub.CallCommands.{CallService}
use wirechat_server.Hub.Commands.{handle_command-Holds}
use wirechat_server.Hub.Logic.{free-Fitting}
use wirechat_server.Hub.Loop.{
  Input, registers, unregisters, commands, changes, handle_command, step, run,
}
use wirechat_server.Hub.Invariant.{changed-rooms, send_room_message-Same, partial, step-WellFormed}
use wirechat_server.Hub.Served.{Does, Does->>=, Served}
use wirechat_server.Hub.Progress.{Does-Then, IsSound, AllHonest, step-Served}
use wirechat_server.Hub.Membership.{Moves, joins, leaves, join_room-Moves, leave_room-Moves}

-- Who is connected, and who is in which room.
pub record Membership : Type 0 where
  pub connected : Ptr → Bool
  pub inside : String → Ptr → Bool

-- What an input does to the membership: nobody else moves, and nothing that is only sent counts.
unfoldable pub spec_step : Input → Membership → Membership
spec_step (registers c) v = record v { connected = λ d. d == c || v.connected d }
spec_step (unregisters c) v = record {
  connected = λ d. v.connected d && not (d == c);
  inside = λ n d. v.inside n d && not (d == c);
}
spec_step (commands c (join_room n)) v = record v { inside = λ m d. joins c n m d (v.inside m d) }
spec_step (commands c (leave_room n)) v = record v { inside = λ m d. leaves c n m d (v.inside m d) }
spec_step (commands c _) v = v
spec_step (changes c x) v = v

unfoldable pub spec_run : List Input → Membership → Membership
unfolding spec_step
spec_run [] v = v
spec_run (i ∷ is) v = spec_run is (spec_step i v)

-- The hub shows this membership.
abbrev pub Shows : Membership → Hub → Type 0
Shows v h =
    ((c : Ptr) → contains c h.clients ≡ v.connected c)
    × ((n : String) (c : Ptr) → joined n (h.heap c).rooms ≡ v.inside n c)

abbrev pub without : Ptr → List String → String → Ptr → Bool → Bool
without c ns m d b = b && not (d == c && joined m ns)

pub leave_rooms-Moves :
    (c : Ptr) (ns : List String) (h : Hub)
    → WellFormed h
    → Then (Moves (without c ns) h) (leave_rooms c ns h)
unfolding leave_rooms
leave_rooms-Moves c [] h w = (refl, λ m d. ground arith)
leave_rooms-Moves c (n ∷ ns) h w =
    Then->>= (λ k. Moves (leaves c n) h k × WellFormed k) (Moves (without c (n ∷ ns)) h)
      (Rooms.leave_room c n h) (leave_rooms c ns)
      (Then-both (Moves (leaves c n) h) WellFormed (Rooms.leave_room c n h)
        (leave_room-Moves c n h w) (leave_room-WellFormed c n h w))
      (λ k (l, v).
        Then-mono (Moves (without c ns) k) (Moves (without c (n ∷ ns)) h) _
          (λ j m. (m.0 ∙ l.0, λ q d. ground (arith, m.1 q d, l.1 q d, eq_iff q n, eq_iff n q)))
          (leave_rooms-Moves c ns k v))

-- Agreement after a part that only sends.
Same-Shows : (v : Membership) (h k : Hub) → Shows v h → Same h k → Shows v k
Same-Shows v h k a s = (λ c. rw s.clients (a.0 c), λ n c. rw (s.alike c).0 (a.1 n c))

forget-Shows :
    (c : Ptr) (v : Membership) (h k : Hub)
    → Shows v h
    → Moves (without c (h.heap c).rooms) h k
    → Shows (spec_step (unregisters c) v) (forget c k)
unfolding forget spec_step
forget-Shows c v h k a m = (
  λ d. ground (arith, a.0 d, m.0, contains-remove d c h.clients),
  λ n d. ground (arith, a.1 n d, m.1 n d, m.1 n c),
)

unregister-Shows :
    (c : Ptr) (v : Membership) (h : Hub)
    → IsSound h
    → Shows v h
    → Then (Shows (spec_step (unregisters c) v)) (remove_from_hub c h)
unfolding remove_from_hub close_client spec_step
unregister-Shows c v h (w, s) a = elim (Bool-cases (contains c h.clients)) [
  | inl e ↦ rw e (
      Then->>= (Moves (without c (h.heap c).rooms) h) (Shows (spec_step (unregisters c) v))
        (leave_rooms c (h.heap c).rooms h) (close_client c)
        (leave_rooms-Moves c (h.heap c).rooms h w)
        (λ k m.
          Then-if (Shows (spec_step (unregisters c) v)) (k.heap c).is_open _ _
            (forget-Shows c v h k a m) tt))
  | inr e ↦
      rw e (
        λ d. ground (arith, a.0 d, a.0 c),
        λ n d. ground (arith, a.1 n d, a.1 n c, s.inside c n, e),
      )
]

register-Shows :
    (c : Ptr) (v : Membership) (h : Hub)
    → Shows v h
    → Shows (spec_step (registers c) v) (register c h)
unfolding register spec_step
register-Shows c v h a = (λ d. ground (arith, a.0 d, a.0 c), a.1)

moved :
    (v : Membership) (f : String → Ptr → Bool → Bool) (h k : Hub)
    → Shows v h
    → Moves f h k
    → Shows (record v { inside = λ m d. f m d (v.inside m d) }) k
moved v f h k a m = (λ c. rw m.0 (a.0 c), λ n c. rw (sym (a.1 n c)) (m.1 n c))

only_sends :
    (v : Membership) (h : Hub) (m : Go Hub) → Shows v h → Then (Same h) m → Then (Shows v) m
only_sends v h m a = Then-mono (Same h) (Shows v) m (λ k. Same-Shows v h k a)

-- Every command but those that move the client.
abbrev pub stays_put : Command → Bool
stays_put (join_room n) = false
stays_put (leave_room n) = false
stays_put _ = true

module _ (svc : Option CallService) where
  pub handle_command-Same :
      (c : Ptr) (cmd : Command) (h : Hub)
      → stays_put cmd ≡ true
      → Then (Same h) (handle_command svc c cmd h)
  unfolding handle_command
  handle_command-Same c (join_room n) h e = ground arith
  handle_command-Same c (leave_room n) h e = ground arith
  handle_command-Same c (send_room_message n m) h e = send_room_message-Same c n m h
  handle_command-Same c cmd h e =
      handle_command-Holds c (partial c) svc (λ x q. free-Fitting (partial c) (λ u v. tt) x) cmd h
        refl

  step-Shows :
      (i : Input) (v : Membership) (h : Hub)
      → IsSound h
      → Shows v h
      → Then (Shows (spec_step i v)) (step svc i h)
  unfolding step handle_command spec_step
  step-Shows (registers c) v h s a = register-Shows c v h a
  step-Shows (unregisters c) v h s a = unregister-Shows c v h s a
  step-Shows (commands c (join_room n)) v h s a =
      Then-mono (Moves (joins c n) h) _ _ (λ k. moved v (joins c n) h k a)
        (join_room-Moves c n h s.0)
  step-Shows (commands c (leave_room n)) v h s a =
      Then-mono (Moves (leaves c n) h) _ _ (λ k. moved v (leaves c n) h k a)
        (leave_room-Moves c n h s.0)
  step-Shows (commands c (send_room_message n m)) v h s a =
      only_sends v h _ a (handle_command-Same c (send_room_message n m) h refl)
  step-Shows (commands c (call_invite cmd)) v h s a =
      only_sends v h _ a (handle_command-Same c (call_invite cmd) h refl)
  step-Shows (commands c (call_accept cmd)) v h s a =
      only_sends v h _ a (handle_command-Same c (call_accept cmd) h refl)
  step-Shows (commands c (call_reject cmd)) v h s a =
      only_sends v h _ a (handle_command-Same c (call_reject cmd) h refl)
  step-Shows (commands c (call_join cmd)) v h s a =
      only_sends v h _ a (handle_command-Same c (call_join cmd) h refl)
  step-Shows (commands c (call_leave cmd)) v h s a =
      only_sends v h _ a (handle_command-Same c (call_leave cmd) h refl)
  step-Shows (commands c (call_end cmd)) v h s a =
      only_sends v h _ a (handle_command-Same c (call_end cmd) h refl)
  step-Shows (changes c x) v h s a =
      (a.0, λ n d. ground (arith, a.1 n d, changed-rooms x (h.heap c)))

  -- The loop implements an abstract membership that only knows who is connected and who is in which
  -- room: registering connects, unregistering takes the client out of everything, joining a room
  -- with a name puts the client into it, leaving takes it out, and every other command, and
  -- whatever a connection changes of its client, changes nothing. From a well-formed and served hub
  -- that shows a membership, every sequence of inputs of which each is honest at its turn (a client
  -- registers with an open channel; a command comes from a client of the hub, and the client's
  -- write loop runs until the command is handled; and a hello gives no other user id to a client
  -- that is a user's entry; otherwise write loops take events and end, and hellos and
  -- unregistrations come, at any time) is processed to its end, with any call service, and the hub
  -- then shows the membership that the specification gives.
  pub run-Shows :
      (is : List Input) (v : Membership) (h : Hub)
      → IsSound h
      → AllHonest svc is h
      → Shows v h
      → Does (Shows (spec_run is v)) (run svc is h)
  unfolding run AllHonest spec_run
  run-Shows [] v h s t a = a
  run-Shows (i ∷ is) v h s (e, t) a =
      Does->>= (λ k. ((Served k × WellFormed k) × AllHonest svc is k) × Shows (spec_step i v) k)
        (Shows (spec_run is (spec_step i v))) (step svc i h) (run svc is)
        (Does-Then (λ k. (Served k × WellFormed k) × AllHonest svc is k) (Shows (spec_step i v)) _
          (Does-Then (λ k. Served k × WellFormed k) (AllHonest svc is) _
            (Does-Then Served WellFormed _ (step-Served svc i h s e) (step-WellFormed svc i h s.0))
            t)
          (step-Shows i v h s a))
        (λ k (b, d). run-Shows is (spec_step i v) k (b.0.1, b.0.0) b.1 d)
