-- ===== src/Hub/Shutdown.antt =====
-- internal/core/hub.go: the end of the loop closes every channel once.
use wirechat_server.Common.{
  ◌≡◌, refl, String, Bool, true, false, not, ◌&&◌, Option, List, [], ◌∷◌, arith,
}
use wirechat_server.Hub.Types.{Ptr, Client, contains}
use wirechat_server.Hub.{
  Hub, Go, close_all, shutdown, set_client, remove_from_hub, register, leave_rooms, close_client,
  forget,
}
use wirechat_server.Hub.Rooms.{distinct, distinct-remove}
use wirechat_server.Hub.Frame.{Then, Then-both, Then->>=, Then-mono, Then-if, Same}
use wirechat_server.Hub.CallCommands.{CallService}
use wirechat_server.Hub.Loop.{
  Input, registers, unregisters, commands, changes, handle_command, step, run, run_to_end,
}
use wirechat_server.Hub.Members.{WellFormed}
use wirechat_server.Hub.Membership.{Moves, joins, leaves, join_room-Moves, leave_room-Moves}
use wirechat_server.Hub.Refinement.{without, leave_rooms-Moves, stays_put, handle_command-Same}
use wirechat_server.Hub.Invariant.{step-WellFormed}
use wirechat_server.Hub.Progress.{Does-Then, IsSound, AllHonest, run-IsSound}
use wirechat_server.Hub.Types.{
  Command, send_room_message, join_room, leave_room, call_invite, call_accept, call_reject,
  call_join, call_leave, call_end,
}
use wirechat_server.Hub.Served.{Does, Does->>=, Does-mono}

-- The channels of the clients in a list are closed, those of the others are as before.
abbrev Closed : List Ptr → Hub → Hub → Type 0
Closed cs h k =
    (k.clients ≡ h.clients)
    × ((c : Ptr) → (k.heap c).is_open ≡ ((h.heap c).is_open && not (contains c cs)))

close_all-Closed :
    (cs : List Ptr) (h : Hub)
    → distinct cs ≡ true
    → ((c : Ptr) → contains c cs ≡ true → (h.heap c).is_open ≡ true)
    → Does (Closed cs h) (close_all cs h)
unfolding close_all
close_all-Closed [] h d o = (refl, λ c. ground arith)
close_all-Closed (c ∷ cs) h d o =
    let x : Client = h.heap c in
    let g : Hub = set_client c (record x { is_open = false }) h in
    rw (o c (ground arith), Does)
      (Does-mono (Closed cs g) (Closed (c ∷ cs) h) (close_all cs g)
        (λ k m. (m.0, λ e. ground (arith, m.1 e)))
        (close_all-Closed cs g (ground arith) (λ e i. ground (arith, o e))))

-- No client is in the hub's map twice.
abbrev pub Once : Hub → Type 0
Once h = distinct h.clients ≡ true

same_clients :
    (f : String → Ptr → Bool → Bool) (h : Hub) (m : Go Hub)
    → Once h
    → Then (Moves f h) m
    → Then Once m
same_clients f h m o = Then-mono (Moves f h) Once m (λ k t. rw t.0 o)

register-Once : (c : Ptr) (h : Hub) → Once h → Once (register c h)
unfolding register
register-Once c h o = ground arith

remove_from_hub-Once : (c : Ptr) (h : Hub) → WellFormed h → Once h → Then Once (remove_from_hub c h)
unfolding remove_from_hub close_client forget
remove_from_hub-Once c h w o = Then-if Once (not (contains c h.clients)) _ _ o (
    Then->>= Once Once (leave_rooms c (h.heap c).rooms h) (close_client c)
      (same_clients (without c (h.heap c).rooms) h _ o (leave_rooms-Moves c (h.heap c).rooms h w))
      (λ k p. Then-if Once (k.heap c).is_open _ _ (distinct-remove c k.clients p) tt))

module _ (svc : Option CallService) where
  sends_Once :
      (c : Ptr) (cmd : Command) (h : Hub)
      → stays_put cmd ≡ true
      → Once h
      → Then Once (handle_command svc c cmd h)
  sends_Once c cmd h e o =
      Then-mono (Same h) Once (handle_command svc c cmd h) (λ k s. rw s.clients o)
        (handle_command-Same svc c cmd h e)

  command-Once :
      (c : Ptr) (cmd : Command) (h : Hub)
      → WellFormed h
      → Once h
      → Then Once (handle_command svc c cmd h)
  unfolding handle_command
  command-Once c (join_room n) h w o = same_clients (joins c n) h _ o (join_room-Moves c n h w)
  command-Once c (leave_room n) h w o = same_clients (leaves c n) h _ o (leave_room-Moves c n h w)
  command-Once c (send_room_message n m) h w o = sends_Once c (send_room_message n m) h refl o
  command-Once c (call_invite cmd) h w o = sends_Once c (call_invite cmd) h refl o
  command-Once c (call_accept cmd) h w o = sends_Once c (call_accept cmd) h refl o
  command-Once c (call_reject cmd) h w o = sends_Once c (call_reject cmd) h refl o
  command-Once c (call_join cmd) h w o = sends_Once c (call_join cmd) h refl o
  command-Once c (call_leave cmd) h w o = sends_Once c (call_leave cmd) h refl o
  command-Once c (call_end cmd) h w o = sends_Once c (call_end cmd) h refl o

  step-Once : (i : Input) (h : Hub) → WellFormed h → Once h → Then Once (step svc i h)
  unfolding step
  step-Once (registers c) h w o = register-Once c h o
  step-Once (unregisters c) h w o = remove_from_hub-Once c h w o
  step-Once (commands c cmd) h w o = command-Once c cmd h w o
  step-Once (changes c x) h w o = o

  run-Once : (is : List Input) (h : Hub) → WellFormed h → Once h → Then Once (run svc is h)
  unfolding run
  run-Once [] h w o = o
  run-Once (i ∷ is) h w o =
      Then->>= (λ k. WellFormed k × Once k) Once (step svc i h) (run svc is)
        (Then-both WellFormed Once (step svc i h) (step-WellFormed svc i h w) (step-Once i h w o))
        (λ k (v, p). run-Once is k v p)

  -- From a well-formed and served hub that lists no client twice, every sequence of inputs of which
  -- each is honest at its turn (a client registers with an open channel; a command comes from a
  -- client of the hub, and the client's write loop runs until the command is handled; and a hello
  -- gives no other user id to a client that is a user's entry; otherwise write loops take events
  -- and end, and hellos and unregistrations come, at any time), followed by the end of the context,
  -- runs to the return of the loop, with any call service: no channel is closed twice, and all
  -- clients that the hub still has are left with closed channels.
  pub run_to_end-Closes :
      (is : List Input) (h : Hub)
      → IsSound h
      → Once h
      → AllHonest svc is h
      → Does
          (λ k. (c : Ptr) → contains c k.clients ≡ true → (k.heap c).is_open ≡ false)
          (run_to_end svc is h)
  unfolding run_to_end shutdown
  run_to_end-Closes is h s o a =
      Does->>= (λ k. IsSound k × Once k) _ (run svc is h) shutdown
        (Does-Then IsSound Once _ (run-IsSound svc is h s a) (run-Once is h s.0 o))
        (λ k (t, p).
          Does-mono (Closed k.clients k) _ (close_all k.clients k)
            (λ j m c e. ground (arith, m.1 c, m.0, e))
            (close_all-Closed k.clients k p (λ c e. t.1.opened c e)))
