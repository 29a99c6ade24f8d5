-- ===== src/Hub/Progress.antt =====
-- internal/core/hub.go: the inputs after which the loop goes on.
use wirechat_server.Common.{
  ℕ, ◌≡◌, refl, ◌∙◌, inl, inr, String, true, false, not, ◌&&◌, Option, none, List, [], ◌∷◌, arith,
  eq_iff, eq_refl, ◌⊎◌, ◌≢◌, some, ==_iff, ◌==◌, if◌then◌else◌, Bool-cases,
}
use wirechat_server.Hub.Types.{Ptr, contains, Command, send_room_message, join_room, leave_room}
use wirechat_server.Hub.{
  Hub, Go, done, panicked, stuck, ◌>>=◌, joined, find_user, remove_user, leave_rooms, forget,
  close_client, remove_from_hub, register, set_client, take_oldest,
}
use wirechat_server.Hub as Rooms
use wirechat_server.Hub.Rooms.{contains-remove, member_of}
use wirechat_server.Hub.Frame.{Then, Same}
use wirechat_server.Hub.Members.{WellFormed}
use wirechat_server.Hub.Leaving.{leave_room-WellFormed, forget-WellFormed}
use wirechat_server.Hub.CallCommands.{CallService}
use wirechat_server.Hub.Commands.{handle_command-Holds}
use wirechat_server.Hub.Logic.{free-Fitting}
use wirechat_server.Hub.Loop.{
  Input, registers, unregisters, commands, Change, writes, stops, identifies, changed, changes,
  handle_command, step, run,
}
use wirechat_server.Hub.Invariant.{step-WellFormed}
use wirechat_server.Hub.Served.{
  Does, Does->>=, Does-mono, Does-if, Served, Serves, Present, is_keyed, Same-Served, total,
}
use wirechat_server.Hub.Returns.{
  leave_member-Left, Left, leave_room-Left, join_room-Does, send_room_message-Does,
}

-- What holds if the code comes out, of code that comes out.
pub Does-Then :
    {A : Type 0} (P Q : A → Type 0) (m : Go A) → Does P m → Then Q m → Does (λ a. P a × Q a) m
Does-Then P Q (done a) p q = (p, q)
Does-Then P Q panicked p q = p
Does-Then P Q stuck p q = p

pub find_user-remove :
    (u v : ℕ) (m : List (ℕ × Ptr))
    → find_user u (remove_user v m) ≡ (if u == v then none else find_user u m)
find_user-remove u v [] = ground arith
find_user-remove u v ((k, c) ∷ m) = ground (arith, find_user-remove u v m)

register-Served : (c : Ptr) (h : Hub) → (h.heap c).is_open ≡ true → Served h → Served (register c h)
unfolding register
register-Served c h o w = record {
  opened = λ d e. ground (arith, w.opened d, o);
  keyed = λ d. ground (arith, w.keyed d);
  inside = λ d n e. ground (arith, w.inside d n e);
  users =
      λ u d e. ground (arith, w.users u d, find_user-remove u (h.heap c).user_id h.user_clients);
}

-- A client that is in no room, forgotten.
forget-Served :
    (c : Ptr) (h : Hub)
    → Served h
    → ((n : String) → joined n (h.heap c).rooms ≡ false)
    → Served (forget c h)
unfolding forget
forget-Served c h w out = record {
  opened = λ d e. ground (arith, w.opened d, contains-remove d c h.clients);
  keyed = λ d. ground (arith, w.keyed d);
  inside = λ d n e. ground (arith, w.inside d n, out n, contains-remove d c h.clients);
  users = λ u d e. ground (
    arith,
    w.users u d,
    find_user-remove u (h.heap c).user_id h.user_clients,
    contains-remove d c h.clients,
  );
}

-- After a client has left the rooms of a list.
record Cleared (c : Ptr) (ns : List String) (h k : Hub) : Type 0 where
  formed : WellFormed k
  served : Served k
  clients : k.clients ≡ h.clients
  rooms :
      (m : String) → joined m (k.heap c).rooms ≡ (joined m (h.heap c).rooms && not (joined m ns))

leave_rooms-Cleared :
    (c : Ptr) (ns : List String) (h : Hub)
    → WellFormed h
    → Served h
    → is_keyed ns ≡ true
    → ((m : String) → joined m ns ≡ true → joined m (h.heap c).rooms ≡ true)
    → Does (Cleared c ns h) (leave_rooms c ns h)
unfolding leave_rooms
leave_rooms-Cleared c [] h w s u a = record {
  formed = w;
  served = s;
  clients = refl;
  rooms = λ m. ground arith;
}
leave_rooms-Cleared c (n ∷ ns) h w s u a =
    Does->>= (λ k. Left c n h k × WellFormed k) (Cleared c (n ∷ ns) h) (Rooms.leave_room c n h)
      (leave_rooms c ns)
      (Does-Then (Left c n h) WellFormed _
        (leave_member-Left c n h w s (a n (ground (arith, eq_refl n))))
        (leave_room-WellFormed c n h w))
      (λ k (l, v).
        Does-mono (Cleared c ns k) (Cleared c (n ∷ ns) h) _
          (λ j d. record {
            formed = d.formed;
            served = d.served;
            clients = d.clients ∙ l.clients;
            rooms = λ m. ground (arith, d.rooms m, l.rooms m, eq_iff m n, eq_iff n m);
          })
          (leave_rooms-Cleared c ns k v l.served (ground arith)
            (λ m j. ground (arith, l.rooms m, a m, eq_iff m n))))

-- The hub after the client is out of its maps.
forget-out :
    (c : Ptr) (n : String) (h : Hub)
    → WellFormed h
    → joined n (h.heap c).rooms ≡ false
    → member_of n c (forget c h).rooms ≡ false
unfolding forget
forget-out c n h w e = ground (arith, w.linked c n, e)

forget-contains : (c : Ptr) (h : Hub) → contains c (forget c h).clients ≡ false
unfolding forget
forget-contains c h = ground (arith, contains-remove c c h.clients)

forget-closed : (c : Ptr) (h : Hub) → ((forget c h).heap c).is_open ≡ false
unfolding forget
forget-closed c h = ground arith

unmoved : (h : Hub) (m : Go Hub) → Served h → Does (Same h) m → Does Served m
unmoved h m s = Does-mono (Same h) Served m (λ k t. Same-Served h k t s)

-- The client is in no room of the map, no client of the hub, and its channel is closed.
pub record Gone (c : Ptr) (k : Hub) : Type 0 where
  pub formed : WellFormed k
  pub served : Served k
  pub outside : (n : String) → member_of n c k.rooms ≡ false
  pub unknown : contains c k.clients ≡ false
  pub closed : (k.heap c).is_open ≡ false

close_client-Gone :
    (c : Ptr) (ns : List String) (h k : Hub)
    → contains c h.clients ≡ true
    → ns ≡ (h.heap c).rooms
    → Cleared c ns h k
    → Does (Gone c) (close_client c k)
unfolding close_client
close_client-Gone c ns h k e o d =
    let out : (n : String) → joined n (k.heap c).rooms ≡ false =
      λ n. ground (arith, d.rooms n, o) in
    Does-if (Gone c) (k.heap c).is_open _ _
      (λ x. record {
        formed = forget-WellFormed c k d.formed;
        served = forget-Served c k d.served out;
        outside = λ n. forget-out c n k d.formed (out n);
        unknown = forget-contains c k;
        closed = forget-closed c k;
      })
      (λ x. ground (arith, d.served.opened c (rw d.clients e), x))

-- In a well-formed and served hub, unregistering a client of the hub comes to its end, whether or
-- not its write loop still runs, and leaves a well-formed and served hub in which the client is in
-- no room, is no client of the hub, and has a closed channel.
pub remove_from_hub-Gone :
    (c : Ptr) (h : Hub)
    → WellFormed h
    → Served h
    → contains c h.clients ≡ true
    → Does (Gone c) (remove_from_hub c h)
unfolding remove_from_hub
remove_from_hub-Gone c h w s e = rw e (
    Does->>= (Cleared c (h.heap c).rooms h) (Gone c) (leave_rooms c (h.heap c).rooms h)
      (close_client c) (leave_rooms-Cleared c (h.heap c).rooms h w s (s.keyed c) (λ m j. j))
      (λ k d. close_client-Gone c (h.heap c).rooms h k e refl d))

unknown-Served :
    (c : Ptr) (h : Hub)
    → Served h
    → contains c h.clients ≡ false
    → Does Served (remove_from_hub c h)
unfolding remove_from_hub
unknown-Served c h s e = rw e s

unregister-Served :
    (c : Ptr) (h : Hub) → WellFormed h → Served h → Does Served (remove_from_hub c h)
unregister-Served c h w s = elim (Bool-cases (contains c h.clients)) [
  | inl e ↦ Does-mono (Gone c) Served _ (λ k g. g.served) (remove_from_hub-Gone c h w s e)
  | inr e ↦ unknown-Served c h s e
]

-- The change gives no other user id to a client that has a user's entry.
abbrev pub IsLoyal : Ptr → Change → Hub → Type 0
IsLoyal c writes h = Unit {0}
IsLoyal c stops h = Unit {0}
IsLoyal c (identifies user name guest) h =
    (user ≡ (h.heap c).user_id) ⊎ ((u : ℕ) → find_user u h.user_clients ≢ some c)

changed-Served :
    (c : Ptr) (x : Change) (h : Hub)
    → IsLoyal c x h
    → Served h
    → Served (set_client c (changed x (h.heap c)) h)
unfolding changed
changed-Served c writes h l w = record {
  opened = λ d e. ground (arith, w.opened d);
  keyed = λ d. ground (arith, w.keyed d);
  inside = λ d n e. ground (arith, w.inside d n);
  users = λ u d e. ground (arith, w.users u d);
}
changed-Served c stops h l w = record {
  opened = λ d e. ground (arith, w.opened d);
  keyed = λ d. ground (arith, w.keyed d);
  inside = λ d n e. ground (arith, w.inside d n);
  users = λ u d e. ground (arith, w.users u d);
}
changed-Served c (identifies user name guest) h l w = record {
  opened = λ d e. ground (arith, w.opened d);
  keyed = λ d. ground (arith, w.keyed d);
  inside = λ d n e. ground (arith, w.inside d n);
  users = λ u d e. elim l [
    | inl same ↦ ground (arith, w.users u d, same, ==_iff d c)
    | inr unknown ↦ ground (arith, w.users u d, unknown u, ==_iff d c)
  ];
}

-- The input is one after which the hub goes on: a client registers with an open channel, a command
-- comes from a client of the hub of which the write loop runs while the command is handled, and a
-- client that has a user's entry does not become another user.
abbrev pub IsHonest : Input → Hub → Type 0
IsHonest (registers c) h = (h.heap c).is_open ≡ true
IsHonest (unregisters c) h = Unit {0}
IsHonest (commands c cmd) h = Present c h
IsHonest (changes c x) h = IsLoyal c x h

-- The hub is well-formed, and its clients are served.
abbrev pub IsSound : Hub → Type 0
IsSound h = WellFormed h × Served h

module _ (svc : Option CallService) where
  handle_command-Served :
      (c : Ptr) (cmd : Command) (h : Hub)
      → WellFormed h
      → Serves c h
      → Does Served (handle_command svc c cmd h)
  unfolding handle_command
  handle_command-Served c (join_room n) h w s = join_room-Does c n h w s
  handle_command-Served c (leave_room n) h w s =
      Does-mono (Left c n h) Served _ (λ k l. l.served) (leave_room-Left c n h w s)
  handle_command-Served c (send_room_message n m) h w s =
      unmoved h _ s.0 (send_room_message-Does c n m h w.linked s)
  handle_command-Served c cmd h w s = unmoved h _ s.0 (
      handle_command-Holds c (total c) svc (λ x e. free-Fitting (total c) (λ u v. tt) x) cmd h refl
        s)

  pub step-Served : (i : Input) (h : Hub) → IsSound h → IsHonest i h → Does Served (step svc i h)
  unfolding step
  step-Served (registers c) h (w, s) o = register-Served c h o s
  step-Served (unregisters c) h (w, s) t = unregister-Served c h w s
  step-Served (commands c cmd) h (w, s) e = handle_command-Served c cmd h w (s, e)
  step-Served (changes c x) h (w, s) l = changed-Served c x h l s

  -- Each input is honest when its turn comes.
  unfoldable pub AllHonest : List Input → Hub → Type 0
  AllHonest [] h = Unit {0}
  AllHonest (i ∷ is) h = IsHonest i h × Then (AllHonest is) (step svc i h)

  -- Start from a hub that is well-formed (the map of rooms agrees with the clients' own sets, has
  -- no empty room, and lists no client twice in a room) and served (every client of the hub has an
  -- open channel, only clients of the hub are in rooms, no client has a room in its set twice, and
  -- a user's entry is a client of the hub with that user's id, above 0). Then every sequence of
  -- inputs of which each is honest at its turn (a client registers with an open channel; a command
  -- comes from a client of the hub, and the client's write loop runs until the command is handled;
  -- and a hello gives no other user id to a client that is a user's entry; otherwise write loops
  -- take events and end, and hellos and unregistrations come, at any time) is processed to its end,
  -- with any call service: no send panics or waits for ever, and the hub at the end is well-formed
  -- and served.
  pub run-IsSound :
      (is : List Input) (h : Hub) → IsSound h → AllHonest is h → Does IsSound (run svc is h)
  unfolding run AllHonest
  run-IsSound [] h s a = s
  run-IsSound (i ∷ is) h s (e, a) =
      Does->>= (λ k. (Served k × WellFormed k) × AllHonest is k) IsSound (step svc i h) (run svc is)
        (Does-Then (λ k. Served k × WellFormed k) (AllHonest is) _
          (Does-Then Served WellFormed _ (step-Served i h s e) (step-WellFormed svc i h s.0)) a)
        (λ k (b, d). run-IsSound is k (b.1, b.0) d)
