-- ===== src/Hub/Invariant.antt =====
-- internal/core/hub.go: the invariant of the hub under everything that its loop does.
use wirechat_server.Common.{
  ◌≡◌, arith, refl, Bool, inl, inr, ℕ, String, not, ◌&&◌, Option, List, [], ◌∷◌, str_eq, ltb,
  Bool-cases,
}
use wirechat_server.Effect.{Outcome, ok, err}
use wirechat_server.Store.World.{World, DbError}
use wirechat_server.Store.Types as Stored
use wirechat_server.Hub.Types.{
  Event, Ptr, Client, Message, Command, send_room_message, join_room, leave_room,
}
use wirechat_server.Hub.{
  send_to_user, Hub, Go, done, panicked, stuck, ◌>>=◌, joined, register, remove_from_hub, save,
  save_in, id_of_saved, fill_message, broadcast_to_room, send, set_client, take_oldest,
}
use wirechat_server.Hub as Rooms
use wirechat_server.Hub.Frame.{
  Same->>=, from_world, send_to_user-Same, Then, Then->>=, Then-if, Same, Same-refl, Same-trans,
  send-Same, broadcast_to_room-Same, in_world-Same, Then-mono,
}
use wirechat_server.Hub.Members.{WellFormed, kept, join_room-WellFormed}
use wirechat_server.Hub.Leaving.{leave_room-WellFormed, remove_from_hub-WellFormed}
use wirechat_server.Hub.CallCommands.{notify, CallService}
use wirechat_server.Hub.Commands.{handle_command-Holds}
use wirechat_server.Hub.Logic.{Logic, free-Fitting}
use wirechat_server.Hub.Loop.{
  Input, registers, unregisters, commands, Change, writes, stops, identifies, changed, changes,
  handle_command, step, run,
}

id_of_saved-Same :
    (m : Message) (r : Outcome World DbError Stored.Message) (h : Hub)
    → Same h (id_of_saved m r h).1
unfolding id_of_saved
id_of_saved-Same m (ok s w) h = in_world-Same w h
id_of_saved-Same m (err e w) h = in_world-Same w h

save_in-Same :
    (u : ℕ) (m : Message) (r : Outcome World DbError Stored.Room) (h : Hub)
    → Same h (save_in u m r h).1
unfolding save_in
save_in-Same u m (err e w) h = in_world-Same w h
save_in-Same u m (ok room w) h = id_of_saved-Same m _ h

pub save-Same : (x : Client) (m : Message) (h : Hub) → Same h (save x m h).1
unfolding save
save-Same x m h = elim (Bool-cases (not x.is_guest && ltb 0 x.user_id && h.has_store)) [
  | inl stores ↦ rw stores (save_in-Same x.user_id m _ h)
  | inr skips ↦ rw skips (Same-refl h)
]

pub send_room_message-Same :
    (c : Ptr) (n : String) (m : Message) (h : Hub) → Then (Same h) (Rooms.send_room_message c n m h)
unfolding Rooms.send_room_message
send_room_message-Same c n m h = Then-if (Same h) (str_eq n "") _ _ (send-Same c _ h) (
    Then-if (Same h) (not (joined n (h.heap c).rooms)) _ _ (send-Same c _ h) (
      Then-mono (Same (save (h.heap c) (fill_message (h.heap c) n m h.world) h).1) (Same h) _
        (λ k s. Same-trans h _ k (save-Same (h.heap c) (fill_message (h.heap c) n m h.world) h) s)
        (broadcast_to_room-Same n _ (save (h.heap c) (fill_message (h.heap c) n m h.world) h).1)))

pub notify-Same : (u : ℕ) (e : Event) (h : Hub) → Then (Same h) (notify u e h)
notify-Same u e h =
    Then->>= (λ (r : Hub × Bool). Same h r.0) (Same h) (send_to_user u e h) _
      (send_to_user-Same u e h) (λ r s. s)

-- If the code comes out, all but the queues is the same.
abbrev pub partial : (c : Ptr) → Logic c
partial c = record {
  Holds = λ h m. Then (Same h) m;
  Fits = λ w v. Unit {0};
  follows = λ u v w p q. tt;
  stays = Same-refl;
  moves = λ w h m f p. from_world w h m p;
  chains = Same->>=;
  chooses = λ h b m k p q. Then-if (Same h) b m k p q;
  sends = λ e g h. send-Same c e h;
  notifies = λ u e g h. notify-Same u e h;
}

pub register-WellFormed : (c : Ptr) (h : Hub) → WellFormed h → WellFormed (register c h)
unfolding register
register-WellFormed c h w = record { linked = w.linked; inhabited = w.inhabited; once = w.once }

-- What the transport does to a client leaves its rooms alone.
pub same_rooms-WellFormed :
    (c : Ptr) (x : Client) (h : Hub)
    → x.rooms ≡ (h.heap c).rooms
    → WellFormed h
    → WellFormed (set_client c x h)
same_rooms-WellFormed c x h e w = record {
  linked = λ d n. ground (arith, w.linked d n);
  inhabited = w.inhabited;
  once = w.once;
}

pub changed-rooms : (x : Change) (y : Client) → (changed x y).rooms ≡ y.rooms
unfolding changed
changed-rooms writes y = ground arith
changed-rooms stops y = refl
changed-rooms (identifies user name guest) y = refl

module _ (svc : Option CallService) where
  handle_command-WellFormed :
      (c : Ptr) (cmd : Command) (h : Hub)
      → WellFormed h
      → Then WellFormed (handle_command svc c cmd h)
  unfolding handle_command
  handle_command-WellFormed c (join_room n) h w = join_room-WellFormed c n h w
  handle_command-WellFormed c (leave_room n) h w = leave_room-WellFormed c n h w
  handle_command-WellFormed c (send_room_message n m) h w =
      kept h _ w (send_room_message-Same c n m h)
  handle_command-WellFormed c cmd h w = kept h _ w (
      handle_command-Holds c (partial c) svc (λ s e. free-Fitting (partial c) (λ u v. tt) s) cmd h
        refl)

  -- From a hub whose room map and clients' room sets agree and whose map has no empty room, every input
  -- of the loop (a registration, an unregistration, a command, or what a connection changes of its client, the call commands included, with any
  -- call service) that the loop survives leads to such a hub.
  pub step-WellFormed : (i : Input) (h : Hub) → WellFormed h → Then WellFormed (step svc i h)
  unfolding step
  step-WellFormed (registers c) h w = register-WellFormed c h w
  step-WellFormed (unregisters c) h w = remove_from_hub-WellFormed c h w
  step-WellFormed (commands c cmd) h w = handle_command-WellFormed c cmd h w
  step-WellFormed (changes c x) h w =
      same_rooms-WellFormed c (changed x (h.heap c)) h (changed-rooms x (h.heap c)) w

  -- From a hub whose room map and clients' room sets agree (a client is in the map's room of a name
  -- exactly if the name is in the client's own set) and whose map has no empty room and lists no
  -- client twice in a room, any sequence of inputs of the loop that it survives, with any call
  -- service, leads to such a hub.
  pub run-WellFormed : (is : List Input) (h : Hub) → WellFormed h → Then WellFormed (run svc is h)
  unfolding run
  run-WellFormed [] h w = w
  run-WellFormed (i ∷ is) h w =
      Then->>= WellFormed WellFormed (step svc i h) (run svc is) (step-WellFormed i h w)
        (run-WellFormed is)
