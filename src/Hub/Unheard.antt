-- ===== src/Hub/Unheard.antt =====
-- internal/core/hub.go and internal/transport/http/ws_handler.go: ServeHTTP registers a client before
-- hello has given it a user id.
use wirechat_server.Common.{
  ℕ, ◌≡◌, ◌≢◌, refl, ◌∙◌, String, true, false, not, Option, List, [], ◌∷◌, str_eq, arith,
  Option-cases, inl, inr,
}
use wirechat_server.Hub.Types.{
  Ptr, Event, Command, contains, join_room, leave_room, send_room_message,
}
use wirechat_server.Hub.{
  Hub, Go, done, panicked, stuck, ◌>>=◌, send, deliver, broadcast_to_room, find_room, room_add,
  room_remove, ensure_room, drop_empty, enter, leave, leave_rooms, close_client, forget,
  remove_from_hub, register, send_to_user, in_world, send_history,
}
use wirechat_server.Hub as Rooms
use wirechat_server.Hub.CallCommands.{CallService, notify}
use wirechat_server.Hub.Commands.{handle_command-Holds}
use wirechat_server.Hub.Logic.{Logic, free-Fitting, is_call}
use wirechat_server.Hub.Loop.{
  Input, registers, unregisters, commands, changes, handle_command, step, run,
}
use wirechat_server.Hub.Frame.{
  Then, Then-both, Then->>=, Then-mono, Then-if, Same, send-Same, broadcast_to_room-Same,
  send_history-Same,
}
use wirechat_server.Hub.Invariant.{send_room_message-Same}
use wirechat_server.Hub.Returns.{room_add-Elsewhere, room_remove-Elsewhere, drop_empty-Elsewhere}

-- No user has an entry.
abbrev pub IsNameless : Hub → Type 0
IsNameless h = h.user_clients ≡ []

-- Nobody has an entry, and only the client's queue may differ.
abbrev Alone : Ptr → Hub → Hub → Type 0
Alone c h k = IsNameless k × ((d : Ptr) → d ≢ c → k.heap d ≡ h.heap d)

Alone-trans : (c : Ptr) (h k j : Hub) → Alone c h k → Alone c k j → Alone c h j
Alone-trans c h k j p q = (q.0, λ d n. q.1 d n ∙ p.1 d n)

send-Alone : (c : Ptr) (e : Event) (h : Hub) → IsNameless h → Then (Alone c h) (send c e h)
unfolding send deliver
send-Alone c e h s =
    Then->>= (λ x. Unit {0}) (Alone c h) (deliver e (h.heap c)) _ (ground arith)
      (λ x t. (s, λ d n. ground arith))

send_to_user-nobody :
    (u : ℕ) (e : Event) (h : Hub) → IsNameless h → send_to_user u e h ≡ done (h, false)
unfolding send_to_user
send_to_user-nobody u e h s = ground arith

notify-Alone :
    (c : Ptr) (u : ℕ) (e : Event) (h : Hub) → IsNameless h → Then (Alone c h) (notify u e h)
notify-Alone c u e h s = rw (send_to_user-nobody u e h s) (s, λ d n. refl)

abbrev alone : (c : Ptr) → Logic c
alone c = record {
  Holds = λ h m. IsNameless h → Then (Alone c h) m;
  Fits = λ w v. Unit {0};
  follows = λ u v w p q. tt;
  stays = λ h s. (s, λ d n. refl);
  moves = λ w h m f p s. p s;
  chains = λ h m f p q s.
      Then->>= (Alone c h) (Alone c h) m f (p s)
        (λ k t. Then-mono (Alone c k) (Alone c h) (f k) (λ j u. Alone-trans c h k j t u) (q k t.0));
  chooses = λ h b m k p q s. Then-if (Alone c h) b m k (p s) (q s);
  sends = λ e g h. send-Alone c e h;
  notifies = λ u e g h. notify-Alone c u e h;
}

-- What keeps the entries keeps that there are none.
users-IsNameless : (h : Hub) (m : Go Hub) → Then (Same h) m → IsNameless h → Then IsNameless m
users-IsNameless h m t s = Then-mono (Same h) IsNameless m (λ k u. u.users ∙ s) t

join_room-IsNameless :
    (c : Ptr) (n : String) (h : Hub) → IsNameless h → Then IsNameless (Rooms.join_room c n h)
unfolding Rooms.join_room
join_room-IsNameless c n h s =
    let added : Hub = (room_add c n (ensure_room n h)).0 in
    let kept : IsNameless added = (room_add-Elsewhere c n h).2 ∙ s in
    Then-if IsNameless (str_eq n "") _ _ (users-IsNameless h _ (send-Same c _ h) s) (
      Then-if IsNameless (not (room_add c n (ensure_room n h)).1) _ _
        (users-IsNameless added _ (send-Same c _ added) kept)
        (Then->>= IsNameless IsNameless (broadcast_to_room n _ (enter c n added)) (send_history c n)
          (users-IsNameless (enter c n added) _ (broadcast_to_room-Same n _ (enter c n added)) kept)
          (λ k t. users-IsNameless k _ (send_history-Same c n k) t)))

leave_room-IsNameless :
    (c : Ptr) (n : String) (h : Hub) → IsNameless h → Then IsNameless (Rooms.leave_room c n h)
unfolding Rooms.leave_room
leave_room-IsNameless c n h s =
    let gone : Hub = (room_remove c n h).0 in
    let kept : IsNameless gone = (room_remove-Elsewhere c n h).2 ∙ s in
    elim (Option-cases (find_room n h)) [
      | inl e ↦ rw (e, Rooms.leave_room) (users-IsNameless h _ (send-Same c _ h) s)
      | inr (r, e) ↦
          rw (e, Rooms.leave_room)
            (Then-if IsNameless (not (room_remove c n h).1) _ _
              (users-IsNameless gone _ (send-Same c _ gone) kept)
              (Then->>= IsNameless IsNameless (broadcast_to_room n _ (leave c n gone)) _
                (users-IsNameless (leave c n gone) _ (broadcast_to_room-Same n _ (leave c n gone))
                  kept)
                (λ k t. (drop_empty-Elsewhere n k).2 ∙ t)))
    ]

leave_rooms-IsNameless :
    (c : Ptr) (ns : List String) (h : Hub) → IsNameless h → Then IsNameless (leave_rooms c ns h)
unfolding leave_rooms
leave_rooms-IsNameless c [] h s = s
leave_rooms-IsNameless c (n ∷ ns) h s =
    Then->>= IsNameless IsNameless (Rooms.leave_room c n h) (leave_rooms c ns)
      (leave_room-IsNameless c n h s) (λ k t. leave_rooms-IsNameless c ns k t)

remove_from_hub-IsNameless :
    (c : Ptr) (h : Hub) → IsNameless h → Then IsNameless (remove_from_hub c h)
unfolding remove_from_hub close_client forget
remove_from_hub-IsNameless c h s = Then-if IsNameless (not (contains c h.clients)) _ _ s (
    Then->>= IsNameless IsNameless (leave_rooms c (h.heap c).rooms h) (close_client c)
      (leave_rooms-IsNameless c (h.heap c).rooms h s) (λ k t. ground (arith, t)))

-- A client that registers has no user id yet.
abbrev pub IsAnonymous : Input → Hub → Type 0
IsAnonymous (registers c) h = (h.heap c).user_id ≡ 0
IsAnonymous (unregisters c) h = Unit {0}
IsAnonymous (commands c cmd) h = Unit {0}
IsAnonymous (changes c x) h = Unit {0}

module _ (svc : Option CallService) where
  call-Alone :
      (c : Ptr) (cmd : Command) (h : Hub)
      → is_call cmd ≡ true
      → IsNameless h
      → Then (Alone c h) (handle_command svc c cmd h)
  call-Alone c cmd h e s =
      handle_command-Holds c (alone c) svc (λ x q. free-Fitting (alone c) (λ u v. tt) x) cmd h e s

  handle_command-IsNameless :
      (c : Ptr) (cmd : Command) (h : Hub)
      → IsNameless h
      → Then IsNameless (handle_command svc c cmd h)
  unfolding handle_command
  handle_command-IsNameless c (join_room n) h s = join_room-IsNameless c n h s
  handle_command-IsNameless c (leave_room n) h s = leave_room-IsNameless c n h s
  handle_command-IsNameless c (send_room_message n m) h s =
      users-IsNameless h _ (send_room_message-Same c n m h) s
  handle_command-IsNameless c cmd h s =
      Then-mono (Alone c h) IsNameless _ (λ k t. t.0) (call-Alone c cmd h refl s)

  step-IsNameless :
      (i : Input) (h : Hub) → IsNameless h → IsAnonymous i h → Then IsNameless (step svc i h)
  unfolding step register
  step-IsNameless (registers c) h s a = ground arith
  step-IsNameless (unregisters c) h s a = remove_from_hub-IsNameless c h s
  step-IsNameless (commands c cmd) h s a = handle_command-IsNameless c cmd h s
  step-IsNameless (changes c x) h s a = s

  -- Each client that registers has no user id when its turn comes.
  unfoldable pub AllAnonymous : List Input → Hub → Type 0
  AllAnonymous [] h = Unit {0}
  AllAnonymous (i ∷ is) h = IsAnonymous i h × Then (AllAnonymous is) (step svc i h)

  -- If no user has an entry in the hub, and each client that registers has no user id when its turn
  -- comes, then after any sequence of inputs that the loop survives, no command on calls, of
  -- whatever client, reaches anybody else: with any call service, if the command comes to its end,
  -- all other clients are as they were, their channels included.
  pub run-Unheard :
      (is : List Input) (c d : Ptr) (cmd : Command) (h : Hub)
      → IsNameless h
      → AllAnonymous is h
      → is_call cmd ≡ true
      → d ≢ c
      → Then (λ k. Then (λ j. j.heap d ≡ k.heap d) (handle_command svc c cmd k)) (run svc is h)
  unfolding run AllAnonymous
  run-Unheard [] c d cmd h s a e n =
      Then-mono (Alone c h) _ _ (λ k t. t.1 d n) (call-Alone c cmd h e s)
  run-Unheard (i ∷ is) c d cmd h s (a, b) e n =
      Then->>= (λ k. IsNameless k × AllAnonymous is k) _ (step svc i h) (run svc is)
        (Then-both IsNameless (AllAnonymous is) _ (step-IsNameless i h s a) b)
        (λ k (t, u). run-Unheard is c d cmd k t u e n)
