-- ===== src/Hub/Returns.antt =====
-- internal/core/hub.go: the commands of rooms, of a client with a write loop.
use wirechat_server.Common.{
  ◌≡◌, refl, ◌∙◌, inl, inr, String, false, not, ◌&&◌, Option, none, some, List, [], ◌∷◌, find,
  arith, eq_iff, eq_refl, str_eq, true, select, Option-cases, Bool-cases,
}
use wirechat_server.Effect.{Outcome, ok, err}
use wirechat_server.Store.World.{World, DbError}
use wirechat_server.Store.Types as Stored
use wirechat_server.Store.Rooms.{get_room_by_name}
use wirechat_server.Store.Messages.{list_messages}
use wirechat_server.Hub.Types.{Ptr, Room, Event, Message, add_client, remove_client}
use wirechat_server.Hub.{
  Hub, is_named, joined, find_room, send, enter, leave, room_add, room_remove, ensure_room,
  drop_empty, broadcast_to_room, in_world, send_history, send_messages, send_history_of, to_history,
  join_room, leave_room, send_room_message, save, fill_message,
}
use wirechat_server.Hub.Rooms.{member_of, joined-leave}
use wirechat_server.Hub.Frame.{Same, Same-refl, Same-trans, in_world-Same}
use wirechat_server.Hub.Members.{WellFormed, room_add-heap, entered-WellFormed}
use wirechat_server.Hub.Leaving.{left-Nearly, room_remove-heap, room_remove-removed}
use wirechat_server.Hub.Invariant.{save-Same}
use wirechat_server.Hub.Served.{
  Does, Does->>=, Does-mono, Does-if, Served, Linked, Serves, Present, is_keyed, Same-Served,
  Same-Serves, send-Does, Same->>=Does, broadcast_to_room-Does, total,
}

send_in :
    (c : Ptr) (e : Event) (w : World) (h : Hub)
    → Serves c h
    → Does (Same h) (send c e (in_world h w))
send_in c e w h =
    (total c).moves w h (send c e (in_world h w)) tt (λ t. send-Does c e (in_world h w) t.0 t.1)

send_messages-Does :
    (c : Ptr) (n : String) (r : Outcome World DbError (List Stored.Message)) (h : Hub)
    → Serves c h
    → Does (Same h) (send_messages c n r h)
unfolding send_messages
send_messages-Does c n (err e w) h s = in_world-Same w h
send_messages-Does c n (ok [] w) h s = in_world-Same w h
send_messages-Does c n (ok (m ∷ ms) w) h s = send_in c _ (to_history n (m ∷ ms) w).1 h s

send_history_of-Does :
    (c : Ptr) (n : String) (r : Outcome World DbError Stored.Room) (h : Hub)
    → Serves c h
    → Does (Same h) (send_history_of c n r h)
unfolding send_history_of
send_history_of-Does c n (err e w) h s = in_world-Same w h
send_history_of-Does c n (ok room w) h s =
    send_messages-Does c n (list_messages room.id 20 none w) h s

send_history-Does :
    (c : Ptr) (n : String) (h : Hub) → Serves c h → Does (Same h) (send_history c n h)
unfolding send_history
send_history-Does c n h s =
    Does-if (Same h) h.has_store _ _
      (λ e. send_history_of-Does c n (get_room_by_name n h.world) h s) (λ e. Same-refl h)

-- Only the rooms of the map differ.
abbrev pub Elsewhere : Hub → Hub → Type 0
Elsewhere h k = (k.heap ≡ h.heap) × (k.clients ≡ h.clients) × (k.user_clients ≡ h.user_clients)

Elsewhere-Served : (h k : Hub) → Elsewhere h k → Served h → Served k
Elsewhere-Served h k (a, b, d) w = record {
  opened = λ c e. rw a (w.opened c (rw b at e));
  keyed = λ c. rw a (w.keyed c);
  inside = λ c n e. rw b (w.inside c n (rw a at e));
  users = λ u c e. rw (a, b) (w.users u c (rw d at e));
}

Elsewhere-Present : (c : Ptr) (h k : Hub) → Elsewhere h k → Present c h → Present c k
Elsewhere-Present c h k (a, b, d) (e, r) = (rw b e, rw a r)

pub room_add-Elsewhere :
    (c : Ptr) (n : String) (h : Hub) → Elsewhere h (room_add c n (ensure_room n h)).0
unfolding room_add ensure_room add_client
room_add-Elsewhere c n h = elim (Option-cases (find (is_named n) h.rooms)) [
  | inl e ↦ (room_add-heap c n h, ground (arith, e, eq_refl n), ground (arith, e, eq_refl n))
  | inr (r, e) ↦ (room_add-heap c n h, ground (arith, e), ground (arith, e))
]

pub room_remove-Elsewhere : (c : Ptr) (n : String) (h : Hub) → Elsewhere h (room_remove c n h).0
unfolding room_remove remove_client
room_remove-Elsewhere c n h = elim (Option-cases (find (is_named n) h.rooms)) [
  | inl e ↦ (room_remove-heap c n h, ground (arith, e), ground (arith, e))
  | inr (r, e) ↦ (room_remove-heap c n h, ground (arith, e), ground (arith, e))
]

pub drop_empty-Elsewhere : (n : String) (h : Hub) → Elsewhere h (drop_empty n h)
unfolding drop_empty
drop_empty-Elsewhere n h = elim (Option-cases (find (is_named n) h.rooms)) [
  | inl e ↦ (ground (arith, e), ground (arith, e), ground (arith, e))
  | inr (r, e) ↦ (ground (arith, e), ground (arith, e), ground (arith, e))
]

enter-Served : (c : Ptr) (n : String) (h : Hub) → Serves c h → Served (enter c n h)
enter-Served c n h (w, k) = record {
  opened = λ d e. ground (arith, w.opened d e);
  keyed = λ d. ground (arith, w.keyed d);
  inside = λ d m e. ground (arith, w.inside d m, k.0);
  users = λ u d e. ground (arith, w.users u d e);
}

enter-reading :
    (c : Ptr) (n : String) (h : Hub)
    → (h.heap c).is_reading ≡ true
    → ((enter c n h).heap c).is_reading ≡ true
enter-reading c n h r = ground arith

keyed-leave :
    (n : String) (ns : List String)
    → is_keyed ns ≡ true
    → is_keyed (select (λ r. not (str_eq r n)) ns) ≡ true
keyed-leave n [] k = refl
keyed-leave n (m ∷ ns) k = ground (arith, keyed-leave n ns, joined-leave m n ns)

leave-Served : (c : Ptr) (n : String) (h : Hub) → Served h → Served (leave c n h)
leave-Served c n h w = record {
  opened = λ d e. ground (arith, w.opened d e);
  keyed = λ d. ground (arith, w.keyed d, keyed-leave n (h.heap c).rooms);
  inside = λ d m e. ground (arith, w.inside d m, joined-leave m n (h.heap c).rooms);
  users = λ u d e. ground (arith, w.users u d e);
}

pub send_room_message-Does :
    (c : Ptr) (n : String) (m : Message) (h : Hub)
    → Linked h
    → Serves c h
    → Does (Same h) (send_room_message c n m h)
unfolding send_room_message
send_room_message-Does c n m h l s =
    let saved : Hub = (save (h.heap c) (fill_message (h.heap c) n m h.world) h).1 in
    let same : Same h saved = save-Same (h.heap c) (fill_message (h.heap c) n m h.world) h in
    Does-if (Same h) (str_eq n "") _ _ (λ e. send-Does c _ h s.0 s.1)
      (λ e.
        Does-if (Same h) (not (joined n (h.heap c).rooms)) _ _ (λ d. send-Does c _ h s.0 s.1)
          (λ d.
            Does-mono (Same saved) (Same h) _ (λ k t. Same-trans h saved k same t)
              (broadcast_to_room-Does n _ saved (λ x r. rw (same.rooms, (same.alike x).0) (l x r))
                (Same-Served h saved same s.0))))

pub join_room-Does :
    (c : Ptr) (n : String) (h : Hub) → WellFormed h → Serves c h → Does Served (join_room c n h)
unfolding join_room
join_room-Does c n h w s =
    let added : Hub = (room_add c n (ensure_room n h)).0 in
    let rest = room_add-Elsewhere c n h in
    let served : Served added = Elsewhere-Served h added rest s.0 in
    let serves : Serves c added = (served, Elsewhere-Present c h added rest s.1) in
    let inside : Served (enter c n added) = enter-Served c n added serves in
    Does-if Served (str_eq n "") _ _
      (λ e. Does-mono (Same h) Served _ (λ k t. Same-Served h k t s.0) (send-Does c _ h s.0 s.1))
      (λ e. elim (Bool-cases (room_add c n (ensure_room n h)).1) [
        | inl new ↦
            rw (new, Does)
              (Does-mono (Same (enter c n added)) Served _ (λ k t. Same-Served _ k t inside)
                (Same->>=Does (enter c n added) _ (send_history c n)
                  (broadcast_to_room-Does n _ (enter c n added)
                    (entered-WellFormed c n h w new).linked inside)
                  (λ k t. send_history-Does c n k (
                    Same-Serves c _ k t
                      (inside, (serves.1.0, enter-reading c n added serves.1.1))))))
        | inr dup ↦
            rw (dup, Does)
              (Does-mono (Same added) Served _ (λ k t. Same-Served added k t served)
                (send-Does c _ added served serves.1))
      ])

-- After a client has left a room.
pub record Left (c : Ptr) (n : String) (h k : Hub) : Type 0 where
  pub served : Served k
  pub clients : k.clients ≡ h.clients
  pub rooms :
      (m : String) → joined m (k.heap c).rooms ≡ (joined m (h.heap c).rooms && not (str_eq m n))

-- A client that is not in the room has not got it in its set.
absent :
    (c : Ptr) (n : String) (h : Hub)
    → Linked h
    → member_of n c h.rooms ≡ false
    → (m : String) → joined m (h.heap c).rooms ≡ (joined m (h.heap c).rooms && not (str_eq m n))
absent c n h l e m = ground (arith, l c n, e, eq_iff m n)

drop_empty-Left :
    (c : Ptr) (n : String) (h k : Hub)
    → Served h
    → Same (leave c n (room_remove c n h).0) k
    → Left c n h (drop_empty n k)
drop_empty-Left c n h k w s =
    let removed : Hub = (room_remove c n h).0 in
    let gone = room_remove-Elsewhere c n h in
    let last = drop_empty-Elsewhere n k in
    record {
      served =
          Elsewhere-Served k (drop_empty n k) last
            (Same-Served _ k s (leave-Served c n removed (Elsewhere-Served h removed gone w)));
      clients = last.1 ∙ s.clients ∙ gone.1;
      rooms = λ m.
          rw (last.0, (s.alike c).0, gone.0) (ground (arith, joined-leave m n (h.heap c).rooms));
    }

-- A client that was not there, and has its answer.
refused-Left :
    (c : Ptr) (n : String) (h g k : Hub)
    → Linked h
    → Served h
    → member_of n c h.rooms ≡ false
    → Elsewhere h g
    → Same g k
    → Left c n h k
refused-Left c n h g k l w e a s = record {
  served = Same-Served g k s (Elsewhere-Served h g a w);
  clients = s.clients ∙ a.1;
  rooms = λ m. rw ((s.alike c).0, a.0) (absent c n h l e m);
}

-- A client that is in the room leaves it, whether or not its write loop runs.
pub leave_member-Left :
    (c : Ptr) (n : String) (h : Hub)
    → WellFormed h
    → Served h
    → joined n (h.heap c).rooms ≡ true
    → Does (Left c n h) (leave_room c n h)
unfolding leave_room
leave_member-Left c n h w s j = go (find_room n h) refl
  where
    go : (o : Option Room) → find_room n h ≡ o → Does (Left c n h) (leave_room c n h)
    go none e = absurd (ground (arith, e, w.linked c n, j))
    go (some r) e =
        let gone : Hub = (room_remove c n h).0 in
        let removed : (room_remove c n h).1 ≡ true = room_remove-removed c n h ∙ w.linked c n ∙ j in
        rw (e, removed, Does)
          (Does->>= (Same (leave c n gone)) (Left c n h) (broadcast_to_room n _ (leave c n gone)) _
            (broadcast_to_room-Does n _ (leave c n gone) (left-Nearly c n h r w e removed).linked
              (leave-Served c n gone (Elsewhere-Served h gone (room_remove-Elsewhere c n h) s)))
            (λ k t. drop_empty-Left c n h k s t))

pub leave_room-Left :
    (c : Ptr) (n : String) (h : Hub)
    → WellFormed h
    → Serves c h
    → Does (Left c n h) (leave_room c n h)
unfolding leave_room
leave_room-Left c n h w s = elim (Bool-cases (joined n (h.heap c).rooms)) [
  | inl member ↦ leave_member-Left c n h w s.0 member
  | inr other ↦ go (find_room n h) refl other
]
  where
    go :
        (o : Option Room)
        → find_room n h ≡ o
        → joined n (h.heap c).rooms ≡ false
        → Does (Left c n h) (leave_room c n h)
    go none e out =
        rw (e, Does)
          (Does-mono (Same h) (Left c n h) _
            (λ k t. refused-Left c n h h k w.linked s.0 (ground (arith, e)) (refl, refl, refl) t)
            (send-Does c _ h s.0 s.1))
    go (some r) e out =
        let gone : Hub = (room_remove c n h).0 in
        let rest = room_remove-Elsewhere c n h in
        let served : Served gone = Elsewhere-Served h gone rest s.0 in
        let alone : member_of n c h.rooms ≡ false = w.linked c n ∙ out in
        rw (e, room_remove-removed c n h ∙ alone, Does)
          (Does-mono (Same gone) (Left c n h) _
            (λ k t. refused-Left c n h gone k w.linked s.0 alone rest t)
            (send-Does c _ gone served (Elsewhere-Present c h gone rest s.1)))
