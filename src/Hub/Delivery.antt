-- ===== src/Hub/Delivery.antt =====
-- internal/core/hub.go: who gets what a broadcast sends.
use wirechat_server.Common.{
  ℕ, ◌≡◌, refl, ◌≢◌, sym, inl, inr, str_eq, not, eq_iff, String, Bool, true, false, ◌&&◌, Option,
  none, some, List, [], ◌∷◌, arith, ltb, length, if◌then◌else◌, Bool-cases, find,
}
use wirechat_server.Hub.Types.{Message, Ptr, Room, Client, Event, contains, events_cap}
use wirechat_server.Hub.{
  save, save_in, id_of_saved, fill_message, message_event, send_room_message, Hub, done, push,
  try_deliver, try_send, broadcast, broadcast_to_room, find_room, joined, is_named,
}
use wirechat_server.Effect.{Outcome, ok, err}
use wirechat_server.Store.World.{World, DbError}
use wirechat_server.Store.Types as Stored
use wirechat_server.Hub.Rooms.{distinct}
use wirechat_server.Hub.Members.{WellFormed}
use wirechat_server.Hub.Invariant.{save-Same}
use wirechat_server.Hub.Served.{Same-Served, Does, Does->>=, Does-mono, Served, Linked}

-- A client as it is after an event was offered to it: a full channel drops the event.
abbrev pub offered : Event → Client → Client
offered e x = if ltb (length x.events) events_cap then push e x else x

-- The event is offered to the clients of the list, once, and to nobody else.
abbrev pub Offers : List Ptr → Event → Hub → Hub → Type 0
Offers cs e h k = (c : Ptr) → k.heap c ≡ (if contains c cs then offered e (h.heap c) else h.heap c)

try_send-Offers :
    (c : Ptr) (e : Event) (h : Hub)
    → (h.heap c).is_open ≡ true
    → Does (λ (r : Hub × Bool). Offers (c ∷ []) e h r.0) (try_send c e h)
unfolding try_send try_deliver
try_send-Offers c e h o =
    Does->>= (λ (r : Client × Bool). r.0 ≡ offered e (h.heap c)) _ (try_deliver e (h.heap c)) _
      (ground (arith, o)) (λ r a d. ground (arith, a))

broadcast-Offers :
    (cs : List Ptr) (e : Event) (h : Hub)
    → distinct cs ≡ true
    → ((c : Ptr) → contains c cs ≡ true → (h.heap c).is_open ≡ true)
    → Does (Offers cs e h) (broadcast cs e h)
unfolding broadcast
broadcast-Offers [] e h d o = λ c. refl
broadcast-Offers (c ∷ cs) e h d o =
    Does->>= (λ (r : Hub × Bool). Offers (c ∷ []) e h r.0) (Offers (c ∷ cs) e h) (try_send c e h)
      (λ r. broadcast cs e r.0) (try_send-Offers c e h (o c (ground arith)))
      (λ r s.
        Does-mono (Offers cs e r.0) (Offers (c ∷ cs) e h) (broadcast cs e r.0)
          (λ k t x. ground (arith, t x, s x, d))
          (broadcast-Offers cs e r.0 (ground arith) (λ x k. ground (arith, s x, o x, d))))

-- No room lists a client twice.
abbrev pub HasDistinct : Hub → Type 0
HasDistinct h =
    (n : String) (r : Room) → find (is_named n) h.rooms ≡ some r → distinct r.clients ≡ true

-- The event is offered to the clients that have the room in their sets, once, and to nobody else.
abbrev pub Reaches : String → Event → Hub → Hub → Type 0
Reaches n e h k =
    (c : Ptr) → k.heap c ≡ (if joined n (h.heap c).rooms then offered e (h.heap c) else h.heap c)

broadcast_to_room-Reaches :
    (n : String) (e : Event) (h : Hub)
    → Linked h
    → Served h
    → HasDistinct h
    → Does (Reaches n e h) (broadcast_to_room n e h)
unfolding broadcast_to_room
broadcast_to_room-Reaches n e h l s d = go (find_room n h) refl
  where
    go :
        (o : Option Room)
        → find_room n h ≡ o
        → Does (Reaches n e h) (elim o [ none ↦ done h | some r ↦ broadcast r.clients e h ])
    go none q = λ c. ground (arith, l c n)
    go (some r) q =
        Does-mono (Offers r.clients e h) (Reaches n e h) _ (λ k t c. ground (arith, t c, l c n))
          (broadcast-Offers r.clients e h (d n r q)
            (λ c k. s.opened c (s.inside c n (ground (arith, l c n)))))

-- What storing a message leaves as it was: all but the id of the message, and the world.
abbrev Stores : Message → Hub → Message × Hub → Type 0
Stores m h r = (r.0.text ≡ m.text) × (r.0.room ≡ m.room) × (r.0.from ≡ m.from) × (r.1.heap ≡ h.heap)

id_of_saved-Stores :
    (m : Message) (r : Outcome World DbError Stored.Message) (h : Hub)
    → Stores m h (id_of_saved m r h)
unfolding id_of_saved
id_of_saved-Stores m (ok x w) h = (refl, refl, refl, refl)
id_of_saved-Stores m (err e w) h = (refl, refl, refl, refl)

save_in-Stores :
    (u : ℕ) (m : Message) (r : Outcome World DbError Stored.Room) (h : Hub)
    → Stores m h (save_in u m r h)
unfolding save_in
save_in-Stores u m (err e w) h = (refl, refl, refl, refl)
save_in-Stores u m (ok room w) h = id_of_saved-Stores m _ h

pub save-Stores : (x : Client) (m : Message) (h : Hub) → Stores m h (save x m h)
unfolding save
save-Stores x m h = elim (Bool-cases (not x.is_guest && ltb 0 x.user_id && h.has_store)) [
  | inl stores ↦ rw stores (save_in-Stores x.user_id m _ h)
  | inr skips ↦ rw skips (refl, refl, refl, refl)
]

Reaches-heap :
    (n : String) (e : Event) (h g k : Hub) → g.heap ≡ h.heap → Reaches n e g k → Reaches n e h k
Reaches-heap n e h g k q t c = rw (sym q) (t c)

-- In a well-formed and served hub, a message that a client sends to a room with a name, in which it
-- is, comes to its end: the event is offered once to each client that has the room in its set (it
-- joins the client's channel, or is dropped if that is full), and no other client changes. The
-- event's message has the sent text and the room's name, and the client's name if it came without a
-- sender.
pub send_room_message-Reaches :
    (c : Ptr) (n : String) (m : Message) (h : Hub)
    → WellFormed h
    → Served h
    → n ≢ ""
    → joined n (h.heap c).rooms ≡ true
    → let sent : Message = (save (h.heap c) (fill_message (h.heap c) n m h.world) h).0 in
      (sent.text ≡ m.text)
      × (sent.room ≡ n)
      × (m.from ≡ "" → sent.from ≡ (h.heap c).name)
      × Does (Reaches n (message_event n sent) h) (send_room_message c n m h)
unfolding send_room_message fill_message
send_room_message-Reaches c n m h w s e k =
    let x : Client = h.heap c in
    let full : Message = fill_message x n m h.world in
    let kept = save-Stores x full h in
    let same = save-Same x full h in
    let ev : Event = message_event n (save x full h).0 in
    let named : str_eq n "" ≡ false = ground (arith, eq_iff n "", e) in
    (
      kept.0,
      kept.1,
      λ b. ground (arith, kept.2, b, eq_iff m.from ""),
      rw (named, k, Does)
          (Does-mono (Reaches n ev (save x full h).1) (Reaches n ev h) _
            (λ j t. Reaches-heap n _ h (save x full h).1 j kept.3 t)
            (broadcast_to_room-Reaches n ev (save x full h).1
              (λ y r. rw (same.rooms, (same.alike y).0) (w.linked y r))
              (Same-Served h (save x full h).1 same s) (λ r q f. w.once r q (rw same.rooms at f)))),
    )
