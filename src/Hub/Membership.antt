-- ===== src/Hub/Membership.antt =====
-- internal/core/hub.go: what the hub promises, without its maps, queues and database: who is connected,
-- and who is in which room.
use wirechat_server.Common.{
  ◌≡◌, refl, ◌∙◌, inl, inr, String, Bool, true, false, not, ◌&&◌, ◌||◌, Option, none, some, arith,
  eq_iff, str_eq, ◌==◌, Bool-cases,
}
use wirechat_server.Hub.Types.{Ptr, Room}
use wirechat_server.Hub.{
  Hub, Go, done, panicked, stuck, ◌>>=◌, joined, find_room, ensure_room, room_add, room_remove,
  enter, leave, drop_empty, send_history, broadcast_to_room, leave_rooms, forget, close_client,
  remove_from_hub, register,
}
use wirechat_server.Hub as Rooms
use wirechat_server.Hub.Rooms.{joined-leave}
use wirechat_server.Hub.Frame.{
  Then, Then->>=, Then-mono, Same, Same->>=, send-Same, broadcast_to_room-Same, send_history-Same,
}
use wirechat_server.Hub.Members.{WellFormed, room_add-added, room_add-heap}
use wirechat_server.Hub.Leaving.{room_remove-removed, room_remove-heap}

-- The hub after a command of a client on a room: the clients are the same, and `f` says who is in.
abbrev pub Moves : (String → Ptr → Bool → Bool) → Hub → Hub → Type 0
Moves f h k =
    (k.clients ≡ h.clients)
    × ((m : String) (d : Ptr) → joined m (k.heap d).rooms ≡ f m d (joined m (h.heap d).rooms))

abbrev pub joins : Ptr → String → String → Ptr → Bool → Bool
joins c n m d b = b || (d == c && str_eq m n && not (str_eq n ""))

abbrev pub leaves : Ptr → String → String → Ptr → Bool → Bool
leaves c n m d b = b && not (d == c && str_eq m n)

Same-Moves : (f : String → Ptr → Bool → Bool) (h g k : Hub) → Moves f h g → Same g k → Moves f h k
Same-Moves f h g k m s = (s.clients ∙ m.0, λ n d. rw (s.alike d).0 (m.1 n d))

room_add-clients :
    (c : Ptr) (n : String) (h : Hub) → (room_add c n (ensure_room n h)).0.clients ≡ h.clients
unfolding room_add ensure_room
room_add-clients c n h = ground arith

room_remove-clients : (c : Ptr) (n : String) (h : Hub) → (room_remove c n h).0.clients ≡ h.clients
unfolding room_remove
room_remove-clients c n h = ground arith

drop_empty-Moves :
    (f : String → Ptr → Bool → Bool) (n : String) (h k : Hub)
    → Moves f h k
    → Moves f h (drop_empty n k)
unfolding drop_empty
drop_empty-Moves f n h k m = ground arith

entered-Moves :
    (c : Ptr) (n : String) (h : Hub)
    → WellFormed h
    → str_eq n "" ≡ false
    → (room_add c n (ensure_room n h)).1 ≡ true
    → Moves (joins c n) h (enter c n (room_add c n (ensure_room n h)).0)
entered-Moves c n h w e added =
    (room_add-clients c n h, λ m d. ground (arith, room_add-heap c n h, e, eq_iff m n, eq_iff n m))

unentered-Moves :
    (c : Ptr) (n : String) (h : Hub)
    → WellFormed h
    → str_eq n "" ≡ false
    → (room_add c n (ensure_room n h)).1 ≡ false
    → Moves (joins c n) h (room_add c n (ensure_room n h)).0
unentered-Moves c n h w e dup = (
  room_add-clients c n h,
  λ m d. ground (arith, room_add-heap c n h, room_add-added c n h, w.linked c n, e, eq_iff m n),
)

pub join_room-Moves :
    (c : Ptr) (n : String) (h : Hub)
    → WellFormed h
    → Then (Moves (joins c n) h) (Rooms.join_room c n h)
unfolding Rooms.join_room
join_room-Moves c n h w = elim (Bool-cases (str_eq n "")) [
  | inl e ↦ rw e (
      Then-mono (Same h) (Moves (joins c n) h) _
        (λ k s. Same-Moves (joins c n) h h k (refl, λ m d. ground arith) s) (send-Same c _ h))
  | inr e ↦ rw e (elim (Bool-cases (room_add c n (ensure_room n h)).1) [
    | inl added ↦ rw added (
        let g : Hub = enter c n (room_add c n (ensure_room n h)).0 in
        Then-mono (Same g) (Moves (joins c n) h) _
          (λ k s. Same-Moves (joins c n) h g k (entered-Moves c n h w e added) s)
          (Same->>= _ _ (send_history c n) (broadcast_to_room-Same n _ g) (send_history-Same c n)))
    | inr dup ↦ rw dup (
        let g : Hub = (room_add c n (ensure_room n h)).0 in
        Then-mono (Same g) (Moves (joins c n) h) _
          (λ k s. Same-Moves (joins c n) h g k (unentered-Moves c n h w e dup) s) (send-Same c _ g))
  ])
]

left-Moves :
    (c : Ptr) (n : String) (h : Hub) → Moves (leaves c n) h (leave c n (room_remove c n h).0)
left-Moves c n h = (
  room_remove-clients c n h,
  λ m d. ground (arith, room_remove-heap c n h, joined-leave m n (h.heap c).rooms),
)

unremoved-Moves :
    (c : Ptr) (n : String) (h : Hub)
    → WellFormed h
    → (room_remove c n h).1 ≡ false
    → Moves (leaves c n) h (room_remove c n h).0
unremoved-Moves c n h w dup = (
  room_remove-clients c n h,
  λ m d.
      ground (arith, room_remove-heap c n h, room_remove-removed c n h, w.linked c n, eq_iff m n),
)

absent-Moves :
    (c : Ptr) (n : String) (h : Hub) → WellFormed h → find_room n h ≡ none → Moves (leaves c n) h h
absent-Moves c n h w e = (refl, λ m d. ground (arith, w.linked c n, eq_iff m n))

pub leave_room-Moves :
    (c : Ptr) (n : String) (h : Hub)
    → WellFormed h
    → Then (Moves (leaves c n) h) (Rooms.leave_room c n h)
unfolding Rooms.leave_room
leave_room-Moves c n h w = go (find_room n h) refl
  where
    go :
        (o : Option Room) → find_room n h ≡ o → Then (Moves (leaves c n) h) (Rooms.leave_room c n h)
    go none e =
        rw (e, Then)
          (Then-mono (Same h) (Moves (leaves c n) h) _
            (λ k s. Same-Moves (leaves c n) h h k (absent-Moves c n h w e) s) (send-Same c _ h))
    go (some r) e =
        rw (e, Then)
          (elim (Bool-cases (room_remove c n h).1) [
            | inl removed ↦ rw removed (
                let g : Hub = leave c n (room_remove c n h).0 in
                Then->>= (Moves (leaves c n) h) (Moves (leaves c n) h) (broadcast_to_room n _ g) _
                  (Then-mono (Same g) (Moves (leaves c n) h) _
                    (λ k s. Same-Moves (leaves c n) h g k (left-Moves c n h) s)
                    (broadcast_to_room-Same n _ g))
                  (λ k m. drop_empty-Moves (leaves c n) n h k m))
            | inr dup ↦ rw dup (
                let g : Hub = (room_remove c n h).0 in
                Then-mono (Same g) (Moves (leaves c n) h) _
                  (λ k s. Same-Moves (leaves c n) h g k (unremoved-Moves c n h w dup) s)
                  (send-Same c _ g))
          ])
