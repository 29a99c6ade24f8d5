-- ===== src/Hub/Members.antt =====
-- internal/core/hub.go: a client is in a room exactly if the room is in the client's own set, and no
-- room of the map is empty.
use wirechat_server.Common.{
  ◌≡◌, inl, inr, String, true, false, not, none, some, List, [], ◌∷◌, find, arith, eq_iff, eq_refl,
  str_eq, if◌then◌else◌, Option-cases, Bool-cases,
}
use wirechat_server.Hub.Types.{Ptr, Room, new_room, empty, add_client}
use wirechat_server.Hub.{
  Hub, Go, is_named, joined, ensure_room, room_add, enter, join_room, send_history,
}
use wirechat_server.Hub.Rooms.{member_of, distinct, find-update, find-name}
use wirechat_server.Hub.Frame.{
  Then, Then-mono, Then-if, Same, Same->>=, send-Same, broadcast_to_room-Same, send_history-Same,
}

pub record WellFormed (h : Hub) : Type 0 where
  pub linked : (c : Ptr) (n : String) → member_of n c h.rooms ≡ joined n (h.heap c).rooms
  pub inhabited : (n : String) (r : Room) → find (is_named n) h.rooms ≡ some r → empty r ≡ false
  pub once :
      (n : String) (r : Room) → find (is_named n) h.rooms ≡ some r → distinct r.clients ≡ true

pub Same-WellFormed : (h k : Hub) → Same h k → WellFormed h → WellFormed k
Same-WellFormed h k s w = record {
  linked = λ c n. rw (s.rooms, (s.alike c).0) (w.linked c n);
  inhabited = λ n r e. w.inhabited n r (rw s.rooms at e);
  once = λ n r e. w.once n r (rw s.rooms at e);
}

-- What only sends keeps the invariant.
pub kept : (h : Hub) (m : Go Hub) → WellFormed h → Then (Same h) m → Then WellFormed m
kept h m w = Then-mono (Same h) WellFormed m (λ k s. Same-WellFormed h k s w)

-- The room of that name, or a new one.
abbrev pub room_of : String → List Room → Room
room_of n rs = elim (find (is_named n) rs) [ none ↦ new_room n | some r ↦ r ]

room_of-name : (n : String) (rs : List Room) → (room_of n rs).name ≡ n
room_of-name n rs = elim (Option-cases (find (is_named n) rs)) [
  | inl e ↦ ground (arith, e)
  | inr (r, e) ↦ ground (arith, e, find-name n rs r e)
]

-- What the map holds once the client is added.
pub find-room_add :
    (c : Ptr) (n m : String) (h : Hub)
    → find (is_named m) (room_add c n (ensure_room n h)).0.rooms ≡ (
        if str_eq m n then some (add_client c (room_of n h.rooms)).0 else find (is_named m) h.rooms)
unfolding room_add ensure_room add_client
find-room_add c n m h = elim (Option-cases (find (is_named n) h.rooms)) [
  | inl e ↦ ground (
    arith,
    e,
    eq_iff m n,
    eq_iff n m,
    eq_refl n,
    find-update m n (record { name = n; clients = c ∷ [] }) (new_room n) (new_room n ∷ h.rooms),
  )
  | inr (r, e) ↦ ground (
    arith,
    e,
    find-name n h.rooms r e,
    eq_iff m n,
    find-update m n (record r { clients = c ∷ r.clients }) r h.rooms,
    find-update m n r r h.rooms,
  )
]

pub room_add-added :
    (c : Ptr) (n : String) (h : Hub)
    → (room_add c n (ensure_room n h)).1 ≡ not (member_of n c h.rooms)
unfolding room_add ensure_room add_client
room_add-added c n h = elim (Option-cases (find (is_named n) h.rooms)) [
  | inl e ↦ ground (arith, e, eq_refl n)
  | inr (r, e) ↦ ground (arith, e)
]

pub room_add-heap :
    (c : Ptr) (n : String) (h : Hub) → (room_add c n (ensure_room n h)).0.heap ≡ h.heap
unfolding room_add ensure_room add_client
room_add-heap c n h = elim (Option-cases (find (is_named n) h.rooms)) [
  | inl e ↦ ground (arith, e, eq_refl n)
  | inr (r, e) ↦ ground (arith, e)
]

room_of-once : (n : String) (h : Hub) → WellFormed h → distinct (room_of n h.rooms).clients ≡ true
room_of-once n h w = elim (Option-cases (find (is_named n) h.rooms)) [
  | inl e ↦ ground (arith, e)
  | inr (r, e) ↦ ground (arith, e, w.once n r e)
]

pub unentered-WellFormed :
    (c : Ptr) (n : String) (h : Hub)
    → WellFormed h
    → (room_add c n (ensure_room n h)).1 ≡ false
    → WellFormed (room_add c n (ensure_room n h)).0
unfolding add_client
unentered-WellFormed c n h w dup = record {
  linked = λ d m. ground (
    arith,
    find-room_add c n m h,
    room_add-added c n h,
    room_add-heap c n h,
    dup,
    eq_iff m n,
    w.linked d m,
    Option-cases (find (is_named m) h.rooms),
  );
  inhabited = λ m r e.
      ground (arith, find-room_add c n m h, room_add-added c n h, dup, eq_iff m n, w.inhabited m r);
  once = λ m r e. ground (
    arith,
    find-room_add c n m h,
    room_add-added c n h,
    dup,
    eq_iff m n,
    w.once m r,
    room_of-once n h w,
  );
}

pub entered-WellFormed :
    (c : Ptr) (n : String) (h : Hub)
    → WellFormed h
    → (room_add c n (ensure_room n h)).1 ≡ true
    → WellFormed (enter c n (room_add c n (ensure_room n h)).0)
unfolding add_client
entered-WellFormed c n h w added = record {
  linked = λ d m. ground (
    arith,
    find-room_add c n m h,
    room_add-added c n h,
    room_add-heap c n h,
    added,
    eq_iff m n,
    eq_iff n m,
    w.linked d m,
    w.linked c n,
    Option-cases (find (is_named m) h.rooms),
  );
  inhabited = λ m r e.
      ground
        (arith, find-room_add c n m h, room_add-added c n h, added, eq_iff m n, w.inhabited m r);
  once = λ m r e. ground (
    arith,
    find-room_add c n m h,
    room_add-added c n h,
    added,
    eq_iff m n,
    w.once m r,
    room_of-once n h w,
  );
}

pub join_room-WellFormed :
    (c : Ptr) (n : String) (h : Hub) → WellFormed h → Then WellFormed (join_room c n h)
unfolding join_room
join_room-WellFormed c n h w =
    Then-if WellFormed (str_eq n "") _ _ (kept h _ w (send-Same c _ h))
      (elim (Bool-cases (room_add c n (ensure_room n h)).1) [
        | inl added ↦ rw added (
            kept _ _ (entered-WellFormed c n h w added) (
              Same->>= _ _ (send_history c n)
                (broadcast_to_room-Same n _ (enter c n (room_add c n (ensure_room n h)).0))
                (send_history-Same c n)))
        | inr dup ↦ rw dup (
            kept _ _ (unentered-WellFormed c n h w dup)
              (send-Same c _ (room_add c n (ensure_room n h)).0))
      ])
