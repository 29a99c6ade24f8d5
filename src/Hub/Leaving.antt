-- ===== src/Hub/Leaving.antt =====
-- internal/core/hub.go: a client that leaves a room, and one that the hub removes.
use wirechat_server.Common.{
  ◌≡◌, refl, inl, inr, String, true, false, not, Option, none, some, List, [], ◌∷◌, find, arith,
  eq_iff, str_eq, if◌then◌else◌, Option-cases, Bool-cases,
}
use wirechat_server.Hub.Types.{Ptr, Room, contains, remove, empty, remove_client}
use wirechat_server.Hub.{
  Hub, is_named, joined, find_room, room_remove, drop_empty, leave, leave_room, leave_rooms, forget,
  close_client, remove_from_hub, broadcast_to_room,
}
use wirechat_server.Hub.Rooms.{
  member_of, contains-remove, joined-leave, find-update, find-drop, distinct, distinct-remove,
  find-name,
}
use wirechat_server.Hub.Frame.{
  Then, Then->>=, Then-mono, Then-if, Same, send-Same, broadcast_to_room-Same,
}
use wirechat_server.Hub.Members.{WellFormed, kept}

-- What the map holds once the client is removed from a room that it has.
find-room_remove :
    (c : Ptr) (n m : String) (h : Hub) (r : Room)
    → find (is_named n) h.rooms ≡ some r
    → find (is_named m) (room_remove c n h).0.rooms
      ≡ (if str_eq m n then some (remove_client c r).0 else find (is_named m) h.rooms)
unfolding room_remove remove_client
find-room_remove c n m h r e = ground (
  arith,
  e,
  find-name n h.rooms r e,
  eq_iff m n,
  find-update m n (record r { clients = remove c r.clients }) r h.rooms,
  find-update m n r r h.rooms,
)

pub room_remove-removed :
    (c : Ptr) (n : String) (h : Hub) → (room_remove c n h).1 ≡ member_of n c h.rooms
unfolding room_remove remove_client
room_remove-removed c n h = elim (Option-cases (find (is_named n) h.rooms)) [
  | inl e ↦ ground (arith, e)
  | inr (r, e) ↦ ground (arith, e)
]

pub room_remove-heap : (c : Ptr) (n : String) (h : Hub) → (room_remove c n h).0.heap ≡ h.heap
unfolding room_remove remove_client
room_remove-heap c n h = elim (Option-cases (find (is_named n) h.rooms)) [
  | inl e ↦ ground (arith, e)
  | inr (r, e) ↦ ground (arith, e)
]

-- Well-formed, but for one room that may be empty.
pub record Nearly (n : String) (h : Hub) : Type 0 where
  pub linked : (c : Ptr) (m : String) → member_of m c h.rooms ≡ joined m (h.heap c).rooms
  inhabited :
      (m : String) (r : Room)
      → str_eq m n ≡ false
      → find (is_named m) h.rooms ≡ some r
      → empty r ≡ false
  pub once :
      (m : String) (r : Room) → find (is_named m) h.rooms ≡ some r → distinct r.clients ≡ true

Same-Nearly : (n : String) (h k : Hub) → Same h k → Nearly n h → Nearly n k
Same-Nearly n h k s w = record {
  linked = λ c m. rw (s.rooms, (s.alike c).0) (w.linked c m);
  inhabited = λ m r d e. w.inhabited m r d (rw s.rooms at e);
  once = λ m r e. w.once m r (rw s.rooms at e);
}

pub unremoved-WellFormed :
    (c : Ptr) (n : String) (h : Hub) (r : Room)
    → WellFormed h
    → find (is_named n) h.rooms ≡ some r
    → (room_remove c n h).1 ≡ false
    → WellFormed (room_remove c n h).0
unfolding remove_client
unremoved-WellFormed c n h r w e dup = record {
  linked = λ d m. ground (
    arith,
    e,
    find-room_remove c n m h r e,
    room_remove-removed c n h,
    room_remove-heap c n h,
    dup,
    eq_iff m n,
    w.linked d m,
  );
  inhabited = λ m q f. ground (
    arith,
    e,
    find-room_remove c n m h r e,
    room_remove-removed c n h,
    dup,
    eq_iff m n,
    w.inhabited m q,
  );
  once = λ m q f. ground (
    arith,
    e,
    find-room_remove c n m h r e,
    room_remove-removed c n h,
    dup,
    eq_iff m n,
    w.once m q,
    w.once n r e,
  );
}

pub left-Nearly :
    (c : Ptr) (n : String) (h : Hub) (r : Room)
    → WellFormed h
    → find (is_named n) h.rooms ≡ some r
    → (room_remove c n h).1 ≡ true
    → Nearly n (leave c n (room_remove c n h).0)
unfolding remove_client
left-Nearly c n h r w e removed = record {
  linked = λ d m. rw (room_remove-heap c n h) (
      ground (
        arith,
        e,
        find-room_remove c n m h r e,
        room_remove-removed c n h,
        removed,
        eq_iff m n,
        w.linked d m,
        contains-remove d c r.clients,
        joined-leave m n (h.heap c).rooms,
      ));
  inhabited = λ m q d f. ground (arith, e, find-room_remove c n m h r e, d, w.inhabited m q);
  once = λ m q f. ground (
    arith,
    e,
    find-room_remove c n m h r e,
    removed,
    eq_iff m n,
    w.once m q,
    w.once n r e,
    distinct-remove c r.clients,
  );
}

drop_empty-WellFormed : (n : String) (h : Hub) → Nearly n h → WellFormed (drop_empty n h)
unfolding drop_empty
drop_empty-WellFormed n h w = record {
  linked = λ c m. elim (Option-cases (find (is_named n) h.rooms)) [
    | inl e ↦ ground (arith, e, w.linked c m)
    | inr (r, e) ↦ ground (arith, e, w.linked c m, find-drop m n h.rooms, eq_iff m n)
  ];
  inhabited = λ m q f. elim (Option-cases (find (is_named n) h.rooms)) [
    | inl e ↦ ground (arith, e, w.inhabited m q, eq_iff m n)
    | inr (r, e) ↦ ground (arith, e, w.inhabited m q, find-drop m n h.rooms, eq_iff m n)
  ];
  once = λ m q f. elim (Option-cases (find (is_named n) h.rooms)) [
    | inl e ↦ ground (arith, e, w.once m q)
    | inr (r, e) ↦ ground (arith, e, w.once m q, find-drop m n h.rooms)
  ];
}

pub leave_room-WellFormed :
    (c : Ptr) (n : String) (h : Hub) → WellFormed h → Then WellFormed (leave_room c n h)
unfolding leave_room
leave_room-WellFormed c n h w = go (find_room n h) refl
  where
    go : (o : Option Room) → find_room n h ≡ o → Then WellFormed (leave_room c n h)
    go none e = rw (e, Then) (kept h _ w (send-Same c _ h))
    go (some r) e =
        rw (e, Then)
          (elim (Bool-cases (room_remove c n h).1) [
            | inl removed ↦ rw removed (
                Then->>= (Nearly n) WellFormed
                  (broadcast_to_room n _ (leave c n (room_remove c n h).0)) _
                  (Then-mono (Same (leave c n (room_remove c n h).0)) (Nearly n) _
                    (λ k s. Same-Nearly n _ k s (left-Nearly c n h r w e removed))
                    (broadcast_to_room-Same n _ (leave c n (room_remove c n h).0)))
                  (λ k v. drop_empty-WellFormed n k v))
            | inr dup ↦ rw dup (
                kept _ _ (unremoved-WellFormed c n h r w e dup)
                  (send-Same c _ (room_remove c n h).0))
          ])

pub leave_rooms-WellFormed :
    (c : Ptr) (ns : List String) (h : Hub) → WellFormed h → Then WellFormed (leave_rooms c ns h)
unfolding leave_rooms
leave_rooms-WellFormed c [] h w = w
leave_rooms-WellFormed c (n ∷ ns) h w =
    Then->>= WellFormed WellFormed (leave_room c n h) (leave_rooms c ns)
      (leave_room-WellFormed c n h w) (leave_rooms-WellFormed c ns)

pub forget-WellFormed : (c : Ptr) (h : Hub) → WellFormed h → WellFormed (forget c h)
unfolding forget
forget-WellFormed c h w = record {
  linked = λ d m. ground (arith, w.linked d m);
  inhabited = λ m r e. w.inhabited m r e;
  once = λ m r e. w.once m r e;
}

close_client-WellFormed : (c : Ptr) (h : Hub) → WellFormed h → Then WellFormed (close_client c h)
unfolding close_client
close_client-WellFormed c h w =
    Then-if WellFormed (h.heap c).is_open _ _ (forget-WellFormed c h w) tt

pub remove_from_hub-WellFormed :
    (c : Ptr) (h : Hub) → WellFormed h → Then WellFormed (remove_from_hub c h)
unfolding remove_from_hub
remove_from_hub-WellFormed c h w = Then-if WellFormed (not (contains c h.clients)) _ _ w (
    Then->>= WellFormed WellFormed (leave_rooms c (h.heap c).rooms h) (close_client c)
      (leave_rooms-WellFormed c (h.heap c).rooms h w) (close_client-WellFormed c))
