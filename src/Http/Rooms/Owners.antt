-- ===== src/Http/Rooms/Owners.antt =====
-- internal/transport/http/room_handlers.go: who changes the members of a room.
use wirechat_server.Common.{
  ℕ, ◌+◌, Bool, true, false, not, ◌≡◌, ◌⊎◌, inl, inr, Option, none, some, List, [], ◌∷◌, ◌++◌, find,
  any, select, refl, arith, ◌==◌, Option-cases, Bool-cases,
}
use wirechat_server.Store.Types.{Room, RoomMember}
use wirechat_server.Store.World.{World, IsQuiet}
use wirechat_server.Store.Rooms as Table
use wirechat_server.Store.Rooms.{is_member_row, owned_by}
use wirechat_server.Http.Response.{Response, status_of, world_of}
use wirechat_server.Http.Rooms.{add_member, remove_member}

-- The room with an id, and its owner.
abbrev pub Owns : ℕ → Option ℕ → World → Type 0
Owns u id w =
    (rid : ℕ) × (r : Room) × (id ≡ some rid)
    × (find (λ (x : Room). x.id == rid) w.db.rooms ≡ some r)
    × (r.owner_id ≡ some u)

pub owned_by-some : (u : ℕ) (o : Option ℕ) → owned_by u o ≡ true → o ≡ some u
owned_by-some u none e = ground arith
owned_by-some u (some v) e = ground arith

-- The room that a handler finds.
found :
    (rid : ℕ) (w : World)
    → (find (λ (x : Room). x.id == rid) w.db.rooms ≡ none)
      ⊎ ((r : Room) × (find (λ (x : Room). x.id == rid) w.db.rooms ≡ some r))
found rid w = Option-cases (find (λ (x : Room). x.id == rid) w.db.rooms)

-- Either nothing is stored, or the room's owner asked for it.
abbrev pub OwnerOnly : ℕ → Option ℕ → World → Response × World → Type 0
OwnerOnly u id w r = ((world_of r).db ≡ w.db) ⊎ Owns u id w

add_member-OwnerOnly :
    (u : ℕ) (id body : Option ℕ) (w : World) → OwnerOnly u id w (add_member (some u) id body w)
unfolding add_member Table.get_room_by_id Table.add_member
add_member-OwnerOnly u none body w = inl refl
add_member-OwnerOnly u (some rid) body w = elim (found rid w) [
  | inl n ↦ inl (ground arith)
  | inr (r, f) ↦ elim (Bool-cases (owned_by u r.owner_id)) [
    | inl t ↦ inr (rid, r, refl, f, owned_by-some u r.owner_id t)
    | inr n ↦ inl (ground arith)
  ]
]

remove_member-OwnerOnly :
    (u : ℕ) (id target : Option ℕ) (w : World)
    → OwnerOnly u id w (remove_member (some u) id target w)
unfolding remove_member Table.get_room_by_id Table.remove_member
remove_member-OwnerOnly u none target w = inl refl
remove_member-OwnerOnly u (some rid) none w = inl refl
remove_member-OwnerOnly u (some rid) (some v) w = elim (found rid w) [
  | inl n ↦ inl (ground arith)
  | inr (r, f) ↦ elim (Bool-cases (owned_by u r.owner_id)) [
    | inl t ↦ inr (rid, r, refl, f, owned_by-some u r.owner_id t)
    | inr n ↦ inl (ground arith)
  ]
]

-- A request to add a member to a room, or to remove one, leaves every table as it is, unless the
-- room exists and the user who asks is its owner.
pub members_change_by_owner :
    (u : ℕ) (id v : Option ℕ) (w : World)
    → OwnerOnly u id w (add_member (some u) id v w)
      × OwnerOnly u id w (remove_member (some u) id v w)
members_change_by_owner u id v w = (add_member-OwnerOnly u id v w, remove_member-OwnerOnly u id v w)

pub any-append_row :
    (u r : ℕ) (ms : List RoomMember) (m : RoomMember)
    → is_member_row u r m ≡ true
    → any (is_member_row u r) (ms ++ m ∷ []) ≡ true
any-append_row u r [] m e = ground arith
any-append_row u r (x ∷ ms) m e = ground (arith, any-append_row u r ms m e)

any-select-not :
    (u r : ℕ) (ms : List RoomMember)
    → any (is_member_row u r) (select (λ m. not (is_member_row u r m)) ms) ≡ false
any-select-not u r [] = refl
any-select-not u r (x ∷ ms) = ground (arith, any-select-not u r ms)

-- What IsMember says.
abbrev pub is_in : ℕ → ℕ → World → Bool
is_in v rid w = any (is_member_row v rid) w.db.room_members

-- While the driver does not fail, the owner of a room can add a user, who is then a member of it,
-- and then remove the user, who then is none; both requests answer 200.
pub add_member-remove_member :
    (u v rid : ℕ) (r : Room) (w : World)
    → IsQuiet w
    → find (λ (x : Room). x.id == rid) w.db.rooms ≡ some r
    → r.owner_id ≡ some u
    → let added : Response × World = add_member (some u) (some rid) (some v) w in
      let removed : Response × World =
        remove_member (some u) (some rid) (some v) (world_of added) in
      (status_of added ≡ 200)
      × (is_in v rid (world_of added) ≡ true)
      × (status_of removed ≡ 200)
      × (is_in v rid (world_of removed) ≡ false)
unfolding add_member remove_member Table.get_room_by_id Table.add_member Table.remove_member
add_member-remove_member u v rid r w q f o =
    elim (Bool-cases (any (is_member_row v rid) w.db.room_members)) [
      | inl t ↦ ground (
        arith,
        q w.ticks,
        q (w.ticks + 1),
        q (w.ticks + 2),
        q (w.ticks + 3),
        any-select-not v rid w.db.room_members,
      )
      | inr n ↦
          let m : RoomMember = record {
            user_id = v;
            room_id = rid;
            joined_at = w.env.now (w.ticks + 1);
          } in
          ground (
            arith,
            q w.ticks,
            q (w.ticks + 1),
            q (w.ticks + 2),
            q (w.ticks + 3),
            any-append_row v rid w.db.room_members m (ground arith),
            any-select-not v rid (w.db.room_members ++ m ∷ []),
          )
    ]
