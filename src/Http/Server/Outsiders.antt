-- ===== src/Http/Server/Outsiders.antt =====
-- internal/transport/http: nobody but the owner lets a user into a private room.
use wirechat_server.Common.{
  ℕ, ◌<◌, ◌≡◌, ◌≢◌, inl, inr, refl, sym, subst, String, Bool, false, not, Option, none, some, List,
  [], ◌∷◌, ◌++◌, find, any, select, arith, ◌==◌, str_eq,
}
use wirechat_server.Effect.{Outcome, Action, ok, err, after}
use wirechat_server.Store.Types.{Room, RoomMember, RoomType, direct_room}
use wirechat_server.Store.World.{World, Db}
use wirechat_server.Store.Rooms as Table
use wirechat_server.Store.Rooms.{is_member_row}
use wirechat_server.Store.Rooms.Untouched.{SameRooms}
use wirechat_server.Store.Rooms.Direct.{with_direct, create_direct_room-Whole}
use wirechat_server.Http.Response.{Handler, world_of, call_then}

-- A room of which the user is no member, stored under its id and its name, and with an id below the
-- next one.
abbrev pub OutsideOf : ℕ → Room → Db → Type 0
OutsideOf v r db =
    (find (λ (x : Room). x.id == r.id) db.rooms ≡ some r)
    × (r.id < db.next_room)
    × (any (is_member_row v r.id) db.room_members ≡ false)
    × (find (λ (x : Room). str_eq x.name r.name) db.rooms ≡ some r)

abbrev pub Outside : ℕ → Room → World → Type 0
Outside v r w = OutsideOf v r w.db

pub Same-Outside : (v : ℕ) (r : Room) (w k : World) → SameRooms w k → Outside v r w → Outside v r k
Same-Outside v r w k s o = (rw s.0 o.0, rw s.2 o.1, rw s.1 o.2, rw s.0 o.3)

-- A handler that makes one call, and answers.
pub call_then-Outside :
    {E A : Type 0} (v : ℕ) (r : Room) (m : Action World E A) (bad : E → Handler)
    (good : A → Handler) (w : World)
    → Outside v r (after (m w))
    → ((e : E) (k : World) → Outside v r k → Outside v r (world_of (bad e k)))
    → ((a : A) (k : World) → m w ≡ ok a k → Outside v r k → Outside v r (world_of (good a k)))
    → Outside v r (world_of (call_then m bad good w))
call_then-Outside {E} {A} v r m bad good w o b g = go (m w) refl o
  where
    go :
        (t : Outcome World E A)
        → m w ≡ t
        → Outside v r (after t)
        → Outside v r (world_of (elim t [ ok a k ↦ good a k | err e k ↦ bad e k ]))
    go (ok a k) q p = g a k q p
    go (err e k) q p = b e k p

find-append :
    (p : Room → Bool) (rs : List Room) (r x : Room)
    → find p rs ≡ some r
    → find p (rs ++ x ∷ []) ≡ some r
find-append p [] r x e = ground arith
find-append p (y ∷ rs) r x e = ground (arith, find-append p rs r x)

abbrev by_id : Room → Room → Bool
by_id r x = x.id == r.id

abbrev by_name : Room → Room → Bool
by_name r x = str_eq x.name r.name

any-append_other :
    (v id : ℕ) (ms : List RoomMember) (m : RoomMember)
    → any (is_member_row v id) ms ≡ false
    → is_member_row v id m ≡ false
    → any (is_member_row v id) (ms ++ m ∷ []) ≡ false
any-append_other v id [] m e f = ground arith
any-append_other v id (x ∷ ms) m e f = ground (arith, any-append_other v id ms m)

any-select :
    (v id : ℕ) (p : RoomMember → Bool) (ms : List RoomMember)
    → any (is_member_row v id) ms ≡ false
    → any (is_member_row v id) (select p ms) ≡ false
any-select v id p [] e = refl
any-select v id p (x ∷ ms) e = ground (arith, any-select v id p ms)

-- The statements that write rooms and members.
pub create_room-Outside :
    (v : ℕ) (r : Room) (name : String) (type : RoomType) (owner : Option ℕ) (w : World)
    → Outside v r w
    → Outside v r (after (Table.create_room name type owner w))
unfolding Table.create_room Table.insert_room Table.get_room_by_id
create_room-Outside v r name type owner w o =
    let x : Room = record {
      id = w.db.next_room;
      name = name;
      type = type;
      owner_id = owner;
      direct_key = none;
      created_at = w.env.now w.ticks;
    } in
    ground
      (arith, find-append (by_id r) w.db.rooms r x o.0, find-append (by_name r) w.db.rooms r x o.3)

pub add_member-Outside :
    (v u id : ℕ) (r : Room) (w : World)
    → (u ≡ v → id ≢ r.id)
    → Outside v r w
    → Outside v r (after (Table.add_member u id w))
unfolding Table.add_member
add_member-Outside v u id r w n o = ground (
  arith,
  any-append_other v r.id w.db.room_members
      (record { user_id = u; room_id = id; joined_at = w.env.now w.ticks }),
)

pub remove_member-Outside :
    (v u id : ℕ) (r : Room) (w : World)
    → Outside v r w
    → Outside v r (after (Table.remove_member u id w))
unfolding Table.remove_member
remove_member-Outside v u id r w o =
    ground (arith, any-select v r.id (λ m. not (is_member_row u id m)) w.db.room_members)

with_direct-Outside :
    (v a b : ℕ) (r : Room) (name key : String) (at : ℕ → ℕ) (db : Db)
    → OutsideOf v r db
    → OutsideOf v r (with_direct name key a b at db)
with_direct-Outside v a b r name key at db o =
    let m : RoomMember = record { user_id = a; room_id = db.next_room; joined_at = at 1 } in
    let n : RoomMember = record { user_id = b; room_id = db.next_room; joined_at = at 2 } in
    let x : Room = record {
      id = db.next_room;
      name = name;
      type = direct_room;
      owner_id = none;
      direct_key = some key;
      created_at = at 0;
    } in
    (
      find-append (by_id r) db.rooms r x o.0,
      omega (arith, o.1),
      any-append_other v r.id (db.room_members ++ m ∷ []) n
          (any-append_other v r.id db.room_members m o.2 (ground (arith, o.1)))
          (ground (arith, o.1)),
      find-append (by_name r) db.rooms r x o.3,
    )

pub create_direct_room-Outside :
    (v a b : ℕ) (r : Room) (key : String) (w : World)
    → Outside v r w
    → Outside v r (after (Table.create_direct_room key a b w))
create_direct_room-Outside v a b r key w o = elim (create_direct_room-Whole key a b w) [
  | inl e ↦ subst (OutsideOf v r) (sym e) o
  | inr t ↦
      let (name, at, e) = t in
      subst (OutsideOf v r) (sym e) (with_direct-Outside v a b r name key at w.db o)
]
