-- ===== src/Http/Server/Privacy.antt =====
-- internal/transport/http: what every route behind the middleware does to the members of a private room.
use wirechat_server.Common.{
  ℕ, ◌≡◌, ◌≢◌, inl, inr, sym, subst, String, Option, none, some, List, [], ◌∷◌, ◌++◌, find, arith,
  ◌==◌, Bool-cases,
}
use wirechat_server.Effect.{ok, after}
use wirechat_server.Store.Types.{Room, RoomType, private_room}
use wirechat_server.Store.World.{World}
use wirechat_server.Store.Rooms as Table
use wirechat_server.Store.Rooms.{owned_by}
use wirechat_server.Http.Rooms.Owners.{owned_by-some}
use wirechat_server.Store.Rooms.Untouched.{SameRooms}
use wirechat_server.Http.Response.{Handler, world_of, call_then, reply, internal_error, message}
use wirechat_server.Http.Rooms
use wirechat_server.Http.Rooms.{
  create_error, add_creator, create_typed, requested_type, is_private, direct_of, direct_key, lower,
  upper,
}
use wirechat_server.Http.Server.Outsiders.{
  Outside, Same-Outside, call_then-Outside, create_room-Outside, add_member-Outside,
  remove_member-Outside, create_direct_room-Outside,
}

-- The handler leaves the rooms as they are, whatever its error.
unfoldable pub Quiet : {E : Type 0} → (E → Handler) → Type 0
Quiet {E} h = (e : E) (k : World) → world_of (h e k) ≡ k

create_error-Quiet : Quiet create_error
unfolding Quiet
create_error-Quiet e k = ground arith

found_room :
    (id : ℕ) (x : Room) (w k : World)
    → Table.get_room_by_id id w ≡ ok x k
    → find (λ (y : Room). y.id == id) w.db.rooms ≡ some x
unfolding Table.get_room_by_id
found_room id x w k e = ground arith

get_room_by_id-SameRooms : (id : ℕ) (w : World) → SameRooms w (after (Table.get_room_by_id id w))
unfolding Table.get_room_by_id
get_room_by_id-SameRooms id w = ground arith

find-id :
    (id : ℕ) (x : Room) (rs : List Room) → find (λ (y : Room). y.id == id) rs ≡ some x → x.id ≡ id
find-id id x [] e = ground arith
find-id id x (y ∷ rs) e = ground (arith, find-id id x rs)

create_room-id :
    (name : String) (type : RoomType) (owner : Option ℕ) (x : Room) (w k : World)
    → Table.create_room name type owner w ≡ ok x k
    → x.id ≡ w.db.next_room
unfolding Table.create_room Table.insert_room Table.get_room_by_id
create_room-id name type owner x w k e = ground (
  arith,
  find-id w.db.next_room x (
      w.db.rooms
      ++ record {
        id = w.db.next_room;
        name = name;
        type = type;
        owner_id = owner;
        direct_key = none;
        created_at = w.env.now w.ticks;
      }
        ∷ []),
)

module _ (v : ℕ) (r : Room) (w : World) (o : Outside v r w) where
  pub kept :
      {E : Type 0} (h : E → Handler)
      → Quiet h
      → (e : E) (k : World) → Outside v r k
      → Outside v r (world_of (h e k))
  unfolding Quiet
  kept h q e k p = subst (Outside v r) (sym (q e k)) p

  add-Outside :
      (u id : ℕ) (text : String) (k : World)
      → (u ≡ v → id ≢ r.id)
      → Outside v r k
      → Outside v r (
          world_of (
            call_then
              (Table.add_member u id)
              (λ _. internal_error)
              (λ _. reply 200 (message text))
              k))
  add-Outside u id text k n p =
      call_then-Outside v r (Table.add_member u id) (λ _. internal_error)
        (λ _. reply 200 (message text)) k (add_member-Outside v u id r k n p) (λ e j q. q)
        (λ a j t q. q)

  remove-Outside :
      (u id : ℕ) (text : String) (k : World)
      → Outside v r k
      → Outside v r (
          world_of (
            call_then
              (Table.remove_member u id)
              (λ _. internal_error)
              (λ _. reply 200 (message text))
              k))
  remove-Outside u id text k p =
      call_then-Outside v r (Table.remove_member u id) (λ _. internal_error)
        (λ _. reply 200 (message text)) k (remove_member-Outside v u id r k p) (λ e j q. q)
        (λ a j t q. q)

  looked : (id : ℕ) → Outside v r (after (Table.get_room_by_id id w))
  looked id =
      Same-Outside v r w (after (Table.get_room_by_id id w)) (get_room_by_id-SameRooms id w) o

  pub join_room-Outside :
      (u : ℕ) (id : Option ℕ)
      → r.type ≡ private_room
      → Outside v r (world_of (Rooms.join_room (some u) id w))
  unfolding Rooms.join_room
  join_room-Outside u none t = o
  join_room-Outside u (some id) t =
      call_then-Outside v r (Table.get_room_by_id id) _ _ w (looked id) (λ e k p. p)
        (λ x k q p. elim (Bool-cases (is_private x.type)) [
          | inl e ↦ rw e p
          | inr e ↦ rw e (
              add-Outside u id "joined room successfully" k
                (λ _ same. ground (arith, found_room id x w k q, o.0, t)) p)
        ])

  pub leave_room-Outside :
      (u : ℕ) (id : Option ℕ) → Outside v r (world_of (Rooms.leave_room (some u) id w))
  unfolding Rooms.leave_room
  leave_room-Outside u none = o
  leave_room-Outside u (some id) = remove-Outside u id "left room successfully" w o

  pub add_request-Outside :
      (u : ℕ) (id body : Option ℕ)
      → r.owner_id ≢ some u
      → Outside v r (world_of (Rooms.add_member (some u) id body w))
  unfolding Rooms.add_member
  add_request-Outside u none body n = o
  add_request-Outside u (some id) none n =
      call_then-Outside v r (Table.get_room_by_id id) _ _ w (looked id) (λ e k p. p)
        (λ x k q p. elim (Bool-cases (owned_by u x.owner_id)) [ inl e ↦ rw e p | inr e ↦ rw e p ])
  add_request-Outside u (some id) (some y) n =
      call_then-Outside v r (Table.get_room_by_id id) _ _ w (looked id) (λ e k p. p)
        (λ x k q p. elim (Bool-cases (owned_by u x.owner_id)) [
          | inr e ↦ rw e p
          | inl e ↦ rw e (
              add-Outside y id "member added successfully" k
                (λ _ same.
                  ground (arith, found_room id x w k q, o.0, n, owned_by-some u x.owner_id e))
                p)
        ])

  pub remove_request-Outside :
      (u : ℕ) (id target : Option ℕ)
      → Outside v r (world_of (Rooms.remove_member (some u) id target w))
  unfolding Rooms.remove_member
  remove_request-Outside u none target = o
  remove_request-Outside u (some id) none = o
  remove_request-Outside u (some id) (some y) =
      call_then-Outside v r (Table.get_room_by_id id) _ _ w (looked id) (λ e k p. p)
        (λ x k q p. elim (Bool-cases (owned_by u x.owner_id)) [
          | inr e ↦ rw e p
          | inl e ↦ rw e (remove-Outside y id "member removed successfully" k p)
        ])

  create_typed-Outside :
      (u : ℕ) (name : String) (t : Option RoomType)
      → Outside v r (world_of (create_typed u name t w))
  create_typed-Outside u name none = o
  create_typed-Outside u name (some t) =
      call_then-Outside v r (Table.create_room name t (some u)) create_error (add_creator t u) w
        (create_room-Outside v r name t (some u) w o)
        (λ e k p. kept create_error create_error-Quiet e k p)
        (λ x k q p. elim (Bool-cases (is_private t)) [
          | inr e ↦ rw e p
          | inl e ↦ rw e (
              call_then-Outside v r (Table.add_member u x.id) _ _ k
                (add_member-Outside v u x.id r k
                  (λ _ same. ground (arith, create_room-id name t (some u) x w k q, o.1)) p)
                (λ e j c. c) (λ a j t c. c))
        ])

  pub create_request-Outside :
      (u : ℕ) (body : Option Rooms.CreateRoomRequest)
      → Outside v r (world_of (Rooms.create_room (some u) body w))
  unfolding Rooms.create_room
  create_request-Outside u none = o
  create_request-Outside u (some req) = create_typed-Outside u req.name (requested_type req.type)

  direct_of-Outside : (a b : ℕ) → Outside v r (world_of (direct_of a b w))
  direct_of-Outside a b =
      call_then-Outside v r (Table.create_direct_room (direct_key w a b) a b) _ _ w
        (create_direct_room-Outside v a b r (direct_key w a b) w o) (λ e k p. p) (λ x k q p. p)

  pub direct-Outside :
      (u : ℕ) (body : Option ℕ) → Outside v r (world_of (Rooms.create_direct_room (some u) body w))
  unfolding Rooms.create_direct_room
  direct-Outside u none = o
  direct-Outside u (some y) = elim (Bool-cases (y == u)) [
    | inl e ↦ rw e o
    | inr e ↦ rw e (direct_of-Outside (lower u y) (upper u y))
  ]
