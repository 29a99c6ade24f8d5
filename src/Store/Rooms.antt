-- ===== src/Store/Rooms.antt =====
-- internal/store/sqlite/sqlite.go, the tables `rooms` and `room_members`.
pub mod Direct
pub mod Untouched
use Prim.Native.String.{◌++◌ as concat}
use wirechat_server.Common.{
  ℕ, ◌+◌, String, Bool, false, not, ◌&&◌, ◌||◌, Option, none, some, List, ◌++◌, [], ◌∷◌, map, find,
  any, select, order_desc, order_asc, ◌==◌, str_eq, if◌then◌else◌,
}
use wirechat_server.Effect.{ok, err, Attempt, got, failed, attempt, fail, pure, ◌>>=◌, ◌>>◌}
use wirechat_server.Store.Types.{Room, RoomType, direct_room, RoomMember, is_public}
use wirechat_server.Store.World.{World, Sql, DbError, no_rows, constraint, statement, transaction}

-- The INSERT into `rooms`: `name` is UNIQUE, and so is `direct_key` where it is not NULL.
abbrev pub key_is : Option String → Option String → Bool
key_is (some k) (some j) = str_eq j k
key_is _ _ = false

unfoldable pub insert_room : String → RoomType → Option ℕ → Option String → Sql ℕ
insert_room name type owner key = statement λ db now.
    if any (λ r. str_eq r.name name || key_is key r.direct_key) db.rooms
    then err constraint db
    else ok db.next_room (record db {
      rooms =
          db.rooms
          ++ record {
            id = db.next_room;
            name = name;
            type = type;
            owner_id = owner;
            direct_key = key;
            created_at = now;
          }
            ∷ [];
      next_room = db.next_room + 1;
    })

unfoldable pub get_room_by_id : ℕ → Sql Room
get_room_by_id id =
    statement
      λ db _. elim (find (λ r. r.id == id) db.rooms) [ none ↦ err no_rows db | some r ↦ ok r db ]

unfoldable pub create_room : String → RoomType → Option ℕ → Sql Room
create_room name type owner = do id ← insert_room name type owner none; get_room_by_id id

unfoldable pub get_room_by_name : String → Sql Room
get_room_by_name name = statement λ db _. elim (find (λ r. str_eq r.name name) db.rooms) [
  | none ↦ err no_rows db
  | some r ↦ ok r db
]

unfoldable pub get_room_by_direct_key : String → Sql Room
get_room_by_direct_key key = statement λ db _.
    elim (find (λ r. key_is (some key) r.direct_key) db.rooms) [
      | none ↦ err no_rows db
      | some r ↦ ok r db
    ]

abbrev pub is_member_row : ℕ → ℕ → RoomMember → Bool
is_member_row u r m = m.user_id == u && m.room_id == r

abbrev pub owned_by : ℕ → Option ℕ → Bool
owned_by u none = false
owned_by u (some v) = v == u

-- `SELECT DISTINCT` over the LEFT JOIN with the members.
unfoldable pub list_rooms : ℕ → Sql (List Room)
list_rooms u = statement λ db _.
    ok
      (order_desc (λ r. r.created_at)
        (select
          (λ r.
            is_public r.type || any (is_member_row u r.id) db.room_members || owned_by u r.owner_id)
          db.rooms))
      db

-- The INSERT into `room_members`, whose primary key is the pair.
unfoldable pub insert_member : ℕ → ℕ → Sql (Unit {0})
insert_member u r = statement λ db now.
    if any (is_member_row u r) db.room_members
    then err constraint db
    else ok tt (record db {
      room_members = db.room_members ++ record { user_id = u; room_id = r; joined_at = now } ∷ [];
    })

-- `INSERT OR IGNORE`.
unfoldable pub add_member : ℕ → ℕ → Sql (Unit {0})
add_member u r = statement λ db now.
    if any (is_member_row u r) db.room_members
    then ok tt db
    else ok tt (record db {
      room_members = db.room_members ++ record { user_id = u; room_id = r; joined_at = now } ∷ [];
    })

unfoldable pub remove_member : ℕ → ℕ → Sql (Unit {0})
remove_member u r = statement λ db _.
    ok tt (record db { room_members = select (λ m. not (is_member_row u r m)) db.room_members })

unfoldable pub is_member : ℕ → ℕ → Sql Bool
is_member u r = statement λ db _. ok (any (is_member_row u r) db.room_members) db

unfoldable pub list_members : ℕ → Sql (List ℕ)
list_members r = statement λ db _.
    ok
      (map (λ m. m.user_id)
        (order_asc (λ m. m.joined_at) (select (λ m. m.room_id == r) db.room_members)))
      db

-- The body of the transaction of CreateDirectRoom.
direct_rows : String → String → ℕ → ℕ → Sql ℕ
unfolding insert_room insert_member
direct_rows name key u v = do
  id ← insert_room name direct_room none (some key)
  insert_member u id
  insert_member v id
  pure id

-- `dm-{user1}-{user2}`
abbrev pub direct_name : World → ℕ → ℕ → String
direct_name w u v = concat "dm-" (concat (w.env.itoa u) (concat "-" (w.env.itoa v)))

make_direct : String → ℕ → ℕ → Sql Room
unfolding direct_rows
make_direct key u v w =
    (do id ← transaction (direct_rows (direct_name w u v) key u v); get_room_by_id id) w

direct_unless : String → ℕ → ℕ → Attempt DbError Room → Sql Room
unfolding make_direct
direct_unless key u v (got r) = pure r
direct_unless key u v (failed no_rows) = make_direct key u v
direct_unless key u v (failed e) = fail e

unfoldable pub create_direct_room : String → ℕ → ℕ → Sql Room
unfolding direct_unless
create_direct_room key u v = do
  existing ← attempt (get_room_by_direct_key key)
  direct_unless key u v existing
