-- ===== src/Http/Rooms.antt =====
-- internal/transport/http/room_handlers.go: rooms, their members and their messages.
pub mod Owners
pub mod Pages
pub mod Joining
use Prim.Native.String.{◌++◌ as concat}
use wirechat_server.Common.{
  ℕ, ◌+◌, String, Bool, true, false, not, ◌||◌, Option, none, some, List, map, length, take, ltb,
  ◌==◌, str_eq, if◌then◌else◌,
}
use wirechat_server.Effect.{ok, err}
use wirechat_server.Store.Types.{
  Room, RoomType, public_room, private_room, direct_room, channel_room, Message,
}
use wirechat_server.Store.World.{World, DbError, no_rows, constraint, no_row_updated, driver}
use wirechat_server.Store.Rooms as Table
use wirechat_server.Store.Messages.{list_messages}
use wirechat_server.Http.Response.{
  Handler, RoomResponse, MessageResponse, reply, refuse, internal_error, either, with_user,
  with_body, with_id, call_then, room, rooms, message, messages,
}

pub record CreateRoomRequest : Type 0 where
  pub name : String
  pub type : String

abbrev pub to_room : Room → RoomResponse
to_room r = record {
  id = r.id;
  name = r.name;
  type = r.type;
  owner_id = r.owner_id;
  created_at = r.created_at;
}

-- `switch req.Type`, with the default for an empty one.
abbrev pub requested_type : String → Option RoomType
requested_type t =
    if str_eq t ""
    then some public_room
    else if str_eq t "public"
    then some public_room
    else if str_eq t "private"
    then some private_room
    else none

abbrev pub is_private : RoomType → Bool
is_private private_room = true
is_private _ = false

abbrev pub create_error : DbError → Handler
create_error constraint = refuse 409 "room with this name already exists"
create_error no_rows = internal_error
create_error no_row_updated = internal_error
create_error driver = internal_error

-- The creator of a private room becomes a member of it, and an error there is only logged.
abbrev pub add_creator : RoomType → ℕ → Room → Handler
add_creator type u r =
    either (is_private type)
      (call_then (Table.add_member u r.id) (λ _. reply 201 (room (to_room r)))
        (λ _. reply 201 (room (to_room r))))
      (reply 201 (room (to_room r)))

abbrev pub create_typed : ℕ → String → Option RoomType → Handler
create_typed u name none = refuse 400 "invalid room type, must be 'public' or 'private'"
create_typed u name (some type) =
    call_then (Table.create_room name type (some u)) create_error (add_creator type u)

unfoldable pub create_room : Option ℕ → Option CreateRoomRequest → Handler
create_room user body =
    with_user user λ u. with_body body λ req. create_typed u req.name (requested_type req.type)

unfoldable pub list_rooms : Option ℕ → Handler
list_rooms user = with_user user λ u.
    call_then (Table.list_rooms u) (λ _. internal_error) (λ rs. reply 200 (rooms (map to_room rs)))

unfoldable pub join_room : Option ℕ → Option ℕ → Handler
join_room user id = with_user user λ u. with_id id "invalid room id" λ rid.
    call_then (Table.get_room_by_id rid) (λ _. refuse 404 "room not found")
      λ r. either (is_private r.type) (refuse 403 "private rooms cannot be joined directly") (
        call_then (Table.add_member u rid) (λ _. internal_error)
          (λ _. reply 200 (message "joined room successfully")))

unfoldable pub leave_room : Option ℕ → Option ℕ → Handler
leave_room user id = with_user user λ u. with_id id "invalid room id" λ rid.
    call_then (Table.remove_member u rid) (λ _. internal_error)
      (λ _. reply 200 (message "left room successfully"))

unfoldable pub add_member : Option ℕ → Option ℕ → Option ℕ → Handler
add_member user id body = with_user user λ u. with_id id "invalid room id" λ rid.
    call_then (Table.get_room_by_id rid) (λ _. refuse 404 "room not found")
      λ r.
        either (not (Table.owned_by u r.owner_id)) (refuse 403 "only room owner can add members") (
          with_body body λ v.
            call_then (Table.add_member v rid) (λ _. internal_error)
              (λ _. reply 200 (message "member added successfully")))

unfoldable pub remove_member : Option ℕ → Option ℕ → Option ℕ → Handler
remove_member user id target = with_user user λ u. with_id id "invalid room id" λ rid.
    with_id target "invalid user id" λ v.
      call_then (Table.get_room_by_id rid) (λ _. refuse 404 "room not found")
        λ r.
          either (not (Table.owned_by u r.owner_id))
            (refuse 403 "only room owner can remove members")
            (call_then (Table.remove_member v rid) (λ _. internal_error)
              (λ _. reply 200 (message "member removed successfully")))

-- `dm:{minUserId}:{maxUserId}`
abbrev pub direct_key : World → ℕ → ℕ → String
direct_key w u v = concat "dm:" (concat (w.env.itoa u) (concat ":" (w.env.itoa v)))

abbrev pub lower : ℕ → ℕ → ℕ
lower u v = if ltb u v then u else v

abbrev pub upper : ℕ → ℕ → ℕ
upper u v = if ltb u v then v else u

abbrev pub direct_of : ℕ → ℕ → Handler
direct_of u v w =
    call_then (Table.create_direct_room (direct_key w u v) u v) (λ _. internal_error)
      (λ r. reply 200 (room (to_room r))) w

unfoldable pub create_direct_room : Option ℕ → Option ℕ → Handler
create_direct_room user body = with_user user λ u. with_body body λ v.
    either (v == u) (refuse 400 "cannot create direct room with yourself")
      (direct_of (lower u v) (upper u v))

-- The query parameter `limit`, where it can be read as a number: a negative one counts as 0 does.
abbrev pub page_limit : Option ℕ → ℕ
page_limit none = 50
page_limit (some n) = if n == 0 then 50 else if ltb 100 n then 100 else n

abbrev pub to_message : Message → MessageResponse
to_message m = record {
  id = m.id;
  room_id = m.room_id;
  user_id = m.user_id;
  user = "";
  body = m.body;
  created_at = m.created_at;
}

-- `hasMore := len(messages) > limit`, and the slice.
abbrev pub page : ℕ → List Message → List Message
page limit ms = if ltb limit (length ms) then take limit ms else ms

unfoldable pub get_messages : Option ℕ → Option ℕ → Option ℕ → Handler
get_messages id limit before = with_id id "invalid room id" λ rid.
    call_then (list_messages rid (page_limit limit + 1) before) (λ _. internal_error)
      λ ms. reply 200 (
        messages (record {
          messages = map to_message (page (page_limit limit) ms);
          has_more = ltb (page_limit limit) (length ms);
        }))
