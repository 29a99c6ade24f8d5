-- ===== src/Http/Rooms/Joining.antt =====
-- internal/transport/http/room_handlers.go and ws_handler.go: joining by REST, and then over the socket.
use wirechat_server.Common.{
  ℕ, ◌+◌, true, ◌≡◌, inl, inr, some, find, any, arith, str_eq, ◌==◌, Bool-cases,
}
use wirechat_server.Effect.{ok}
use wirechat_server.Store.Types.{Room, RoomMember, direct_room}
use wirechat_server.Store.World.{World, IsQuiet}
use wirechat_server.Store.Rooms as Table
use wirechat_server.Store.Rooms.{is_member_row}
use wirechat_server.Hub.Types.{Client}
use wirechat_server.Http.Response.{Response, status_of, world_of}
use wirechat_server.Http.Rooms.{join_room, create_direct_room}
use wirechat_server.Http.Rooms.Owners.{any-append_row, is_in}
use wirechat_server.Http.Socket.{admit}

-- It does not matter which of two users asks for their direct room: both requests do the same, and
-- give the same answer.
pub create_direct_room_comm :
    (u v : ℕ) (w : World)
    → create_direct_room (some u) (some v) w ≡ create_direct_room (some v) (some u) w
unfolding create_direct_room
create_direct_room_comm u v w = ground arith

-- While the driver does not fail, any user may join a direct room that exists, also one of two
-- other users: the request answers 200, the user is a member afterwards, and the socket then lets
-- the user join the room by its name, if no other room has that name.
pub join_room-admit :
    (x : Client) (r : Room) (w : World)
    → IsQuiet w
    → find (λ (y : Room). y.id == r.id) w.db.rooms ≡ some r
    → find (λ (y : Room). str_eq y.name r.name) w.db.rooms ≡ some r
    → r.type ≡ direct_room
    → let joined : Response × World = join_room (some x.user_id) (some r.id) w in
      (status_of joined ≡ 200)
      × (is_in x.user_id r.id (world_of joined) ≡ true)
      × (admit x r.name (world_of joined)
          ≡ ok tt (let v : World = world_of joined in record v { ticks = v.ticks + 2 }))
unfolding join_room admit Table.get_room_by_id Table.add_member Table.get_room_by_name
    Table.is_member
join_room-admit x r w q f g t =
    elim (Bool-cases (any (is_member_row x.user_id r.id) w.db.room_members)) [
      | inl e ↦ ground (arith, q w.ticks, q (w.ticks + 1), q (w.ticks + 2), q (w.ticks + 3))
      | inr n ↦
          let m : RoomMember = record {
            user_id = x.user_id;
            room_id = r.id;
            joined_at = w.env.now (w.ticks + 1);
          } in
          ground (
            arith,
            q w.ticks,
            q (w.ticks + 1),
            q (w.ticks + 2),
            q (w.ticks + 3),
            any-append_row x.user_id r.id w.db.room_members m (ground arith),
          )
    ]
