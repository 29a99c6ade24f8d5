-- ===== src/Store/Rooms/Untouched.antt =====
-- The tables of rooms and members of internal/store/sqlite/sqlite.go, left alone.
use wirechat_server.Common.{◌≡◌}
use wirechat_server.Store.World.{World}

-- Rooms, members and the next room's id are as before.
abbrev pub SameRooms : World → World → Type 0
SameRooms w k =
    (k.db.rooms ≡ w.db.rooms)
    × (k.db.room_members ≡ w.db.room_members)
    × (k.db.next_room ≡ w.db.next_room)
