-- ===== src/Store/Tests.antt =====
-- internal/store/sqlite/sqlite.go on a small database.
use wirechat_server.Common.{[], ◌==◌}
use wirechat_server.Effect.{after}
use wirechat_server.Store.World.{World}
use wirechat_server.Store.Samples.{sample}
use wirechat_server.Store.Rooms.{create_direct_room}
use wirechat_server.Store.Rooms.Direct.{Whole, create_direct_room-Whole}

-- The driver fails at the second member.
abbrev failing : World
failing = sample (λ n. n == 4) [] [] []

create_direct_room-Whole_example :
    Whole "dm:1:2" 1 2 failing (after (create_direct_room "dm:1:2" 1 2 failing))
create_direct_room-Whole_example = create_direct_room-Whole "dm:1:2" 1 2 failing
