-- ===== src/Http/Server/Members.antt =====
-- internal/transport/http: a private room under all routes.
use wirechat_server.Common.{ℕ, Bool, sym, subst, arith, ◌≡◌, ◌≢◌, Option, some, List, [], ◌∷◌, All}
use wirechat_server.Engine.{Engine}
use wirechat_server.Auth.{JwtConfig, Crypto}
use wirechat_server.Store.Types.{Room, private_room}
use wirechat_server.Store.World.{World}
use wirechat_server.Friends as FriendsService
use wirechat_server.Friends.RoomsKept.{list_friends-SameRooms, list_pending_requests-SameRooms}
use wirechat_server.Http.Response.{world_of}
use wirechat_server.Http.Friends
use wirechat_server.Http.Server.{
  Request, create_room, list_rooms, create_direct_room, join_room, leave_room, add_member,
  remove_member, get_messages, send_request, list_friends, list_pending_requests, accept_request,
  reject_request, block_user, unblock_user, search_users, create_direct_call, create_room_call,
  list_active_calls, get_call, get_join_info, end_call, handle,
}
use wirechat_server.Hub.Types.{Command}
use wirechat_server.Proto.{Inbound}
use wirechat_server.Http.Socket.{Session, read, forwards}
use wirechat_server.Http.Socket.Allowed.{MayJoin, Enters, read_forwards}
use wirechat_server.Http.Server.Outsiders.{Outside}
use wirechat_server.Http.Server.Privacy.{
  join_room-Outside, leave_room-Outside, add_request-Outside, remove_request-Outside,
  create_request-Outside, direct-Outside,
}
use wirechat_server.Http.Server.Routes.{
  send_request-Outside, listed-Outside, accept_request-Outside, reject_request-Outside,
  block_user-Outside, unblock_user-Outside, search_users-Outside, create_direct_call-Outside,
  create_room_call-Outside, get_call-Outside, get_join_info-Outside, end_call-Outside,
  list_rooms-Outside, get_messages-Outside, list_active_calls-Outside,
}

closed :
    (u v : ℕ) (r : Room) (w : World)
    → Outside v r w
    → u ≡ v
    → r.type ≡ private_room
    → MayJoin u r.name w
    → ⊥
closed u v r w o q t (x, f, a) =
    let e : x ≡ r = ground (arith, f, o.3) in
    let b : Enters u r.type r.id w = subst (λ (z : Room). Enters u z.type z.id w) e a in
    let c : Enters u private_room r.id w = subst (λ y. Enters u y r.id w) t b in
    ground (arith, c, o.2, q)

module _ (lib : Crypto) (cfg : JwtConfig) (engine : Option Engine) where
  handle-Outside :
      (u v : ℕ) (r : Room) (req : Request) (w : World)
      → r.type ≡ private_room
      → r.owner_id ≢ some u
      → Outside v r w
      → Outside v r (world_of (handle lib cfg engine (some u) req w))
  unfolding handle Friends.list_friends Friends.list_pending_requests
  handle-Outside u v r (create_room body) w t n o = create_request-Outside v r w o u body
  handle-Outside u v r list_rooms w t n o = list_rooms-Outside v r w o u
  handle-Outside u v r (create_direct_room body) w t n o = direct-Outside v r w o u body
  handle-Outside u v r (join_room id) w t n o = join_room-Outside v r w o u id t
  handle-Outside u v r (leave_room id) w t n o = leave_room-Outside v r w o u id
  handle-Outside u v r (add_member id body) w t n o = add_request-Outside v r w o u id body n
  handle-Outside u v r (remove_member id target) w t n o =
      remove_request-Outside v r w o u id target
  handle-Outside u v r (get_messages id limit before) w t n o =
      get_messages-Outside v r w o id limit before
  handle-Outside u v r (send_request body) w t n o = send_request-Outside v r w o u body
  handle-Outside u v r list_friends w t n o =
      listed-Outside v r w o u (FriendsService.list_friends u) (list_friends-SameRooms u w)
  handle-Outside u v r list_pending_requests w t n o =
      listed-Outside v r w o u (FriendsService.list_pending_requests u)
        (list_pending_requests-SameRooms u w)
  handle-Outside u v r (accept_request id) w t n o = accept_request-Outside v r w o u id
  handle-Outside u v r (reject_request id) w t n o = reject_request-Outside v r w o u id
  handle-Outside u v r (block_user id) w t n o = block_user-Outside v r w o u id
  handle-Outside u v r (unblock_user id) w t n o = unblock_user-Outside v r w o u id
  handle-Outside u v r (search_users query) w t n o = search_users-Outside v r w o u query
  handle-Outside u v r (create_direct_call body) w t n o =
      create_direct_call-Outside v r w o engine u body
  handle-Outside u v r (create_room_call body) w t n o =
      create_room_call-Outside v r w o engine u body
  handle-Outside u v r list_active_calls w t n o = list_active_calls-Outside v r w o u
  handle-Outside u v r (get_call id) w t n o = get_call-Outside v r w o id
  handle-Outside u v r (get_join_info id) w t n o = get_join_info-Outside v r w o engine u id
  handle-Outside u v r (end_call id) w t n o = end_call-Outside v r w o u id

  -- The world after the requests of some users, one after the other.
  abbrev pub after_all : List (ℕ × Request) → World → World
  after_all [] w = w
  after_all ((u, req) ∷ reqs) w = after_all reqs (world_of (handle lib cfg engine (some u) req w))

  -- Let a private room be stored under its id and its name, with an id below the next one, and a
  -- user be no member of it. Then, wherever the driver fails, after any sequence of requests for
  -- the routes behind the middleware, none of them by the room's owner, the room is stored as
  -- before, its id is below the next one, and the user is no member of it.
  pub after_all-Outside :
      (v : ℕ) (r : Room) (reqs : List (ℕ × Request)) (w : World)
      → r.type ≡ private_room
      → All (λ (p : ℕ × Request). r.owner_id ≢ some p.0) reqs
      → Outside v r w
      → Outside v r (after_all reqs w)
  after_all-Outside v r [] w t n o = o
  after_all-Outside v r ((u, req) ∷ reqs) w t (n, ns) o =
      after_all-Outside v r reqs _ t ns (handle-Outside u v r req w t n o)

  -- Let a private room be stored under its id and its name, with an id below the next one, and a
  -- user be no member of it. Then, wherever the driver fails, after any sequence of requests for
  -- the routes behind the middleware, none of them by the room's owner, no connection of the user,
  -- with that store, forwards to the hub a command to join the room.
  pub after_all-read :
      (v : ℕ) (r : Room) (reqs : List (ℕ × Request)) (required : Bool) (s t : Session) (m : Inbound)
      (w : World)
      → r.type ≡ private_room
      → All (λ (p : ℕ × Request). r.owner_id ≢ some p.0) reqs
      → Outside v r w
      → s.world ≡ after_all reqs w
      → s.client.user_id ≡ v
      → (read lib cfg required s m) ≢ (forwards (Command.join_room r.name), t)
  after_all-read v r reqs required s t m w p n o q u e =
      let out : Outside v r s.world =
        subst (Outside v r) (sym q) (after_all-Outside v r reqs w p n o) in
      closed s.client.user_id v r s.world out u p
        (read_forwards lib cfg required s t m (Command.join_room r.name) e).2
