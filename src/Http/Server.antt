-- ===== src/Http/Server.antt =====
-- internal/transport/http/server.go: the routes, and which of them the middleware guards.
pub mod Guard
pub mod Outsiders
pub mod Privacy
pub mod Quiet
pub mod Routes
pub mod Members
use wirechat_server.Common.{ℕ, String, Bool, true, false, Option, none, some, List}
use wirechat_server.Store.World.{World}
use wirechat_server.Engine.{Engine}
use wirechat_server.Auth.{Claims, JwtConfig, Crypto}
use wirechat_server.Http.Response.{Handler, reply, message, empty}
use wirechat_server.Http.Rooms
use wirechat_server.Http.Rooms.{CreateRoomRequest}
use wirechat_server.Http.Accounts
use wirechat_server.Http.Accounts.{Credentials, auth_middleware}
use wirechat_server.Http.Friends
use wirechat_server.Http.Calls

-- A request for a route behind the middleware, with its body and its parameters as the handler decodes them.
pub data Request : Type 0 where
  create_room : Option CreateRoomRequest → Request
  list_rooms : Request
  create_direct_room : Option ℕ → Request
  join_room leave_room : Option ℕ → Request
  add_member remove_member : Option ℕ → Option ℕ → Request
  get_messages : Option ℕ → Option ℕ → Option ℕ → Request
  send_request : Option ℕ → Request
  list_friends list_pending_requests : Request
  accept_request reject_request block_user unblock_user : Option ℕ → Request
  search_users : String → Request
  create_direct_call create_room_call : Option ℕ → Request
  list_active_calls : Request
  get_call get_join_info end_call : String → Request

-- The public routes of the API.
pub data Open : Type 0 where
  preflight ping guest_login : Open
  register login : Option Credentials → Open

module _ (lib : Crypto) (cfg : JwtConfig) (engine : Option Engine) where
  unfoldable pub serve_open : Open → Handler
  serve_open preflight = reply 204 empty
  serve_open ping = reply 200 (message "pong")
  serve_open (register body) = Accounts.register lib cfg body
  serve_open (login body) = Accounts.login lib cfg body
  serve_open guest_login = Accounts.guest_login lib cfg

  -- The handler of a route, for the user that the context names.
  unfoldable pub handle : Option ℕ → Request → Handler
  handle u (create_room body) = Rooms.create_room u body
  handle u list_rooms = Rooms.list_rooms u
  handle u (create_direct_room body) = Rooms.create_direct_room u body
  handle u (join_room id) = Rooms.join_room u id
  handle u (leave_room id) = Rooms.leave_room u id
  handle u (add_member id body) = Rooms.add_member u id body
  handle u (remove_member id target) = Rooms.remove_member u id target
  handle u (get_messages id limit before) = Rooms.get_messages id limit before
  handle u (send_request body) = Friends.send_request u body
  handle u list_friends = Friends.list_friends u
  handle u list_pending_requests = Friends.list_pending_requests u
  handle u (accept_request id) = Friends.accept_request u id
  handle u (reject_request id) = Friends.reject_request u id
  handle u (block_user id) = Friends.block_user u id
  handle u (unblock_user id) = Friends.unblock_user u id
  handle u (search_users query) = Accounts.search_users u query
  handle u (create_direct_call body) = Calls.create_direct_call engine u body
  handle u (create_room_call body) = Calls.create_room_call engine u body
  handle u list_active_calls = Calls.list_active_calls u
  handle u (get_call id) = Calls.get_call id
  handle u (get_join_info id) = Calls.get_join_info engine u id
  handle u (end_call id) = Calls.end_call u id

  unfoldable pub serve : String → Request → Handler
  serve header req = auth_middleware lib cfg header (λ c. handle (some c.user_id) req)
