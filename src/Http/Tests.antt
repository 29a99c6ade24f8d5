-- ===== src/Http/Tests.antt =====
-- internal/transport/http on small databases.
use Prim.Native.String.{◌++◌ as concat}
use wirechat_server.Common.{
  ◌≢◌, inl, eq_iff, ℕ, ◌+◌, ◌≤◌, ◌≡◌, ◌⊎◌, inr, refl, String, Bool, true, false, none, some, List,
  [], ◌∷◌, length, ap, str_eq, arith, All,
}
use wirechat_server.Effect.{ok}
use wirechat_server.Store.Types.{Room, RoomType, direct_room}
use wirechat_server.Store.Types as Kept
use wirechat_server.Store.World.{World, Db}
use wirechat_server.Store.Samples.{sample, sample_db, sample_env, never}
use wirechat_server.Auth.{Claims, new_claims, generate_token, validate_token}
use wirechat_server.Auth.Samples.{readable, readable-JwtLaws, config, put_claims}
use wirechat_server.Hub.Types.{Client, new_client, Command, Message}
use wirechat_server.Proto.{Inbound, HelloData}
use wirechat_server.Hub.Types.{Event}
use wirechat_server.Hub.Samples.{den_hub, den_hub-WellFormed, den_hub-Served}
use wirechat_server.Hub.Served.{Does}
use wirechat_server.Hub.Delivery.{Reaches}
use wirechat_server.Hub.Loop.{handle_command}
use wirechat_server.Http.Delivery.{read-Reaches}
use wirechat_server.Proto.{Payload, EventMessage}
use wirechat_server.Http.Response.{Response, status_of, world_of}
use wirechat_server.Http.Server.{Request}
use wirechat_server.Http.Server.Members.{after_all, after_all-read}
use wirechat_server.Http.Server.Guard.{Refused, Handled, serve_guards}
use wirechat_server.Http.Mapper.{outbound_from_event, an_event}
use wirechat_server.Http.Socket.{
  forwards, Session, new_session, read, read_loop, handle_hello, hello_done, as_user, admit,
}
use wirechat_server.Http.Socket.Identity.{handle_hello-generate_token, handle_hello_checks}
use wirechat_server.Http.Socket.Rate.{total, joins_of, messages_of, read_loop-Bounded}
use wirechat_server.Http.Rooms.{get_messages, join_room, add_member, remove_member}
use wirechat_server.Http.Rooms.Owners.{OwnerOnly, is_in, members_change_by_owner}
use wirechat_server.Http.Rooms.Pages.{
  Wanted, answer, get_messages-Bounded, get_messages-drops_newest,
}
use wirechat_server.Http.Rooms.Joining.{join_room-admit}

abbrev small : World
small = sample never [] [] []

abbrev a_message : ℕ → Kept.Message
a_message n = record { id = n; room_id = 4; user_id = 1; body = "hi"; created_at = n }

-- A direct room of the first two users, and three messages in the other room.
abbrev busy : World
busy =
    let db : Db = sample_db [] [] [] in
    record {
      db = record db {
        rooms =
            record {
              id = 5;
              name = "dm-1-2";
              type = direct_room;
              owner_id = none;
              direct_key = some "dm:1:2";
              created_at = 3;
            }
            ∷ db.rooms;
        messages = a_message 1 ∷ a_message 2 ∷ a_message 3 ∷ [];
      };
      ticks = 0;
      env = sample_env never;
    }

abbrev cyd : Client
cyd = let x : Client = new_client "0123456789" "cyd" 3 false in x

abbrev ann_token : String
ann_token = put_claims "s" (new_claims config 1 "ann" false 100)

abbrev blank : String → Inbound
blank type = record {
  type = type;
  as_hello = none;
  as_join = none;
  as_msg = none;
  as_invite = none;
  as_action = none;
}

abbrev hello : Inbound
hello =
    let m : Inbound = blank "hello" in
    record m { as_hello = some (record { user = ""; token = ann_token; protocol = 1 }) }

abbrev say : Inbound
say =
    let m : Inbound = blank "msg" in
    record m { as_msg = some (record { room = "den"; text = "hi" }) }

abbrev said : Message
said = record { id = 0; room = "den"; from = "cyd"; text = "hi"; created_at = 100 }

abbrev session : Session
session = new_session 1 1 false cyd small

abbrev ann_header : String
ann_header = concat "Bearer " ann_token

serve_guards_example :
    Refused readable config none ann_header Request.list_rooms small
    ⊎ Handled readable config none ann_header Request.list_rooms small
serve_guards_example = serve_guards readable config none ann_header Request.list_rooms small

hello_of_ann :
    handle_hello readable config true cyd hello 105
    ≡ hello_done (record cyd { user_id = 1; name = "ann"; is_guest = false })
unfolding generate_token readable put_claims
hello_of_ann =
    handle_hello-generate_token readable config true cyd hello
      (record { user = ""; token = ann_token; protocol = 1 }) 1 100 105 "ann" false readable-JwtLaws
      refl (inr refl)
      (λ e. let f : ◌≡◌ {A = Bool} false true = ap (λ s. str_eq s "") e in ground arith) refl
      (omega arith)

handle_hello_checks_example :
    ((c : Claims) × (d : HelloData) × (hello.as_hello ≡ some d)
      × (validate_token readable config 105 d.token ≡ some c)
      × ((record cyd { user_id = 1; name = "ann"; is_guest = false }) ≡ as_user c cyd))
    ⊎ ((◌≡◌ {A = Bool} true false) × (◌≡◌ {A = Bool} false true) × (◌≡◌ {A = ℕ} 1 3))
unfolding new_client
handle_hello_checks_example =
    handle_hello_checks readable config true cyd
      (record cyd { user_id = 1; name = "ann"; is_guest = false }) hello 105 hello_of_ann

read_loop-Bounded_example :
    (total readable config false joins_of
        (read_loop readable config false session (say ∷ say ∷ [])).0
      ≤ 1)
    × (total readable config false messages_of
          (read_loop readable config false session (say ∷ say ∷ [])).0
        ≤ 1)
unfolding wirechat_server.Http.Limiter.new_limiter
read_loop-Bounded_example =
    read_loop-Bounded readable config false session (say ∷ say ∷ []) (ground arith) (ground arith)

members_change_by_owner_example :
    OwnerOnly 2 (some 4) small (add_member (some 2) (some 4) (some 3) small)
    × OwnerOnly 2 (some 4) small (remove_member (some 2) (some 4) (some 3) small)
members_change_by_owner_example = members_change_by_owner 2 (some 4) (some 3) small

abbrev den : Room
den = record {
  id = 4;
  name = "den";
  type = RoomType.private_room;
  owner_id = some 1;
  direct_key = none;
  created_at = 2;
}

get_messages-Bounded_example :
    (ms : List Kept.Message) × (get_messages (some 4) (some 2) none busy ≡ answer ms true busy)
    × (length ms ≡ 2)
    × (1 ≤ 2)
    × (2 ≤ 100)
    × All (Wanted 4 none) ms
get_messages-Bounded_example = get_messages-Bounded 4 (some 2) none busy refl

get_messages-drops_newest_example :
    get_messages (some 4) (some 2) none busy ≡ answer (a_message 1 ∷ a_message 2 ∷ []) true busy
get_messages-drops_newest_example =
    get_messages-drops_newest 4 (some 2) none busy (a_message 3) (a_message 2 ∷ a_message 1 ∷ [])
      refl refl (omega arith)

join_room-admit_example :
    let joined : Response × World = join_room (some 3) (some 5) busy in
    (status_of joined ≡ 200)
    × (is_in 3 5 (world_of joined) ≡ true)
    × (admit cyd "dm-1-2" (world_of joined)
        ≡ ok tt (let v : World = world_of joined in record v { ticks = v.ticks + 2 }))
unfolding new_client
join_room-admit_example =
    join_room-admit cyd
      (record {
        id = 5;
        name = "dm-1-2";
        type = direct_room;
        owner_id = none;
        direct_key = some "dm:1:2";
        created_at = 3;
      })
      busy (λ n. refl) refl refl refl

abbrev ann : Session
ann = new_session 1 1 false (den_hub.heap 1) small

read-Reaches_example :
    (k : Command) × (e : Event) × (o : EventMessage) × ((read readable config false ann say).0
      ≡ forwards k)
    × Does (Reaches "den" e den_hub) (handle_command none 1 k den_hub)
    × (outbound_from_event e ≡ some (an_event "message" (Payload.message o)))
    × (o.room ≡ "den")
    × (o.user ≡ "ann")
    × (o.text ≡ "hi")
unfolding new_client wirechat_server.Http.Limiter.allow wirechat_server.Http.Limiter.new_limiter
read-Reaches_example =
    read-Reaches readable config false none ann say (record { room = "den"; text = "hi" }) 1 den_hub
      den_hub-WellFormed den_hub-Served refl refl refl (ground (arith, eq_iff "den" "")) refl
      (inl refl) refl

-- What two others try to get the third user into the private room.
abbrev attempts : List (ℕ × Request)
attempts =
    (3, Request.join_room (some 4))
    ∷ (2, Request.add_member (some 4) (some 3))
    ∷ (3, Request.create_direct_room (some 1))
    ∷ []

abbrev knock : Inbound
knock = let m : Inbound = blank "join" in record m { as_join = some (record { room = "den" }) }

after_all-read_example :
    (read readable config false
      (record session { world = after_all readable config none attempts small })
      knock)
    ≢ (forwards (Command.join_room "den"), session)
unfolding new_client
after_all-read_example =
    after_all-read readable config none 3 den attempts false
      (record session { world = after_all readable config none attempts small }) session knock small
      refl (ground arith, (ground arith, (ground arith, tt))) (refl, omega arith, refl, refl) refl
      refl
