-- ===== src/Http/Server/Quiet.antt =====
-- internal/transport/http: the parts of the handlers that leave rooms and members alone.
use wirechat_server.Common.{ℕ, ◌≡◌, refl, sym, subst, String, Option, List, [], ◌∷◌, arith}
use wirechat_server.Effect.{Action, after}
use wirechat_server.Store.Types.{Room, Friend}
use wirechat_server.Store.World.{World}
use wirechat_server.Store.Users as Users
use wirechat_server.Store.Messages.{list_messages}
use wirechat_server.Store.Rooms as Table
use wirechat_server.Store.Rooms.{owned_by}
use wirechat_server.Store.Rooms.Untouched.{SameRooms}
use wirechat_server.Http.Response.{Handler, world_of, call_then}
use wirechat_server.Http.Friends.{
  send_error, answer_error, block_error, unblock_error, friend_to_response, to_responses,
}
use wirechat_server.Http.Calls.{direct_error, room_error, get_error, join_error, end_error}
use wirechat_server.Http.Server.Privacy.{Quiet}
use wirechat_server.Http.Server.Outsiders.{Outside, Same-Outside, call_then-Outside}

pub answers :
    {A : Type 0} (h : A → Handler) → ((a : A) (k : World) → world_of (h a k) ≡ k) → Quiet h
unfolding Quiet
answers h q = q

-- A call that leaves the rooms alone, between an error and an answer that do.
pub call_then-Quiet :
    {E A : Type 0} (v : ℕ) (r : Room) (m : Action World E A) (bad : E → Handler)
    (good : A → Handler) (w : World)
    → Quiet bad
    → Quiet good
    → SameRooms w (after (m w))
    → Outside v r w
    → Outside v r (world_of (call_then m bad good w))
unfolding Quiet
call_then-Quiet v r m bad good w b g s o =
    call_then-Outside v r m bad good w (Same-Outside v r w (after (m w)) s o)
      (λ e k p. subst (Outside v r) (sym (b e k)) p)
      (λ a k q p. subst (Outside v r) (sym (g a k)) p)

pub send_error-Quiet : Quiet send_error
unfolding Quiet
send_error-Quiet e k = ground arith

pub answer_error-Quiet : Quiet answer_error
unfolding Quiet
answer_error-Quiet e k = ground arith

pub block_error-Quiet : Quiet block_error
unfolding Quiet
block_error-Quiet e k = ground arith

pub unblock_error-Quiet : Quiet unblock_error
unfolding Quiet
unblock_error-Quiet e k = ground arith

pub direct_error-Quiet : Quiet direct_error
unfolding Quiet
direct_error-Quiet e k = ground arith

pub room_error-Quiet : Quiet room_error
unfolding Quiet
room_error-Quiet e k = ground arith

pub get_error-Quiet : Quiet get_error
unfolding Quiet
get_error-Quiet e k = ground arith

pub join_error-Quiet : Quiet join_error
unfolding Quiet
join_error-Quiet e k = ground arith

pub end_error-Quiet : Quiet end_error
unfolding Quiet
end_error-Quiet e k = ground arith

pub friend_to_response-SameRooms :
    (f : Friend) (u : ℕ) (w : World) → SameRooms w (after (friend_to_response f u w))
unfolding friend_to_response Users.get_user_by_id
friend_to_response-SameRooms f u w = ground arith

pub to_responses-SameRooms :
    (fs : List Friend) (u : ℕ) (w : World) → SameRooms w (after (to_responses fs u w))
unfolding to_responses
to_responses-SameRooms [] u w = (refl, refl, refl)
to_responses-SameRooms (f ∷ fs) u w =
    grind (arith, friend_to_response-SameRooms f u w, to_responses-SameRooms fs u)

pub list_messages-SameRooms :
    (rid n : ℕ) (before : Option ℕ) (w : World) → SameRooms w (after (list_messages rid n before w))
unfolding list_messages
list_messages-SameRooms rid n before w = ground arith

pub list_rooms-SameRooms : (u : ℕ) (w : World) → SameRooms w (after (Table.list_rooms u w))
unfolding Table.list_rooms
list_rooms-SameRooms u w = ground arith

pub search_users-SameRooms : (q : String) (w : World) → SameRooms w (after (Users.search_users q w))
unfolding Users.search_users
search_users-SameRooms q w = ground arith
