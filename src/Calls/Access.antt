-- ===== src/Calls/Access.antt =====
-- internal/service/calls/service.go: who may start a call, and who is let into one.
use wirechat_server.Common.{
  ℕ, ◌≡◌, ◌≢◌, ◌||◌, ◌&&◌, ◌==◌, is_some, any-find, String, Bool, true, false, none, some, find,
  any, arith,
}
use wirechat_server.Effect.{failed, succeeds, after}
use wirechat_server.Engine.{Engine}
use wirechat_server.Store.Types.{
  Call, room_call, direct_call, friends_only, accepted, status_eq, is_live,
}
use wirechat_server.Store.World.{World, UserRow, DbError}
use wirechat_server.Store.Users.{get_user_by_id, get_user_call_settings}
use wirechat_server.Store.Rooms.{is_member, is_member_row}
use wirechat_server.Store.Calls.{is_participant}
use wirechat_server.Store.Calls as Table
use wirechat_server.Store.Friends as Friends
use wirechat_server.Friends.{is_friend}
use wirechat_server.Store.Friends.{is_between}
use wirechat_server.Calls.{
  get_join_info, create_direct_call, join_call, admit_and_enter, admit, check_privacy,
}
use wirechat_server.Calls.Lifecycle.{call_row}

-- The user of a room call is a member of its room.
abbrev pub is_room_member : World → ℕ → Call → Bool
is_room_member w user c = elim c.type [
  | direct_call ↦ false
  | room_call ↦ elim c.room_id [
    | none ↦ false
    | some r ↦ any (is_member_row user r) w.db.room_members
  ]
]

abbrev pub is_invited : World → ℕ → Call → Bool
is_invited w user c = any (is_participant c.id user) w.db.participants

admit-IsAdmitted :
    (c : Call) (user : ℕ) (e : DbError) (w : World)
    → succeeds (admit c user (failed e) w) ≡ true
    → is_room_member w user c ≡ true
unfolding admit is_member
admit-IsAdmitted c user e w h = ground arith

-- If credentials for a stored call are handed out to a user, then the call was ringing or active
-- before, and the user was a participant, or a member of the room of a room call.
pub get_join_info_access :
    (engine : Engine) (k : String) (user : ℕ) (w : World) (c : Call)
    → call_row k w ≡ some c
    → succeeds (get_join_info (some engine) k user w) ≡ true
    → (is_live c.status ≡ true) × ((is_invited w user c || is_room_member w user c) ≡ true)
unfolding get_join_info Table.get_call join_call admit_and_enter Table.get_participant admit
    is_member
get_join_info_access engine k user w c e h =
    ground (arith, any-find (is_participant c.id user) w.db.participants)

-- If a direct call is created, the callee is another user and exists, and if the callee takes calls
-- from friends only, an accepted friendship stands between the two, in either direction.
pub create_direct_call_access :
    (engine : Engine) (from to : ℕ) (w : World)
    → succeeds (create_direct_call (some engine) from to w) ≡ true
    → (from ≢ to)
      × (is_some (find (λ (r : UserRow). r.user.id == to) w.db.users) ≡ true)
      × ((r : UserRow)
          → find (λ (x : UserRow). x.user.id == to) w.db.users ≡ some r
          → r.allow_calls_from ≡ friends_only
          → any (λ f. is_between from to f && status_eq f.status accepted) w.db.friends ≡ true)
unfolding create_direct_call get_user_by_id get_user_call_settings check_privacy is_friend
    Friends.is_friend
create_direct_call_access engine from to w h = (ground arith, ground arith, λ r e f. ground arith)

-- The user takes calls from friends only, and the two are no friends.
abbrev pub Shuns : ℕ → ℕ → World → Type 0
Shuns to from w =
    (r : UserRow) × (find (λ (x : UserRow). x.user.id == to) w.db.users ≡ some r)
    × (r.allow_calls_from ≡ friends_only)
    × (any (λ f. is_between from to f && status_eq f.status accepted) w.db.friends ≡ false)

-- No call is made, wherever the driver fails.
pub create_direct_call-Shuns :
    (engine : Engine) (from to : ℕ) (w : World)
    → Shuns to from w
    → (succeeds (create_direct_call (some engine) from to w) ≡ false)
      × ((after (create_direct_call (some engine) from to w)).db ≡ w.db)
unfolding create_direct_call get_user_by_id get_user_call_settings check_privacy is_friend
    Friends.is_friend
create_direct_call-Shuns engine from to w (r, f, a, b) = (ground arith, ground arith)
