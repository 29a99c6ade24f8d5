-- ===== src/Calls/RoomsKept.antt =====
-- internal/service/calls/service.go leaves the rooms and their members alone.
use wirechat_server.Common.{ℕ, refl, String, Option, none, some, arith}
use wirechat_server.Effect.{Attempt, attempt, after, after->>=, ◌>>=◌}
use wirechat_server.Engine.{Engine}
use wirechat_server.Store.Types.{Call, CallParticipant, AllowCallsFrom, direct_call, room_call}
use wirechat_server.Store.World.{World, DbError}
use wirechat_server.Store.Users.{get_user_by_id, get_user_call_settings}
use wirechat_server.Store.Rooms.{get_room_by_id, is_member}
use wirechat_server.Store.Rooms.Untouched.{SameRooms}
use wirechat_server.Store.Friends as Friends
use wirechat_server.Store.Calls as Table
use wirechat_server.Calls.{
  get_call, end_call, list_active_calls, get_join_info, create_direct_call, create_room_call,
  mark_joined, mark_active, admit, credentials, check_privacy, join_existing, enter_call, join_call,
  admit_and_enter, register_call, start_direct, start_room, room_unless, new_call,
}
use wirechat_server.Friends.{is_friend}

module _ (w : World) where
  admit-SameRooms :
      (c : Call) (user : ℕ) (found : Attempt DbError CallParticipant)
      → SameRooms w (after (admit c user found w))
  unfolding admit is_member Table.add_participant
  admit-SameRooms c user found = ground arith

  mark_joined-SameRooms : (p : CallParticipant) → SameRooms w (after (mark_joined p w))
  unfolding mark_joined Table.update_participant
  mark_joined-SameRooms p = ground arith

  mark_active-SameRooms : (c : Call) → SameRooms w (after (mark_active c w))
  unfolding mark_active Table.update_call
  mark_active-SameRooms c = ground arith

  credentials-SameRooms :
      (engine : Engine) (user : ℕ) (c : Call) → SameRooms w (after (credentials engine user c w))
  unfolding credentials get_user_by_id
  credentials-SameRooms engine user c = ground arith

  add_participant-SameRooms :
      (p : CallParticipant) → SameRooms w (after (Table.add_participant p w))
  unfolding Table.add_participant
  add_participant-SameRooms p = ground arith

  check_privacy-SameRooms :
      (u v : ℕ) (s : AllowCallsFrom) → SameRooms w (after (check_privacy u v s w))
  unfolding check_privacy is_friend Friends.is_friend
  check_privacy-SameRooms u v s = ground arith

  join_existing-SameRooms : (c : Call) (u : ℕ) → SameRooms w (after (join_existing c u w))
  unfolding join_existing Table.get_participant Table.add_participant
  join_existing-SameRooms c u = ground arith

  register_call-SameRooms :
      (engine : Engine) (c : Call) → SameRooms w (after (register_call engine c w))
  unfolding register_call Table.create_call
  register_call-SameRooms engine c = ground arith

  pub get_call-SameRooms : (id : String) → SameRooms w (after (get_call id w))
  unfolding get_call Table.get_call
  get_call-SameRooms id = ground arith

  pub list_active_calls-SameRooms : (u : ℕ) → SameRooms w (after (list_active_calls u w))
  unfolding list_active_calls Table.list_active_calls
  list_active_calls-SameRooms u = ground arith

  pub end_call-SameRooms : (id : String) (u : ℕ) → SameRooms w (after (end_call id u w))
  unfolding end_call Table.get_call Table.get_participant Table.update_call
  end_call-SameRooms id u = ground arith

enter_call-SameRooms :
    (engine : Engine) (user : ℕ) (c : Call) (p : CallParticipant) (w : World)
    → SameRooms w (after (enter_call engine c user p w))
unfolding enter_call
enter_call-SameRooms engine user c p w =
    grind (arith, mark_joined-SameRooms w p, mark_active-SameRooms, credentials-SameRooms)

admitted-SameRooms :
    (engine : Engine) (user : ℕ) (c : Call) (found : Attempt DbError CallParticipant) (w : World)
    → SameRooms w (after ((admit c user found >>= λ p. enter_call engine c user p) w))
admitted-SameRooms engine user c found w =
    after->>= (SameRooms w) (admit c user found) (λ p. enter_call engine c user p) w
      (λ p v h.
        ground (arith, h, admit-SameRooms w c user found, enter_call-SameRooms engine user c p v))
      (λ x v h. ground (arith, h, admit-SameRooms w c user found))

admit_and_enter-SameRooms :
    (engine : Engine) (user : ℕ) (c : Call) (w : World)
    → SameRooms w (after (admit_and_enter engine user c w))
unfolding admit_and_enter Table.get_participant
admit_and_enter-SameRooms engine user c w =
    after->>= (SameRooms w) (attempt (Table.get_participant c.id user))
      (λ found. admit c user found >>= λ p. enter_call engine c user p) w
      (λ found v h. ground (arith, h, admitted-SameRooms engine user c found v))
      (λ x v h. ground (arith, h))

join_call-SameRooms :
    (engine : Engine) (user : ℕ) (c : Call) (w : World)
    → SameRooms w (after (join_call engine user c w))
unfolding join_call
join_call-SameRooms engine user c w = ground (arith, admit_and_enter-SameRooms engine user c w)

pub get_join_info-SameRooms :
    (engine : Option Engine) (id : String) (user : ℕ) (w : World)
    → SameRooms w (after (get_join_info engine id user w))
unfolding get_join_info Table.get_call
get_join_info-SameRooms none id user w = (refl, refl, refl)
get_join_info-SameRooms (some engine) id user w = grind (arith, join_call-SameRooms engine user)

start_direct-SameRooms :
    (engine : Engine) (u v : ℕ) (w : World) → SameRooms w (after (start_direct engine u v w))
unfolding start_direct
start_direct-SameRooms engine u v w =
    after->>= (SameRooms w) (register_call engine (new_call direct_call u none w)) _ w
      (λ c t h. grind (
        arith,
        h,
        register_call-SameRooms w engine (new_call direct_call u none w),
        add_participant-SameRooms,
      ))
      (λ x t h. ground (arith, h, register_call-SameRooms w engine (new_call direct_call u none w)))

pub create_direct_call-SameRooms :
    (engine : Option Engine) (u v : ℕ) (w : World)
    → SameRooms w (after (create_direct_call engine u v w))
unfolding create_direct_call get_user_by_id get_user_call_settings
create_direct_call-SameRooms none u v w = (refl, refl, refl)
create_direct_call-SameRooms (some engine) u v w =
    grind (arith, check_privacy-SameRooms, start_direct-SameRooms engine u v)

start_room-SameRooms :
    (engine : Engine) (u r : ℕ) (w : World) → SameRooms w (after (start_room engine u r w))
unfolding start_room
start_room-SameRooms engine u r w =
    after->>= (SameRooms w) (register_call engine (new_call room_call u (some r) w)) _ w
      (λ c t h. grind (
        arith,
        h,
        register_call-SameRooms w engine (new_call room_call u (some r) w),
        add_participant-SameRooms,
      ))
      (λ x t h.
        ground (arith, h, register_call-SameRooms w engine (new_call room_call u (some r) w)))

room_unless-SameRooms :
    (engine : Engine) (u r : ℕ) (c : Option Call) (w : World)
    → SameRooms w (after (room_unless engine u r c w))
unfolding room_unless
room_unless-SameRooms engine u r (some c) w = join_existing-SameRooms w c u
room_unless-SameRooms engine u r none w = start_room-SameRooms engine u r w

pub create_room_call-SameRooms :
    (engine : Option Engine) (u r : ℕ) (w : World)
    → SameRooms w (after (create_room_call engine u r w))
unfolding create_room_call get_room_by_id is_member Table.get_active_call_for_room
create_room_call-SameRooms none u r w = (refl, refl, refl)
create_room_call-SameRooms (some engine) u r w = grind (arith, room_unless-SameRooms engine u)
