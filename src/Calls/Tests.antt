-- ===== src/Calls/Tests.antt =====
-- Runs of internal/service/calls/service.go on small databases.
use wirechat_server.Common.{◌≡◌, refl, true, ◌||◌, some, arith, [], ◌∷◌}
use wirechat_server.Engine.{Engine, livekit}
use wirechat_server.Store.Types.{Call, CallParticipant, room_call, ringing, active, is_live}
use wirechat_server.Store.World.{World}
use wirechat_server.Store.Samples.{sample, never, call_row_of, participant_row}
use wirechat_server.Store.Calls as Table
use wirechat_server.Store.Rooms.{is_member}
use wirechat_server.Store.Users.{get_user_by_id}
use wirechat_server.Calls.{
  leave_call, get_join_info, join_call, admit_and_enter, admit, enter_call, mark_joined,
  mark_active, credentials,
}
use wirechat_server.Calls.Lifecycle.{call_row}
use wirechat_server.Calls.Emptied.{left_empty, leave_call-ends}
use wirechat_server.Calls.Rejoined.{rejoined_call_ends}
use wirechat_server.Effect.{after, succeeds}
use wirechat_server.Calls.Access.{is_invited, is_room_member, get_join_info_access}

-- A LiveKit server whose library signs every grant.
abbrev server : Engine
server = livekit (record { ws_url = "ws://lk"; sign = λ r i n. some "token"; itoa = λ n. "n" })

abbrev ringing_call : Call
ringing_call = call_row_of "c1" room_call 1 (some 4) ringing

abbrev busy : World
busy = sample never [] (ringing_call ∷ []) (participant_row 5 "c1" 1 ∷ [])

get_join_info_access_example :
    (is_live ringing ≡ true)
    × ((is_invited busy 2 ringing_call || is_room_member busy 2 ringing_call) ≡ true)
unfolding get_join_info join_call admit_and_enter admit enter_call mark_joined mark_active
    credentials livekit is_member get_user_by_id Table.get_call Table.get_participant
    Table.add_participant Table.update_participant Table.update_call
get_join_info_access_example = get_join_info_access server "c1" 2 busy ringing_call refl refl

-- Ann is in an active call, which Bob has left.
abbrev going : Call
going = call_row_of "c1" room_call 1 (some 4) active

abbrev ann : CallParticipant
ann = participant_row 5 "c1" 1

abbrev bob : CallParticipant
bob = record (participant_row 6 "c1" 2) { left_at = some 3 }

abbrev last_one : World
last_one = sample never [] (going ∷ []) (ann ∷ bob ∷ [])

leave_call-ends_example :
    (succeeds (leave_call "c1" 1 last_one) ≡ true)
    × (call_row "c1" (after (leave_call "c1" 1 last_one)) ≡ some (left_empty going last_one))
leave_call-ends_example = leave_call-ends "c1" 1 ann going last_one (λ n. refl) refl refl refl

rejoined_call_ends_example :
    let t = after (get_join_info (some server) "c1" 2 last_one) in
    call_row "c1" (after (leave_call "c1" 1 t)) ≡ some (left_empty going t)
rejoined_call_ends_example =
    rejoined_call_ends server "c1" 1 2 ann bob going last_one (λ n. refl) (λ e. ground (arith, e))
      refl refl refl refl refl
