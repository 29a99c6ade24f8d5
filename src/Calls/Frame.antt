-- ===== src/Calls/Frame.antt =====
-- internal/service/calls/service.go: the steps that leave the table of calls alone.
use wirechat_server.Common.{ℕ, ◌≡◌, arith}
use wirechat_server.Effect.{Attempt, after}
use wirechat_server.Engine.{Engine}
use wirechat_server.Store.Types.{Call, CallParticipant, AllowCallsFrom}
use wirechat_server.Store.World.{World, DbError}
use wirechat_server.Store.Users.{get_user_by_id}
use wirechat_server.Store.Rooms.{is_member}
use wirechat_server.Store.Friends as Friends
use wirechat_server.Store.Calls.{has_id}
use wirechat_server.Store.Calls as Table
use wirechat_server.Calls.{mark_joined, admit, credentials, check_privacy, join_existing}
use wirechat_server.Friends.{is_friend}

pub admit-calls :
    (c : Call) (user : ℕ) (found : Attempt DbError CallParticipant) (w : World)
    → (after (admit c user found w)).db.calls ≡ w.db.calls
unfolding admit is_member Table.add_participant
admit-calls c user found w = ground arith

pub mark_joined-calls :
    (p : CallParticipant) (w : World) → (after (mark_joined p w)).db.calls ≡ w.db.calls
unfolding mark_joined Table.update_participant
mark_joined-calls p w = ground arith

pub credentials-calls :
    (engine : Engine) (user : ℕ) (c : Call) (w : World)
    → (after (credentials engine user c w)).db.calls ≡ w.db.calls
unfolding credentials get_user_by_id
credentials-calls engine user c w = ground arith

pub add_participant-calls :
    (p : CallParticipant) (w : World) → (after (Table.add_participant p w)).db.calls ≡ w.db.calls
unfolding Table.add_participant
add_participant-calls p w = ground arith

pub check_privacy-calls :
    (u v : ℕ) (s : AllowCallsFrom) (w : World)
    → (after (check_privacy u v s w)).db.calls ≡ w.db.calls
unfolding check_privacy is_friend Friends.is_friend
check_privacy-calls u v s w = ground arith

pub join_existing-calls :
    (c : Call) (u : ℕ) (w : World) → (after (join_existing c u w)).db.calls ≡ w.db.calls
unfolding join_existing Table.get_participant Table.add_participant
join_existing-calls c u w = ground arith
