-- ===== src/Calls/Lifecycle.antt =====
-- internal/service/calls/service.go moves a call only along the status machine, whatever the driver
-- does on the way.
use wirechat_server.Common.{
  ℕ, ◌≡◌, refl, ◌+◌, String, true, Option, none, some, find, arith, Option-cases, inl, inr,
}
use wirechat_server.Effect.{Attempt, after, attempt, after->>=, ◌>>=◌}
use wirechat_server.Engine.{Engine}
use wirechat_server.Store.Types.{
  Call, CallStatus, ringing, active, ended, failed_call, CallParticipant, direct_call, room_call,
}
use wirechat_server.Store.World.{World, DbError, clock}
use wirechat_server.Store.Users.{get_user_by_id, get_user_call_settings}
use wirechat_server.Store.Rooms.{get_room_by_id, is_member}
use wirechat_server.Store.Calls.{has_id}
use wirechat_server.Store.Calls as Table
use wirechat_server.Store.Calls.Rows.{
  Follows, Follows-refl, Follows-append, Follows-update, may_step,
}
use wirechat_server.Calls.{
  end_call, reject_call, leave_call, get_join_info, create_direct_call, create_room_call,
  ended_call, mark_active, admit, close_empty, enter_call, join_call, admit_and_enter,
  register_call, start_direct, start_room, room_unless, new_call,
}
use wirechat_server.Calls.Frame.{
  admit-calls, mark_joined-calls, credentials-calls, add_participant-calls, check_privacy-calls,
  join_existing-calls,
}

abbrev pub call_row : String → World → Option Call
call_row id w = find (has_id id) w.db.calls

abbrev pub Steps : String → World → World → Type 0
Steps id w v = Follows (call_row id w) (call_row id v)

may_step-ended : (s : CallStatus) → may_step s ended ≡ true
may_step-ended ringing = refl
may_step-ended active = refl
may_step-ended ended = refl
may_step-ended failed_call = refl

pub end_call-Steps : (id k : String) (user : ℕ) (w : World) → Steps id w (after (end_call k user w))
unfolding end_call Table.get_call Table.get_participant Table.update_call
end_call-Steps id k user w = elim (Option-cases (call_row k w)) [
  | inl e ↦ ground (arith, Follows-refl (call_row id w))
  | inr (c, e) ↦ ground (
    arith,
    Follows-refl (call_row id w),
    may_step-ended c.status,
    Follows-update id k c (ended_call c (w.env.now (w.ticks + 1 + 1))) (w.env.now (w.ticks + 1 + 1))
        w.db.calls,
  )
]

pub reject_call-Steps :
    (id k : String) (user : ℕ) (reason : String) (w : World)
    → Steps id w (after (reject_call k user reason w))
unfolding reject_call Table.get_call Table.get_participant Table.update_call
    Table.update_participant
reject_call-Steps id k user reason w = elim (Option-cases (call_row k w)) [
  | inl e ↦ ground (arith, Follows-refl (call_row id w))
  | inr (c, e) ↦ ground (
    arith,
    Follows-refl (call_row id w),
    may_step-ended c.status,
    Follows-update id k c (ended_call c (w.env.now (w.ticks + 1 + 1))) (w.env.now (w.ticks + 1 + 1))
        w.db.calls,
  )
]

close_empty-Steps : (id k : String) (now : ℕ) (w : World) → Steps id w (after (close_empty k now w))
unfolding close_empty Table.get_call Table.update_call
close_empty-Steps id k now w = elim (Option-cases (call_row k w)) [
  | inl e ↦ ground (arith, Follows-refl (call_row id w))
  | inr (c, e) ↦ ground (
    arith,
    Follows-refl (call_row id w),
    may_step-ended c.status,
    Follows-update id k c (ended_call c now) (w.env.now (w.ticks + 1)) w.db.calls,
  )
]

pub leave_call-Steps :
    (id k : String) (user : ℕ) (w : World) → Steps id w (after (leave_call k user w))
unfolding leave_call Table.get_participant Table.update_participant Table.list_participants
leave_call-Steps id k user w = grind (arith, Follows-refl (call_row id w), close_empty-Steps id k)

mark_active-Steps :
    (id k : String) (c : Call) (w : World)
    → call_row k w ≡ some c
    → Steps id w (after (mark_active c w))
unfolding mark_active Table.update_call
mark_active-Steps id k c w e = ground (
  arith,
  Follows-refl (call_row id w),
  Follows-update id k c (record c { status = active; updated_at = clock w }) (clock w) w.db.calls,
)

enter_call-Steps :
    (engine : Engine) (id k : String) (user : ℕ) (c : Call) (p : CallParticipant) (w : World)
    → call_row k w ≡ some c
    → Steps id w (after (enter_call engine c user p w))
unfolding enter_call
enter_call-Steps engine id k user c p w e = grind (
  arith,
  Follows-refl (call_row id w),
  mark_joined-calls p w,
  mark_active-Steps id k c,
  credentials-calls,
)

admitted-Steps :
    (engine : Engine) (id k : String) (user : ℕ) (c : Call)
    (found : Attempt DbError CallParticipant) (w : World)
    → call_row k w ≡ some c
    → Steps id w (after ((admit c user found >>= λ p. enter_call engine c user p) w))
admitted-Steps engine id k user c found w e =
    after->>= (Steps id w) (admit c user found) (λ p. enter_call engine c user p) w
      (λ p v h.
        ground (arith, h, admit-calls c user found w, enter_call-Steps engine id k user c p v))
      (λ x v h. ground (arith, h, admit-calls c user found w, Follows-refl (call_row id w)))

admit_and_enter-Steps :
    (engine : Engine) (id k : String) (user : ℕ) (c : Call) (w : World)
    → call_row k w ≡ some c
    → Steps id w (after (admit_and_enter engine user c w))
unfolding admit_and_enter Table.get_participant
admit_and_enter-Steps engine id k user c w e =
    after->>= (Steps id w) (attempt (Table.get_participant c.id user))
      (λ found. admit c user found >>= λ p. enter_call engine c user p) w
      (λ found v h. ground (arith, h, admitted-Steps engine id k user c found v))
      (λ x v h. ground (arith, h))

join_call-Steps :
    (engine : Engine) (id k : String) (user : ℕ) (c : Call) (w : World)
    → call_row k w ≡ some c
    → Steps id w (after (join_call engine user c w))
unfolding join_call
join_call-Steps engine id k user c w e =
    ground (arith, Follows-refl (call_row id w), admit_and_enter-Steps engine id k user c w e)

pub get_join_info-Steps :
    (engine : Option Engine) (id k : String) (user : ℕ) (w : World)
    → Steps id w (after (get_join_info engine k user w))
unfolding get_join_info Table.get_call
get_join_info-Steps none id k user w = Follows-refl (call_row id w)
get_join_info-Steps (some engine) id k user w = elim (Option-cases (call_row k w)) [
  | inl e ↦ ground (arith, Follows-refl (call_row id w))
  | inr (c, e) ↦ grind (arith, Follows-refl (call_row id w), join_call-Steps engine id k user c)
]

register_call-Steps :
    (engine : Engine) (id : String) (c : Call) (w : World)
    → Steps id w (after (register_call engine c w))
unfolding register_call Table.create_call
register_call-Steps engine id c w = grind (arith, Follows-refl (call_row id w), Follows-append id)

start_direct-Steps :
    (engine : Engine) (id : String) (u v : ℕ) (w : World)
    → Steps id w (after (start_direct engine u v w))
unfolding start_direct
start_direct-Steps engine id u v w =
    after->>= (Steps id w) (register_call engine (new_call direct_call u none w)) _ w
      (λ c t h. grind (
        arith,
        h,
        register_call-Steps engine id (new_call direct_call u none w) w,
        add_participant-calls,
      ))
      (λ x t h. ground (arith, h, register_call-Steps engine id (new_call direct_call u none w) w))

pub create_direct_call-Steps :
    (engine : Option Engine) (id : String) (u v : ℕ) (w : World)
    → Steps id w (after (create_direct_call engine u v w))
unfolding create_direct_call get_user_by_id get_user_call_settings
create_direct_call-Steps none id u v w = Follows-refl (call_row id w)
create_direct_call-Steps (some engine) id u v w =
    grind (
      arith,
      Follows-refl (call_row id w),
      check_privacy-calls u v,
      start_direct-Steps engine id u v,
    )

start_room-Steps :
    (engine : Engine) (id : String) (u r : ℕ) (w : World)
    → Steps id w (after (start_room engine u r w))
unfolding start_room
start_room-Steps engine id u r w =
    after->>= (Steps id w) (register_call engine (new_call room_call u (some r) w)) _ w
      (λ c t h. grind (
        arith,
        h,
        register_call-Steps engine id (new_call room_call u (some r) w) w,
        add_participant-calls,
      ))
      (λ x t h.
        ground (arith, h, register_call-Steps engine id (new_call room_call u (some r) w) w))

room_unless-Steps :
    (engine : Engine) (id : String) (u r : ℕ) (c : Option Call) (w : World)
    → Steps id w (after (room_unless engine u r c w))
unfolding room_unless
room_unless-Steps engine id u r (some c) w =
    ground (arith, Follows-refl (call_row id w), join_existing-calls c u w)
room_unless-Steps engine id u r none w = start_room-Steps engine id u r w

pub create_room_call-Steps :
    (engine : Option Engine) (id : String) (u r : ℕ) (w : World)
    → Steps id w (after (create_room_call engine u r w))
unfolding create_room_call get_room_by_id is_member Table.get_active_call_for_room
create_room_call-Steps none id u r w = Follows-refl (call_row id w)
create_room_call-Steps (some engine) id u r w =
    grind (arith, Follows-refl (call_row id w), room_unless-Steps engine id u)
