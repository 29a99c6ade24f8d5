-- ===== src/Calls/Running.antt =====
-- internal/service/calls/service.go: a room has at most one running call.
use wirechat_server.Common.{
  ℕ, ◌≡◌, refl, ◌+◌, String, false, Option, none, some, List, find, any, arith, Option-cases, inl,
  inr, ◌==◌, [], ◌∷◌, order_desc, select,
}
use wirechat_server.Effect.{Attempt, attempt, after, after->>=, ◌>>=◌}
use wirechat_server.Engine.{Engine}
use wirechat_server.Store.Types.{
  Call, ringing, active, CallParticipant, direct_call, room_call, Room,
}
use wirechat_server.Store.World.{World, DbError, clock}
use wirechat_server.Store.Users.{get_user_by_id, get_user_call_settings}
use wirechat_server.Store.Rooms.{get_room_by_id, is_member}
use wirechat_server.Store.Calls.{has_id, is_live_in, first}
use wirechat_server.Store.Calls as Table
use wirechat_server.Store.Calls.Rows.{find_self}
use wirechat_server.Store.Calls.Running.{
  OneRunning, clashes, OneRunning-append, OneRunning-update, first-order,
}
use wirechat_server.Calls.{
  end_call, reject_call, leave_call, get_join_info, create_direct_call, create_room_call,
  ended_call, close_empty, mark_active, enter_call, join_call, admit_and_enter, admit,
  register_call, start_direct, start_room, room_unless, new_call,
}
use wirechat_server.Calls.Frame.{
  admit-calls, mark_joined-calls, credentials-calls, add_participant-calls, check_privacy-calls,
  join_existing-calls,
}
use wirechat_server.Calls.Lifecycle.{call_row}
use wirechat_server.Calls.History.{
  Request, directs, rooms, joins, ends, leaves, rejects, serve, run,
}

abbrev pub IsOrderly : World → Type 0
IsOrderly w = OneRunning w.db.calls

end_call-IsOrderly :
    (k : String) (user : ℕ) (w : World) → IsOrderly w → IsOrderly (after (end_call k user w))
unfolding end_call Table.get_call Table.get_participant Table.update_call
end_call-IsOrderly k user w h = elim (Option-cases (call_row k w)) [
  | inl e ↦ ground arith
  | inr (c, e) ↦ ground (
    arith,
    find_self k w.db.calls c e,
    OneRunning-update c.id c (ended_call c (w.env.now (w.ticks + 1 + 1)))
        (w.env.now (w.ticks + 1 + 1)) w.db.calls,
  )
]

reject_call-IsOrderly :
    (k : String) (user : ℕ) (reason : String) (w : World)
    → IsOrderly w
    → IsOrderly (after (reject_call k user reason w))
unfolding reject_call Table.get_call Table.get_participant Table.update_call
    Table.update_participant
reject_call-IsOrderly k user reason w h = elim (Option-cases (call_row k w)) [
  | inl e ↦ ground arith
  | inr (c, e) ↦ ground (
    arith,
    find_self k w.db.calls c e,
    OneRunning-update c.id c (ended_call c (w.env.now (w.ticks + 1 + 1)))
        (w.env.now (w.ticks + 1 + 1)) w.db.calls,
  )
]

close_empty-IsOrderly :
    (k : String) (now : ℕ) (w : World) → IsOrderly w → IsOrderly (after (close_empty k now w))
unfolding close_empty Table.get_call Table.update_call
close_empty-IsOrderly k now w h = elim (Option-cases (call_row k w)) [
  | inl e ↦ ground arith
  | inr (c, e) ↦ ground (
    arith,
    find_self k w.db.calls c e,
    OneRunning-update c.id c (ended_call c now) (w.env.now (w.ticks + 1)) w.db.calls,
  )
]

leave_call-IsOrderly :
    (k : String) (user : ℕ) (w : World) → IsOrderly w → IsOrderly (after (leave_call k user w))
unfolding leave_call Table.get_participant Table.update_participant Table.list_participants
leave_call-IsOrderly k user w h = grind (arith, close_empty-IsOrderly k)

mark_active-IsOrderly :
    (k : String) (c : Call) (w : World)
    → call_row k w ≡ some c
    → IsOrderly w
    → IsOrderly (after (mark_active c w))
unfolding mark_active Table.update_call
mark_active-IsOrderly k c w e h = ground (
  arith,
  find_self k w.db.calls c e,
  OneRunning-update c.id c (record c { status = active; updated_at = clock w }) (clock w)
      w.db.calls,
)

enter_call-IsOrderly :
    (engine : Engine) (k : String) (user : ℕ) (c : Call) (p : CallParticipant) (w : World)
    → call_row k w ≡ some c
    → IsOrderly w
    → IsOrderly (after (enter_call engine c user p w))
unfolding enter_call
enter_call-IsOrderly engine k user c p w e h =
    grind (arith, mark_joined-calls p w, mark_active-IsOrderly k c, credentials-calls)

admitted-IsOrderly :
    (engine : Engine) (k : String) (user : ℕ) (c : Call) (found : Attempt DbError CallParticipant)
    (w : World)
    → call_row k w ≡ some c
    → IsOrderly w
    → IsOrderly (after ((admit c user found >>= λ p. enter_call engine c user p) w))
admitted-IsOrderly engine k user c found w e s =
    after->>= IsOrderly (admit c user found) (λ p. enter_call engine c user p) w
      (λ p v h.
        ground (arith, h, admit-calls c user found w, enter_call-IsOrderly engine k user c p v))
      (λ x v h. ground (arith, h, admit-calls c user found w))

admit_and_enter-IsOrderly :
    (engine : Engine) (k : String) (user : ℕ) (c : Call) (w : World)
    → call_row k w ≡ some c
    → IsOrderly w
    → IsOrderly (after (admit_and_enter engine user c w))
unfolding admit_and_enter Table.get_participant
admit_and_enter-IsOrderly engine k user c w e s =
    after->>= IsOrderly (attempt (Table.get_participant c.id user))
      (λ found. admit c user found >>= λ p. enter_call engine c user p) w
      (λ found v h. ground (arith, h, admitted-IsOrderly engine k user c found v))
      (λ x v h. ground (arith, h))

get_join_info-IsOrderly :
    (engine : Option Engine) (k : String) (user : ℕ) (w : World)
    → IsOrderly w
    → IsOrderly (after (get_join_info engine k user w))
unfolding get_join_info Table.get_call join_call
get_join_info-IsOrderly none k user w s = s
get_join_info-IsOrderly (some engine) k user w s = elim (Option-cases (call_row k w)) [
  | inl e ↦ ground arith
  | inr (c, e) ↦ grind (arith, admit_and_enter-IsOrderly engine k user c)
]

register_call-IsOrderly :
    (engine : Engine) (c : Call) (w : World)
    → c.status ≡ ringing
    → clashes c w.db.calls ≡ false
    → IsOrderly w
    → IsOrderly (after (register_call engine c w))
unfolding register_call Table.create_call
register_call-IsOrderly engine c w r e s = grind (arith, OneRunning-append)

start_direct-IsOrderly :
    (engine : Engine) (u v : ℕ) (w : World)
    → IsOrderly w
    → IsOrderly (after (start_direct engine u v w))
unfolding start_direct
start_direct-IsOrderly engine u v w s =
    let made = register_call-IsOrderly engine (new_call direct_call u none w) w refl refl s in
    after->>= IsOrderly (register_call engine (new_call direct_call u none w)) _ w
      (λ c t h. grind (arith, h, made, add_participant-calls)) (λ x t h. ground (arith, h, made))

create_direct_call-IsOrderly :
    (engine : Option Engine) (u v : ℕ) (w : World)
    → IsOrderly w
    → IsOrderly (after (create_direct_call engine u v w))
unfolding create_direct_call get_user_by_id get_user_call_settings
create_direct_call-IsOrderly none u v w s = s
create_direct_call-IsOrderly (some engine) u v w s =
    grind (arith, check_privacy-calls u v, start_direct-IsOrderly engine u v)

start_room-IsOrderly :
    (engine : Engine) (u r : ℕ) (w : World)
    → any (is_live_in r) w.db.calls ≡ false
    → IsOrderly w
    → IsOrderly (after (start_room engine u r w))
unfolding start_room
start_room-IsOrderly engine u r w e s =
    let made = register_call-IsOrderly engine (new_call room_call u (some r) w) w refl e s in
    after->>= IsOrderly (register_call engine (new_call room_call u (some r) w)) _ w
      (λ c t h. grind (arith, h, made, add_participant-calls)) (λ x t h. ground (arith, h, made))

room_unless-IsOrderly :
    (engine : Engine) (u r : ℕ) (c : Option Call) (w : World)
    → (c ≡ none → any (is_live_in r) w.db.calls ≡ false)
    → IsOrderly w
    → IsOrderly (after (room_unless engine u r c w))
unfolding room_unless
room_unless-IsOrderly engine u r (some c) w e s = ground (arith, join_existing-calls c u w)
room_unless-IsOrderly engine u r none w e s = start_room-IsOrderly engine u r w (e refl) s

room-id : (k : ℕ) (rs : List Room) (r : Room) → find (λ x. x.id == k) rs ≡ some r → r.id ≡ k
room-id k [] r e = cc
room-id k (x ∷ rs) r e = ground (arith, room-id k rs r)

create_room_call-IsOrderly :
    (engine : Option Engine) (u k : ℕ) (w : World)
    → IsOrderly w
    → IsOrderly (after (create_room_call engine u k w))
unfolding create_room_call get_room_by_id is_member Table.get_active_call_for_room
create_room_call-IsOrderly none u k w s = s
create_room_call-IsOrderly (some engine) u k w s =
    elim (Option-cases (find (λ (x : Room). x.id == k) w.db.rooms)) [
      | inl e ↦ ground arith
      | inr (r, e) ↦
          let asked : World = record w { ticks = w.ticks + 1 + 1 + 1 } in
          ground (
            arith,
            e,
            room-id k w.db.rooms r e,
            room_unless-IsOrderly engine u r.id
                (first (order_desc (λ c. c.created_at) (select (is_live_in k) w.db.calls))) asked
                (λ n. first-order r.id w.db.calls (rw (room-id k w.db.rooms r e) n)) s,
          )
    ]

module _ (engine : Option Engine) where
  pub serve-IsOrderly : (r : Request) (w : World) → IsOrderly w → IsOrderly (serve engine r w)
  unfolding serve
  serve-IsOrderly (directs u v) w s = create_direct_call-IsOrderly engine u v w s
  serve-IsOrderly (rooms u r) w s = create_room_call-IsOrderly engine u r w s
  serve-IsOrderly (joins k u) w s = get_join_info-IsOrderly engine k u w s
  serve-IsOrderly (ends k u) w s = end_call-IsOrderly k u w s
  serve-IsOrderly (leaves k u) w s = leave_call-IsOrderly k u w s
  serve-IsOrderly (rejects k u reason) w s = reject_call-IsOrderly k u reason w s

  -- Whatever the six writing methods are called with, one after the other, and wherever the driver
  -- fails: if call ids are distinct and no room has two running calls, that stays so.
  pub run-IsOrderly : (rs : List Request) (w : World) → IsOrderly w → IsOrderly (run engine rs w)
  unfolding run
  run-IsOrderly [] w s = s
  run-IsOrderly (r ∷ rs) w s = run-IsOrderly rs (serve engine r w) (serve-IsOrderly r w s)
