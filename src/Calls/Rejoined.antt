-- ===== src/Calls/Rejoined.antt =====
-- internal/service/calls/service.go: a participant who comes back to a call.
use wirechat_server.Common.{
  ℕ, ◌≡◌, ◌≢◌, refl, ◌∙◌, ◌+◌, String, true, none, some, List, [], ◌∷◌, find, update, all, is_some,
  ==_iff, arith, Option-cases, inl, inr,
}
use wirechat_server.Effect.{after}
use wirechat_server.Engine.{Engine}
use wirechat_server.Store.Types.{Call, active, CallParticipant}
use wirechat_server.Store.World.{World, IsQuiet, clock}
use wirechat_server.Store.Users.{get_user_by_id}
use wirechat_server.Store.Calls.{is_participant, saved_participant}
use wirechat_server.Store.Calls as Table
use wirechat_server.Store.Calls.Rows.{find-id}
use wirechat_server.Calls.{
  leave_call, get_join_info, join_call, admit_and_enter, admit, enter_call, mark_joined,
  mark_active, credentials,
}
use wirechat_server.Calls.Lifecycle.{call_row}
use wirechat_server.Calls.Emptied.{
  is_gone_but, others_left, left_empty, find-participant, leave_call-ends,
}

-- The row of a participant who is not the one who stays says that he has left.
left_of :
    (k : String) (u v : ℕ) (ps : List CallParticipant) (r : CallParticipant)
    → u ≢ v
    → all (is_gone_but k u) ps ≡ true
    → find (is_participant k v) ps ≡ some r
    → is_some r.left_at ≡ true
left_of k u v [] r n g f = cc
left_of k u v (p ∷ ps) r n g f =
    ground (arith, ==_iff p.user_id u, ==_iff p.user_id v, left_of k u v ps r n)

gone-update :
    (k : String) (u v : ℕ) (r : CallParticipant) (ps : List CallParticipant)
    → is_some r.left_at ≡ true
    → all (is_gone_but k u) ps ≡ true
    → all (is_gone_but k u) (update (is_participant k v) (saved_participant r) ps) ≡ true
gone-update k u v r [] l g = refl
gone-update k u v r (p ∷ ps) l g = ground (arith, gone-update k u v r ps l)

find-update_other :
    (k : String) (u v : ℕ) (r : CallParticipant) (ps : List CallParticipant)
    → u ≢ v
    → find (is_participant k u) (update (is_participant k v) (saved_participant r) ps)
      ≡ find (is_participant k u) ps
find-update_other k u v r [] n = refl
find-update_other k u v r (p ∷ ps) n =
    ground (arith, ==_iff p.user_id u, ==_iff p.user_id v, find-update_other k u v r ps n)

-- What a world says of a call that one user alone is still in.
record Alone (k : String) (u : ℕ) (p : CallParticipant) (c : Call) (w : World) : Type 0 where
  quiet : IsQuiet w
  mine : find (is_participant k u) w.db.participants ≡ some p
  others : others_left k u w ≡ true
  call : call_row k w ≡ some c

-- The world in which a participant's row has got the time of joining.
abbrev joined : CallParticipant → String → ℕ → World → World
joined r k v w = record w {
  db = record w.db {
    participants =
        update (is_participant k v) (saved_participant (record r { joined_at = some (clock w) }))
          w.db.participants;
  };
  ticks = w.ticks + 1;
}

mark_joined-first :
    (k : String) (v : ℕ) (r : CallParticipant) (w : World)
    → IsQuiet w
    → r.joined_at ≡ none
    → r.call_id ≡ k
    → r.user_id ≡ v
    → after (mark_joined r w) ≡ joined r k v w
unfolding mark_joined Table.update_participant
mark_joined-first k v r w q j call user = ground (arith, q w.ticks)

mark_joined-again :
    (r : CallParticipant) (t : ℕ) (w : World) → r.joined_at ≡ some t → after (mark_joined r w) ≡ w
unfolding mark_joined
mark_joined-again r t w j = ground arith

mark_joined-Alone :
    (k : String) (u v : ℕ) (p r : CallParticipant) (c : Call) (w : World)
    → u ≢ v
    → find (is_participant k v) w.db.participants ≡ some r
    → Alone k u p c w
    → Alone k u p c (after (mark_joined r w))
mark_joined-Alone k u v p r c w n f l =
    let (call, user) = find-participant k v w.db.participants r f in
    let left = left_of k u v w.db.participants r n l.others f in
    elim (Option-cases r.joined_at) [
      | inr (at, j) ↦ rw (mark_joined-again r at w j) l
      | inl j ↦
          let mine : CallParticipant = record r { joined_at = some (clock w) } in
          rw (mark_joined-first k v r w l.quiet j call user) (record {
            quiet = l.quiet;
            mine = find-update_other k u v mine w.db.participants n ∙ l.mine;
            others = gone-update k u v mine w.db.participants left l.others;
            call = l.call;
          })
    ]

credentials-Alone :
    (engine : Engine) (k : String) (u v : ℕ) (p : CallParticipant) (c d : Call) (w : World)
    → Alone k u p c w
    → Alone k u p c (after (credentials engine v d w))
unfolding credentials get_user_by_id
credentials-Alone engine k u v p c d w l = record {
  quiet = ground (arith, l.quiet);
  mine = ground (arith, l.mine);
  others = ground (arith, l.others);
  call = ground (arith, l.call);
}

enter_call-active :
    (engine : Engine) (c : Call) (v : ℕ) (r : CallParticipant) (w : World)
    → c.status ≡ active
    → enter_call engine c v r w ≡ credentials engine v c (after (mark_joined r w))
unfolding enter_call mark_joined mark_active
enter_call-active engine c v r w a = ground (arith, a)

-- A participant of an active call is let in, whatever the row says of leaving.
get_join_info-enters :
    (engine : Engine) (k : String) (v : ℕ) (r : CallParticipant) (c : Call) (w : World)
    → IsQuiet w
    → find (is_participant k v) w.db.participants ≡ some r
    → call_row k w ≡ some c
    → c.status ≡ active
    → get_join_info (some engine) k v w ≡ enter_call engine c v r (record w { ticks = w.ticks + 2 })
unfolding get_join_info join_call admit_and_enter admit Table.get_call Table.get_participant
get_join_info-enters engine k v r c w q f e a =
    ground (arith, q w.ticks, q (w.ticks + 1), f, e, a, find-id k w.db.calls c e)

get_join_info-Alone :
    (engine : Engine) (k : String) (u v : ℕ) (p r : CallParticipant) (c : Call) (w : World)
    → u ≢ v
    → find (is_participant k v) w.db.participants ≡ some r
    → c.status ≡ active
    → Alone k u p c w
    → Alone k u p c (after (get_join_info (some engine) k v w))
get_join_info-Alone engine k u v p r c w n f a l =
    let at : World = record w { ticks = w.ticks + 2 } in
    rw
      (
        get_join_info-enters engine k v r c w l.quiet f l.call a,
        enter_call-active engine c v r at a,
      )
      (credentials-Alone engine k u v p c c (after (mark_joined r at)) (
        mark_joined-Alone k u v p r c at n f
          (record { quiet = l.quiet; mine = l.mine; others = l.others; call = l.call })))

-- A participant who has left an active call and comes back does not keep it going. While the driver
-- does not fail: if a user is in an active call that every other participant has left, another
-- participant then asks for credentials again, whether or not they are handed out, and the user
-- leaves, then the call ends.
pub rejoined_call_ends :
    (engine : Engine) (k : String) (u v : ℕ) (p r : CallParticipant) (c : Call) (w : World)
    → IsQuiet w
    → u ≢ v
    → find (is_participant k u) w.db.participants ≡ some p
    → find (is_participant k v) w.db.participants ≡ some r
    → others_left k u w ≡ true
    → call_row k w ≡ some c
    → c.status ≡ active
    → let t = after (get_join_info (some engine) k v w) in
      call_row k (after (leave_call k u t)) ≡ some (left_empty c t)
rejoined_call_ends engine k u v p r c w q n e f g h a =
    let t = after (get_join_info (some engine) k v w) in
    let l : Alone k u p c t =
      get_join_info-Alone engine k u v p r c w n f a
        (record { quiet = q; mine = e; others = g; call = h }) in
    rw (l.others) at (leave_call-ends k u p c t l.quiet l.mine l.call (rw (a) refl)).1
