-- ===== src/Calls/Emptied.antt =====
-- internal/service/calls/service.go: when a call ends because its participants leave.
use wirechat_server.Common.{
  ℕ, ◌≡◌, refl, ◌+◌, String, Bool, true, false, not, ◌&&◌, ◌||◌, some, List, [], ◌∷◌, find, select,
  update, all, insert_asc, order_asc, is_some, ◌==◌, ==_iff, str_eq, eq_iff, if◌then◌else◌, arith,
  Bool-cases, inl, inr,
}
use wirechat_server.Effect.{ok, after, succeeds}
use wirechat_server.Store.Types.{Call, ended, call_status_eq, CallParticipant}
use wirechat_server.Store.World.{World, IsQuiet}
use wirechat_server.Store.Calls.{has_id, is_participant, saved_participant}
use wirechat_server.Store.Calls as Table
use wirechat_server.Store.Calls.Rows.{find-update_self, find_self, find-id}
use wirechat_server.Calls.{leave_call, close_empty, ended_call}
use wirechat_server.Calls.Lifecycle.{call_row}

-- A row that does not keep the call going when the user is gone.
abbrev pub is_gone_but : String → ℕ → CallParticipant → Bool
is_gone_but k u p = not (str_eq p.call_id k) || (p.user_id == u || is_some p.left_at)

-- Every other participant of the call has left.
abbrev pub others_left : String → ℕ → World → Bool
others_left k u w = all (is_gone_but k u) w.db.participants

all-insert {ℓ} :
    {A : Type ℓ} (q : A → Bool) (key : A → ℕ) (x : A) (ys : List A)
    → all q (insert_asc key x ys) ≡ (q x && all q ys)
all-insert q key x [] = refl
all-insert q key x (y ∷ ys) = ground (arith, all-insert q key x ys)

all-order {ℓ} :
    {A : Type ℓ} (q : A → Bool) (key : A → ℕ) (xs : List A) → all q (order_asc key xs) ≡ all q xs
all-order q key [] = refl
all-order q key (x ∷ xs) = ground (arith, all-insert q key x (order_asc key xs), all-order q key xs)

pub find-participant :
    (k : String) (u : ℕ) (ps : List CallParticipant) (p : CallParticipant)
    → find (is_participant k u) ps ≡ some p
    → (p.call_id ≡ k) × (p.user_id ≡ u)
find-participant k u [] p e = cc
find-participant k u (q ∷ ps) p e =
    ground (arith, eq_iff q.call_id k, ==_iff q.user_id u, find-participant k u ps p)

-- What LeaveCall sees after it has written the user's own row.
all-left :
    (k : String) (u : ℕ) (p : CallParticipant) (ps : List CallParticipant)
    → is_some p.left_at ≡ true
    → all
        (λ q. is_some q.left_at)
        (select (λ q. str_eq q.call_id k) (update (is_participant k u) (saved_participant p) ps))
      ≡ all (is_gone_but k u) ps
all-left k u p [] l = refl
all-left k u p (q ∷ ps) l = ground (arith, all-left k u p ps l)

-- The world after the user's own row was written, and the participants were listed.
abbrev listed : CallParticipant → String → ℕ → World → World
listed p k u w = record w {
  db = record w.db {
    participants =
        update (is_participant k u)
          (saved_participant
            (record p { left_at = some (w.env.now (w.ticks + 1)); reason = some "left" }))
          w.db.participants;
  };
  ticks = w.ticks + 3;
}

-- The row of a call that has ended, by LeaveCall.
abbrev pub left_empty : Call → World → Call
left_empty c w = record c {
  status = ended;
  updated_at = w.env.now (w.ticks + 3 + 1);
  ended_at = some (w.env.now (w.ticks + 1));
}

close_empty-quiet :
    (k : String) (now : ℕ) (c : Call) (w : World)
    → IsQuiet w
    → call_row k w ≡ some c
    → call_status_eq c.status ended ≡ false
    → call_row k (after (close_empty k now w))
      ≡ some
          (record c { status = ended; updated_at = w.env.now (w.ticks + 1); ended_at = some now })
unfolding close_empty Table.get_call Table.update_call
close_empty-quiet k now c w q e s = ground (
  arith,
  q w.ticks,
  q (w.ticks + 1),
  find-id k w.db.calls c e,
  find-update_self c (ended_call c now) (w.env.now (w.ticks + 1)) w.db.calls
      (find_self k w.db.calls c e),
)

close_empty-succeeds : (k : String) (now : ℕ) (w : World) → succeeds (close_empty k now w) ≡ true
unfolding close_empty
close_empty-succeeds k now w = ground arith

leave_call-listed :
    (k : String) (u : ℕ) (p : CallParticipant) (w : World)
    → IsQuiet w
    → find (is_participant k u) w.db.participants ≡ some p
    → leave_call k u w ≡ (
        if others_left k u w
        then close_empty k (w.env.now (w.ticks + 1)) (listed p k u w)
        else ok tt (listed p k u w))
unfolding leave_call Table.get_participant Table.update_participant Table.list_participants
leave_call-listed k u p w q f =
    let now : ℕ = w.env.now (w.ticks + 1) in
    let mine : CallParticipant = record p { left_at = some now; reason = some "left" } in
    let (call, user) = find-participant k u w.db.participants p f in
    let rows : List CallParticipant =
      update (is_participant k u) (saved_participant mine) w.db.participants in
    ground (
      arith,
      q w.ticks,
      q (w.ticks + 1),
      q (w.ticks + 2),
      call,
      user,
      f,
      all-order (λ (r : CallParticipant). is_some r.left_at) (λ r. r.id)
          (select (λ (r : CallParticipant). str_eq r.call_id k) rows),
      all-left k u mine w.db.participants refl,
    )

-- While the driver does not fail, a participant of a call that has not ended can leave it, and the
-- call then ends exactly if every other participant has left: its row gets the status and the time,
-- and else stays as it was.
pub leave_call-ends :
    (k : String) (u : ℕ) (p : CallParticipant) (c : Call) (w : World)
    → IsQuiet w
    → find (is_participant k u) w.db.participants ≡ some p
    → call_row k w ≡ some c
    → call_status_eq c.status ended ≡ false
    → (succeeds (leave_call k u w) ≡ true)
      × (call_row k (after (leave_call k u w))
          ≡ some (if others_left k u w then left_empty c w else c))
leave_call-ends k u p c w q f e s =
    let run = leave_call-listed k u p w q f in
    let left : World = listed p k u w in
    let now : ℕ = w.env.now (w.ticks + 1) in
    elim (Bool-cases (others_left k u w)) [
      | inl all_gone ↦ (
        rw (run, all_gone) (close_empty-succeeds k now left),
        rw (run, all_gone) (close_empty-quiet k now c left q e s),
      )
      | inr some_stay ↦ (rw (run, some_stay) refl, rw (run, some_stay) e)
    ]
