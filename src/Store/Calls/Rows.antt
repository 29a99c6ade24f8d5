-- ===== src/Store/Calls/Rows.antt =====
-- The rows of `calls` under the statements of internal/store/sqlite/sqlite.go: which changes of a
-- call's status they make, and that nothing else of a call changes.
use wirechat_server.Common.{
  ℕ, ◌≡◌, refl, sym, subst, String, Bool, true, false, Option, none, some, List, ◌++◌, [], ◌∷◌,
  find, update, arith, eq_iff, ◌≢◌, inl, inr, Bool-cases, str_eq,
}
use wirechat_server.Store.Types.{Call, CallStatus, ringing, active, ended, failed_call}
use wirechat_server.Store.Calls.{has_id, saved}

-- The status machine: a call rings, may become active, and ends; nothing leaves `ended`.
pub data Step : CallStatus → CallStatus → Type 0 where
  stay : (s : CallStatus) → Step s s
  answer : Step ringing active
  decline : Step ringing ended
  hang_up : Step active ended
  bury : Step failed_call ended

-- The same as a test, with the moves that `Step` lists.
abbrev pub may_step : CallStatus → CallStatus → Bool
may_step ringing ringing = true
may_step ringing active = true
may_step ringing ended = true
may_step active active = true
may_step active ended = true
may_step ended ended = true
may_step failed_call failed_call = true
may_step failed_call ended = true
may_step _ _ = false

pub Step-may_step : (s t : CallStatus) → may_step s t ≡ true → Step s t
Step-may_step ringing ringing h = stay ringing
Step-may_step ringing active h = answer
Step-may_step ringing ended h = decline
Step-may_step active active h = stay active
Step-may_step active ended h = hang_up
Step-may_step ended ended h = stay ended
Step-may_step failed_call failed_call h = stay failed_call
Step-may_step failed_call ended h = bury
Step-may_step _ _ h = cc

-- What became of a call: it is still there, it has moved by a step, and the rest that identifies it
-- is as before.
abbrev pub Follows : Option Call → Option Call → Type 0
Follows none d = Unit {0}
Follows (some c) none = ⊥
Follows (some c) (some d) =
    (may_step c.status d.status ≡ true)
    × (d.id ≡ c.id)
    × (d.type ≡ c.type)
    × (d.initiator_user_id ≡ c.initiator_user_id)
    × (d.room_id ≡ c.room_id)

pub may_step_refl : (s : CallStatus) → may_step s s ≡ true
may_step_refl ringing = refl
may_step_refl active = refl
may_step_refl ended = refl
may_step_refl failed_call = refl

pub Follows-refl : (c : Option Call) → Follows c c
Follows-refl none = tt
Follows-refl (some c) = (may_step_refl c.status, refl, refl, refl, refl)

pub Follows-append :
    (id : String) (d : Call) (cs : List Call)
    → Follows (find (has_id id) cs) (find (has_id id) (cs ++ d ∷ []))
Follows-append id d [] = tt
Follows-append id d (c ∷ cs) = ground (arith, Follows-append id d cs, may_step_refl c.status)

-- An UPDATE of one call leaves the others alone.
find-update_ne :
    (id : String) (new : Call) (k : String) (now : ℕ) (cs : List Call)
    → k ≢ id
    → find (has_id id) (update (has_id k) (saved new now) cs) ≡ find (has_id id) cs
find-update_ne id new k now [] h = refl
find-update_ne id new k now (c ∷ cs) h =
    ground (arith, eq_iff c.id id, eq_iff c.id k, find-update_ne id new k now cs h)

pub find-update_self :
    (call new : Call) (now : ℕ) (cs : List Call)
    → find (has_id call.id) cs ≡ some call
    → find (has_id call.id) (update (has_id call.id) (saved new now) cs) ≡ some (saved new now call)
find-update_self call new now [] e = cc
find-update_self call new now (c ∷ cs) e = ground (arith, find-update_self call new now cs)

-- A look-up by id answers a call with that id.
pub find-id : (k : String) (cs : List Call) (c : Call) → find (has_id k) cs ≡ some c → c.id ≡ k
find-id k [] c e = cc
find-id k (d ∷ cs) c e = ground (arith, eq_iff d.id k, find-id k cs c)

Follows-update_self :
    (id : String) (call new : Call) (now : ℕ) (cs : List Call)
    → find (has_id call.id) cs ≡ some call
    → may_step call.status new.status ≡ true
    → Follows (find (has_id id) cs) (find (has_id id) (update (has_id call.id) (saved new now) cs))
Follows-update_self id call new now cs e m = elim (Bool-cases (str_eq call.id id)) [
  | inl same ↦
      rw (← (eq_iff call.id id).0 same, e, find-update_self call new now cs e)
        (m, refl, refl, refl, refl)
  | inr other ↦
      rw (find-update_ne id new call.id now cs (ground (arith, eq_iff call.id id)))
        (Follows-refl (find (has_id id) cs))
]

pub find_self :
    (k : String) (cs : List Call) (c : Call)
    → find (has_id k) cs ≡ some c
    → find (has_id c.id) cs ≡ some c
find_self k cs c e = subst (λ x. find (has_id x) cs ≡ some c) (sym (find-id k cs c e)) e

-- A call that was read and is written back with a status one step further.
pub Follows-update :
    (id k : String) (call new : Call) (now : ℕ) (cs : List Call)
    → find (has_id k) cs ≡ some call
    → may_step call.status new.status ≡ true
    → Follows (find (has_id id) cs) (find (has_id id) (update (has_id call.id) (saved new now) cs))
Follows-update id k call new now cs e m =
    Follows-update_self id call new now cs (find_self k cs call e) m
