-- ===== src/Store/Calls.antt =====
-- internal/store/sqlite/sqlite.go, the tables `calls` and `call_participants`.
pub mod Rows
pub mod Running
use wirechat_server.Common.{
  ℕ, ◌+◌, String, Bool, true, false, ◌&&◌, Option, none, some, List, ◌++◌, [], ◌∷◌, find, any,
  select, update, order_desc, order_asc, ◌==◌, str_eq, if◌then◌else◌,
}
use wirechat_server.Effect.{ok, err, ◌>>=◌}
use wirechat_server.Store.Types.{Call, CallParticipant, is_live}
use wirechat_server.Store.World.{Db, Sql, no_rows, constraint, statement}

abbrev pub has_id : String → Call → Bool
has_id id c = str_eq c.id id

-- The columns that CreateCall does not name take their defaults: the clock, and NULL for `ended_at`.
unfoldable pub create_call : Call → Sql (Unit {0})
create_call call = statement λ db now.
    if any (has_id call.id) db.calls
    then err constraint db
    else ok tt (record db {
      calls = db.calls ++ record call { created_at = now; updated_at = now; ended_at = none } ∷ [];
    })

-- The columns of the UPDATE, taken from the record in memory.
abbrev pub saved : Call → ℕ → Call → Call
saved call now c = record c {
  status = call.status;
  external_room_id = call.external_room_id;
  updated_at = now;
  ended_at = call.ended_at;
}

unfoldable pub update_call : Call → Sql (Unit {0})
update_call call =
    statement
      λ db now. ok tt (record db { calls = update (has_id call.id) (saved call now) db.calls })

unfoldable pub get_call : String → Sql Call
get_call id =
    statement λ db _. elim (find (has_id id) db.calls) [ none ↦ err no_rows db | some c ↦ ok c db ]

abbrev pub is_participant : String → ℕ → CallParticipant → Bool
is_participant id u p = str_eq p.call_id id && p.user_id == u

unfoldable pub list_active_calls : ℕ → Sql (List Call)
list_active_calls u = statement λ db _.
    ok
      (order_desc (λ c. c.created_at)
        (select (λ c. any (is_participant c.id u) db.participants && is_live c.status) db.calls))
      db

-- `room_id = ?`, which no NULL passes.
abbrev pub in_room : ℕ → Option ℕ → Bool
in_room r none = false
in_room r (some s) = s == r

abbrev pub is_live_in : ℕ → Call → Bool
is_live_in r c = in_room r c.room_id && is_live c.status

abbrev pub first {ℓ} : {A : Type ℓ} → List A → Option A
first [] = none
first (x ∷ xs) = some x

-- `ORDER BY created_at DESC LIMIT 1`; no row is no error.
unfoldable pub get_active_call_for_room : ℕ → Sql (Option Call)
get_active_call_for_room r =
    statement
      λ db _. ok (first (order_desc (λ c. c.created_at) (select (is_live_in r) db.calls))) db

-- UNIQUE(call_id, user_id); the new id is written back into the record.
unfoldable pub add_participant : CallParticipant → Sql CallParticipant
add_participant p = statement λ db _.
    if any (is_participant p.call_id p.user_id) db.participants
    then err constraint db
    else ok (record p { id = db.next_participant })
        (record db {
          participants = db.participants ++ record p { id = db.next_participant } ∷ [];
          next_participant = db.next_participant + 1;
        })

abbrev pub saved_participant : CallParticipant → CallParticipant → CallParticipant
saved_participant p q = record q { joined_at = p.joined_at; left_at = p.left_at; reason = p.reason }

unfoldable pub update_participant : CallParticipant → Sql (Unit {0})
update_participant p = statement λ db _. ok tt (record db {
  participants = update (is_participant p.call_id p.user_id) (saved_participant p) db.participants;
})

unfoldable pub get_participant : String → ℕ → Sql CallParticipant
get_participant id u = statement λ db _. elim (find (is_participant id u) db.participants) [
  | none ↦ err no_rows db
  | some p ↦ ok p db
]

unfoldable pub list_participants : String → Sql (List CallParticipant)
list_participants id =
    statement
      λ db _. ok (order_asc (λ p. p.id) (select (λ p. str_eq p.call_id id) db.participants)) db
