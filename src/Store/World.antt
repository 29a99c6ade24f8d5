-- ===== src/Store/World.antt =====
-- The state that internal/store/sqlite/sqlite.go works on: the tables of migrations/*.sql, and what
-- the program does not control.
--
-- SQLite itself is not part of the program. A statement is translated from its text: a SELECT reads
-- the rows in the order of their ids, an INSERT appends a row and fails on a UNIQUE constraint, and
-- any statement may fail for a reason of the driver's (`Env.faulty`). The connection string does not
-- turn foreign keys on, so they are not enforced. A table's rows stand oldest first.
use wirechat_server.Common.{ℕ, ◌+◌, String, Bool, true, false, List, ◌≡◌}
use wirechat_server.Effect.{Outcome, Action, ok, err}
use wirechat_server.Store.Types.{
  User, Room, Message, RoomMember, Friend, Call, CallParticipant, AllowCallsFrom,
}

-- A row of `users` with its column `allow_calls_from`, which `store.User` does not carry.
pub record UserRow : Type 0 where
  pub user : User
  pub allow_calls_from : AllowCallsFrom

pub record Db : Type 0 where
  pub users : List UserRow
  pub rooms : List Room
  pub room_members : List RoomMember
  pub messages : List Message
  pub friends : List Friend
  pub calls : List Call
  pub participants : List CallParticipant
  -- AUTOINCREMENT: the id of the next row of each table.
  pub next_user : ℕ
  pub next_room : ℕ
  pub next_message : ℕ
  pub next_friend : ℕ
  pub next_participant : ℕ

-- What the n-th statement meets: whether the driver fails, the clock, and the next random UUID.
pub record Env : Type 0 where
  pub faulty : ℕ → Bool
  pub now : ℕ → ℕ
  pub uuid : ℕ → String
  -- `fmt.Sprintf` at the verb %d.
  pub itoa : ℕ → String
  -- SQLite's LIKE: if a text contains a pattern.
  pub like : String → String → Bool

pub record World : Type 0 where
  pub db : Db
  pub ticks : ℕ
  pub env : Env

pub data DbError : Type 0 where
  -- `sql.ErrNoRows`, a constraint that fails, an UPDATE that met no row, and any other error.
  no_rows constraint no_row_updated driver : DbError

abbrev pub Sql : Type 0 → Type 0
Sql A = Action World DbError A

-- `time.Now()` and CURRENT_TIMESTAMP.
abbrev pub clock : World → ℕ
clock w = w.env.now w.ticks

-- One statement: it fails with the driver, or it runs on the tables.
abbrev pub statement : {A : Type 0} → (Db → ℕ → Outcome Db DbError A) → Sql A
statement run w = elim (w.env.faulty w.ticks) [
  | true ↦ err driver (record w { ticks = w.ticks + 1 })
  | false ↦ elim (run w.db (clock w)) [
    | ok a db ↦ ok a (record w { db = db; ticks = w.ticks + 1 })
    | err e db ↦ err e (record w { db = db; ticks = w.ticks + 1 })
  ]
]

-- `BeginTx ... Commit`: a failure on the way, of the two themselves too, rolls the tables back.
abbrev pub transaction : {A : Type 0} → Sql A → Sql A
transaction body w = elim (w.env.faulty w.ticks) [
  | true ↦ err driver (record w { ticks = w.ticks + 1 })
  | false ↦ elim (body (record w { ticks = w.ticks + 1 })) [
    | err e v ↦ err e (record v { db = w.db })
    | ok a v ↦ elim (v.env.faulty v.ticks) [
      | true ↦ err driver (record v { db = w.db; ticks = v.ticks + 1 })
      | false ↦ ok a (record v { ticks = v.ticks + 1 })
    ]
  ]
]

-- The environment from some statement on never fails.
abbrev pub IsQuiet : World → Type 0
IsQuiet w = (n : ℕ) → w.env.faulty n ≡ false
