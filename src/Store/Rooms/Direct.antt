-- ===== src/Store/Rooms/Direct.antt =====
-- internal/store/sqlite/sqlite.go, CreateDirectRoom: all of it is stored, or nothing.
use wirechat_server.Common.{
  ℕ, ◌+◌, ◌≡◌, ◌≢◌, ◌⊎◌, inl, inr, String, none, some, [], ◌∷◌, ◌++◌, refl, sym, subst, ◌∙◌, arith,
  Bool-cases,
}
use wirechat_server.Effect.{Outcome, ok, err, after, after->>=, Attempt, got, failed, attempt}
use wirechat_server.Store.Types.{Room, direct_room}
use wirechat_server.Store.World.{
  World, Db, DbError, no_rows, constraint, no_row_updated, driver, Sql, transaction,
}
use wirechat_server.Store.Rooms.{
  insert_room, insert_member, get_room_by_id, get_room_by_direct_key, direct_rows, direct_name,
  make_direct, direct_unless, create_direct_room,
}

-- The tables with the room of two users in them, as of three times.
abbrev pub with_direct : String → String → ℕ → ℕ → (ℕ → ℕ) → Db → Db
with_direct name key u v at db = record db {
  rooms =
      db.rooms
      ++ record {
        id = db.next_room;
        name = name;
        type = direct_room;
        owner_id = none;
        direct_key = some key;
        created_at = at 0;
      }
        ∷ [];
  room_members =
      (db.room_members ++ record { user_id = u; room_id = db.next_room; joined_at = at 1 } ∷ [])
      ++ record { user_id = v; room_id = db.next_room; joined_at = at 2 } ∷ [];
  next_room = db.next_room + 1;
}

-- Nothing is stored, or all of it.
abbrev pub Whole : String → ℕ → ℕ → World → World → Type 0
Whole key u v w k =
    (k.db ≡ w.db) ⊎ ((name : String) × (at : ℕ → ℕ) × (k.db ≡ with_direct name key u v at w.db))

-- A transaction stores nothing, or what its body stored.
transaction_atomic :
    {A : Type 0} (body : Sql A) (w : World)
    → ((after (transaction body w)).db ≡ w.db)
      ⊎ ((a : A) × (k : World) × (body (record w { ticks = w.ticks + 1 }) ≡ ok a k)
          × ((after (transaction body w)).db ≡ k.db))
transaction_atomic {A} body w = go (body (record w { ticks = w.ticks + 1 })) refl
  where
    go :
        (o : Outcome World DbError A)
        → body (record w { ticks = w.ticks + 1 }) ≡ o
        → ((after (transaction body w)).db ≡ w.db)
          ⊎ ((a : A) × (k : World) × (body (record w { ticks = w.ticks + 1 }) ≡ ok a k)
              × ((after (transaction body w)).db ≡ k.db))
    go (ok a k) e = elim (Bool-cases (w.env.faulty w.ticks)) [
      | inl f ↦ inl (ground arith)
      | inr f ↦ elim (Bool-cases (k.env.faulty k.ticks)) [
        | inl g ↦ inl (ground arith)
        | inr g ↦ inr (a, k, e, ground arith)
      ]
    ]
    go (err x k) e = inl (ground arith)

direct_rows-ok :
    (name key : String) (u v id : ℕ) (w k : World)
    → direct_rows name key u v w ≡ ok id k
    → k.db ≡ with_direct name key u v (λ n. w.env.now (w.ticks + n)) w.db
unfolding direct_rows insert_room insert_member
direct_rows-ok name key u v id w k e = ground arith

transaction-Whole :
    (name key : String) (u v : ℕ) (w : World)
    → Whole key u v w (after (transaction (direct_rows name key u v) w))
transaction-Whole name key u v w = elim (transaction_atomic (direct_rows name key u v) w) [
  | inl e ↦ inl e
  | inr r ↦
      let (id, k, e, d) = r in
      inr (
        name,
        λ n. w.env.now (w.ticks + 1 + n),
        d ∙ direct_rows-ok name key u v id (record w { ticks = w.ticks + 1 }) k e,
      )
]

get_room_by_id-db : (id : ℕ) (w : World) → (after (get_room_by_id id w)).db ≡ w.db
unfolding get_room_by_id
get_room_by_id-db id w = ground arith

make_direct-Whole :
    (key : String) (u v : ℕ) (w : World) → Whole key u v w (after (make_direct key u v w))
unfolding make_direct
make_direct-Whole key u v w =
    let name : String = direct_name w u v in
    let stored : Whole key u v w (after (transaction (direct_rows name key u v) w)) =
      transaction-Whole name key u v w in
    after->>= (Whole key u v w) (transaction (direct_rows name key u v)) get_room_by_id w
      (λ id k e.
        let kept : Whole key u v w k = subst (λ o. Whole key u v w (after o)) e stored in
        rw (get_room_by_id-db id k) kept)
      (λ x k e. subst (λ o. Whole key u v w (after o)) e stored)

lookup-db :
    (key : String) (w k : World) (a : Attempt DbError Room)
    → attempt {F = DbError} (get_room_by_direct_key key) w ≡ ok a k
    → k.db ≡ w.db
unfolding get_room_by_direct_key
lookup-db key w k a e = ground arith

lookup_fails :
    (key : String) (w k : World) (x : DbError)
    → attempt {F = DbError} (get_room_by_direct_key key) w ≢ err x k
unfolding get_room_by_direct_key
lookup_fails key w k x e = ground arith

-- Wherever the driver fails, asking for the direct room of two users leaves every table as it is,
-- or stores all of it: one direct room with the key, and a membership of it for each of the two
-- users, and nothing else changes.
pub create_direct_room-Whole :
    (key : String) (u v : ℕ) (w : World) → Whole key u v w (after (create_direct_room key u v w))
unfolding create_direct_room direct_unless
create_direct_room-Whole key u v w =
    after->>= (Whole key u v w) (attempt (get_room_by_direct_key key)) (direct_unless key u v) w
      (λ a k e. go a k (lookup-db key w k a e)) (λ x k e. absurd (lookup_fails key w k x e))
  where
    go :
        (a : Attempt DbError Room) (k : World)
        → k.db ≡ w.db
        → Whole key u v w (after (direct_unless key u v a k))
    go (got r) k e = inl e
    go (failed no_rows) k e = rw (sym e) (make_direct-Whole key u v k)
    go (failed constraint) k e = inl e
    go (failed no_row_updated) k e = inl e
    go (failed driver) k e = inl e
