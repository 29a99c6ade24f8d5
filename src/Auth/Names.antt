-- ===== src/Auth/Names.antt =====
-- internal/store/sqlite/sqlite.go under internal/auth: no two users get one name, and none an old id.
use wirechat_server.Common.{
  ℕ, ◌+◌, ◌<◌, ◌≡◌, refl, String, Bool, true, false, not, ◌&&◌, some, List, [], ◌∷◌, ◌++◌, find,
  any, arith, eq_iff, str_eq, ◌==◌,
}
use wirechat_server.Store.World.{World, UserRow, clock}
use wirechat_server.Store.Types.{everyone}

-- No two users have one name, and every id is below the next one.
abbrev pub Unique : ℕ → List UserRow → Type 0
Unique n [] = Unit {0}
Unique n (r ∷ rs) =
    (r.user.id < n)
    × (any (λ (x : UserRow). str_eq x.user.username r.user.username) rs ≡ false)
    × Unique n rs

pub find-append_new :
    (p : UserRow → Bool) (r : UserRow) (rs : List UserRow)
    → any p rs ≡ false
    → p r ≡ true
    → find p (rs ++ r ∷ []) ≡ some r
find-append_new p r [] e h = ground arith
find-append_new p r (x ∷ rs) e h = ground (arith, find-append_new p r rs)

pub any-id :
    (n : ℕ) (rs : List UserRow) → Unique n rs → any (λ (r : UserRow). r.user.id == n) rs ≡ false
any-id n [] u = refl
any-id n (r ∷ rs) u = ground (arith, any-id n rs)

pub any-named :
    (name : String) (rs : List UserRow)
    → any (λ (r : UserRow). str_eq r.user.username name) rs ≡ false
    → any (λ (r : UserRow). str_eq r.user.username name && not r.user.is_guest) rs ≡ false
any-named name [] e = refl
any-named name (r ∷ rs) e = ground (arith, any-named name rs)

any-append :
    (p : UserRow → Bool) (rs : List UserRow) (r : UserRow)
    → any p rs ≡ false
    → p r ≡ false
    → any p (rs ++ r ∷ []) ≡ false
any-append p [] r e h = ground arith
any-append p (x ∷ rs) r e h = ground (arith, any-append p rs r)

str_eq_other : (s t : String) → str_eq s t ≡ false → str_eq t s ≡ false
str_eq_other s t e = ground (arith, eq_iff s t, eq_iff t s)

-- A new row with a name of its own.
Unique-append :
    (n : ℕ) (r : UserRow) (rs : List UserRow)
    → Unique n rs
    → r.user.id ≡ n
    → any (λ (x : UserRow). str_eq x.user.username r.user.username) rs ≡ false
    → Unique (n + 1) (rs ++ r ∷ [])
Unique-append n r [] u e h = ground arith
Unique-append n r (x ∷ rs) (a, b, u) e h = (
  ground arith,
  any-append (λ y. str_eq y.user.username x.user.username) rs r b
      (str_eq_other x.user.username r.user.username (ground arith)),
  Unique-append n r rs u e (ground arith),
)

-- The users of a world.
abbrev pub HasUnique : World → Type 0
HasUnique w = Unique w.db.next_user w.db.users

abbrev pub user_row : ℕ → String → String → Bool → String → ℕ → UserRow
user_row id name hash guest session now = record {
  user = record {
    id = id;
    username = name;
    password_hash = hash;
    is_guest = guest;
    session_id = session;
    created_at = now;
  };
  allow_calls_from = everyone;
}

-- The world with a new user in it.
abbrev pub inserted : World → String → String → Bool → String → World
inserted w name hash guest session = record w {
  db = record w.db {
    users = w.db.users ++ user_row w.db.next_user name hash guest session (clock w) ∷ [];
    next_user = w.db.next_user + 1;
  };
  ticks = w.ticks + 1;
}
