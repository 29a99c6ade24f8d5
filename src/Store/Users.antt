-- ===== src/Store/Users.antt =====
-- internal/store/sqlite/sqlite.go, the users: look-ups and the call settings.
use Prim.Native.String.{◌++◌ as concat}
use wirechat_server.Common.Texts.{prefix}
use wirechat_server.Common.{
  true, String, List, map, select, take, order_asc_text, ℕ, ◌+◌, Bool, false, not, ◌&&◌, none, some,
  ◌++◌, [], ◌∷◌, find, any, update, ◌==◌, str_eq, if◌then◌else◌,
}
use wirechat_server.Effect.{ok, err, ◌>>=◌}
use wirechat_server.Store.Types.{User, AllowCallsFrom, everyone}
use wirechat_server.Store.World.{Sql, no_rows, constraint, no_row_updated, statement}

-- `QueryRow(...).Scan(...)` on the rows that a WHERE clause keeps.
unfoldable pub get_user_by_id : ℕ → Sql User
get_user_by_id id = statement λ db _. elim (find (λ r. r.user.id == id) db.users) [
  | none ↦ err no_rows db
  | some r ↦ ok r.user db
]

unfoldable pub get_user_by_username : String → Sql User
get_user_by_username username = statement λ db _.
    elim (find (λ r. str_eq r.user.username username && not r.user.is_guest) db.users) [
      | none ↦ err no_rows db
      | some r ↦ ok r.user db
    ]

unfoldable pub get_user_by_session_id : String → Sql User
get_user_by_session_id session = statement λ db _.
    elim (find (λ r. str_eq r.user.session_id session && r.user.is_guest) db.users) [
      | none ↦ err no_rows db
      | some r ↦ ok r.user db
    ]

-- The INSERT of CreateUser and CreateGuestUser; `username` is UNIQUE.
unfoldable pub insert_user : String → String → Bool → String → Sql ℕ
insert_user username hash guest session = statement λ db now.
    if any (λ r. str_eq r.user.username username) db.users
    then err constraint db
    else ok db.next_user (record db {
      users =
          db.users
          ++ record {
            user = record {
              id = db.next_user;
              username = username;
              password_hash = hash;
              is_guest = guest;
              session_id = session;
              created_at = now;
            };
            allow_calls_from = everyone;
          }
            ∷ [];
      next_user = db.next_user + 1;
    })

unfoldable pub create_user : String → String → Sql User
create_user username hash = do id ← insert_user username hash false ""; get_user_by_id id

unfoldable pub get_user_call_settings : ℕ → Sql AllowCallsFrom
get_user_call_settings id = statement λ db _. elim (find (λ r. r.user.id == id) db.users) [
  | none ↦ err no_rows db
  | some r ↦ ok r.allow_calls_from db
]

unfoldable pub update_user_call_settings : ℕ → AllowCallsFrom → Sql (Unit {0})
update_user_call_settings id setting = statement λ db _.
    if any (λ r. r.user.id == id) db.users
    then ok tt (record db {
      users = update (λ r. r.user.id == id) (λ r. record r { allow_calls_from = setting }) db.users;
    })
    else err no_row_updated db

-- `"guest_" + sessionID[:8]`
abbrev pub guest_name : String → String
guest_name session = concat "guest_" (prefix 8 session)

unfoldable pub create_guest_user : String → Sql User
unfolding prefix
create_guest_user session = do
  id ← insert_user (guest_name session) "" true session
  get_user_by_id id

-- `username LIKE '%' || ? || '%'`, as SQLite decides it, is given by `env.like`.
unfoldable pub search_users : String → Sql (List User)
search_users query w =
    statement
      (λ db _.
        ok
          (take 20 (
            order_asc_text (λ u. u.username)
              (select (λ u. w.env.like query u.username && not u.is_guest)
                (map (λ r. r.user) db.users))))
          db)
      w
