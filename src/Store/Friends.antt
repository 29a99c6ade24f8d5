-- ===== src/Store/Friends.antt =====
-- internal/store/sqlite/sqlite.go, the table `friends`.
pub mod Rows
use wirechat_server.Common.{
  ℕ, ◌+◌, Bool, true, not, ◌&&◌, ◌||◌, Option, none, some, List, ◌++◌, [], ◌∷◌, find, any, select,
  update, ◌==◌, order_desc, if◌then◌else◌,
}
use wirechat_server.Effect.{ok, err, ◌>>=◌}
use wirechat_server.Store.Types.{Friend, FriendStatus, pending, accepted, status_eq}
use wirechat_server.Store.World.{Db, Sql, no_rows, constraint, no_row_updated, statement}

-- `user_id = ? AND friend_id = ?`
abbrev pub is_record : ℕ → ℕ → Friend → Bool
is_record u v f = f.user_id == u && f.friend_id == v

-- `(user_id = ? AND friend_id = ?) OR (user_id = ? AND friend_id = ?)`
abbrev pub is_between : ℕ → ℕ → Friend → Bool
is_between u v f = is_record u v f || is_record v u f

unfoldable pub get_friend_by_id : ℕ → Sql Friend
get_friend_by_id id =
    statement
      λ db _. elim (find (λ f. f.id == id) db.friends) [ none ↦ err no_rows db | some f ↦ ok f db ]

abbrev pub new_friend : Db → ℕ → ℕ → ℕ → Friend
new_friend db now u v = record {
  id = db.next_friend;
  user_id = u;
  friend_id = v;
  status = pending;
  created_at = now;
  updated_at = now;
}

-- The INSERT of CreateFriendRequest, with the constraint UNIQUE(user_id, friend_id).
unfoldable pub insert_friend : ℕ → ℕ → Sql ℕ
insert_friend u v = statement λ db now.
    if any (is_record u v) db.friends
    then err constraint db
    else ok db.next_friend (record db {
      friends = db.friends ++ new_friend db now u v ∷ [];
      next_friend = db.next_friend + 1;
    })

unfoldable pub create_friend_request : ℕ → ℕ → Sql Friend
unfolding insert_friend get_friend_by_id
create_friend_request u v = do id ← insert_friend u v; get_friend_by_id id

unfoldable pub update_friend_status : ℕ → ℕ → FriendStatus → Sql (Unit {0})
update_friend_status u v status = statement λ db now.
    if any (is_record u v) db.friends
    then ok tt (record db {
      friends =
          update (is_record u v) (λ f. record f { status = status; updated_at = now }) db.friends;
    })
    else err no_row_updated db

unfoldable pub get_friendship : ℕ → ℕ → Sql Friend
get_friendship u v =
    statement
      λ db _. elim (find (is_between u v) db.friends) [ none ↦ err no_rows db | some f ↦ ok f db ]

unfoldable pub is_friend : ℕ → ℕ → Sql Bool
is_friend u v =
    statement λ db _. ok (any (λ f. is_between u v f && status_eq f.status accepted) db.friends) db

unfoldable pub delete_friendship : ℕ → ℕ → Sql (Unit {0})
delete_friendship u v =
    statement λ db _. ok tt (record db { friends = select (λ f. not (is_record u v f)) db.friends })

abbrev pub has_status : Option FriendStatus → Friend → Bool
has_status none f = true
has_status (some s) f = status_eq f.status s

unfoldable pub list_friends : ℕ → Option FriendStatus → Sql (List Friend)
list_friends u status = statement λ db _.
    ok
      (order_desc (λ f. f.updated_at)
        (select (λ f. (f.user_id == u || f.friend_id == u) && has_status status f) db.friends))
      db
