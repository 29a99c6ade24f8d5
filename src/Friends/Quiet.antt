-- ===== src/Friends/Quiet.antt =====
-- What the two statements of internal/store/sqlite/sqlite.go that write a friendship do when the
-- driver does not fail.
use wirechat_server.Common.{
  ℕ, ◌≡◌, refl, ◌+◌, true, Option, none, some, [], ◌∷◌, ◌++◌, find, update, arith, ◌==◌,
}
use wirechat_server.Effect.{ok, after, succeeds}
use wirechat_server.Store.Types.{Friend, FriendStatus}
use wirechat_server.Store.World.{World, UserRow, IsQuiet, clock}
use wirechat_server.Store.Friends.{
  new_friend, is_between, is_record, create_friend_request, update_friend_status,
}
use wirechat_server.Store.Friends.Rows.{find-append_id, any-find, any-find-none}

-- What a look-up says of two users: the sender, the receiver and the status of their row.
abbrev pub row : Option Friend → Option (ℕ × ℕ × FriendStatus)
row none = none
row (some f) = some (f.user_id, f.friend_id, f.status)

abbrev pub Exists : ℕ → World → Type 0
Exists u w = (r : UserRow) × (find (λ (x : UserRow). x.user.id == u) w.db.users ≡ some r)

-- The world with a new request in it.
abbrev pub inserted : ℕ → ℕ → World → World
inserted u v w = record w {
  db = record w.db {
    friends = w.db.friends ++ new_friend w.db (clock w) u v ∷ [];
    next_friend = w.db.next_friend + 1;
  };
  ticks = w.ticks + 1 + 1;
}

pub create_friend_request-quiet :
    (u v : ℕ) (w : World)
    → IsQuiet w
    → find (is_between u v) w.db.friends ≡ none
    → (succeeds (create_friend_request u v w) ≡ true)
      × (after (create_friend_request u v w) ≡ inserted u v w)
unfolding create_friend_request
create_friend_request-quiet u v w q e =
    let g : Friend = new_friend w.db (clock w) u v in
    ground (
      arith,
      q w.ticks,
      q (w.ticks + 1),
      any-find-none u v w.db.friends e,
      find-append_id w.db.next_friend g w.db.friends refl,
    )

pub update_friend_status-quiet :
    (u v : ℕ) (status : FriendStatus) (w : World) (f : Friend)
    → IsQuiet w
    → find (is_between u v) w.db.friends ≡ some f
    → f.user_id ≡ u
    → f.friend_id ≡ v
    → update_friend_status u v status w
      ≡ ok tt (record w {
        db = record w.db {
          friends =
              update
                (is_record u v)
                (λ g. record g { status = status; updated_at = clock w })
                w.db.friends;
        };
        ticks = w.ticks + 1;
      })
unfolding update_friend_status
update_friend_status-quiet u v status w f q e a b =
    ground (arith, q w.ticks, any-find u v w.db.friends f e a b)
