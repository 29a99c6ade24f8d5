-- ===== src/Store/Friends/Rows.antt =====
-- The rows of `friends` under the statements of internal/store/sqlite/sqlite.go: at most one row for
-- two users, and what a look-up finds after a change.
use wirechat_server.Common.{
  ℕ, ◌≡◌, refl, ◌≢◌, ◌⊎◌, Bool, true, false, not, ◌&&◌, none, some, List, ◌++◌, [], ◌∷◌, find, any,
  select, update, ◌==◌, arith, if◌then◌else◌,
}
use wirechat_server.Store.Types.{Friend, FriendStatus, status_eq, accepted}
use wirechat_server.Store.Friends.{is_record, is_between}

-- Nobody is in a row with himself, and no two users share two rows, in either direction.
abbrev pub Separate : List Friend → Type 0
Separate [] = Unit {0}
Separate (f ∷ fs) =
    (f.user_id ≢ f.friend_id) × (find (is_between f.user_id f.friend_id) fs ≡ none) × Separate fs

pub find-append :
    (u v : ℕ) (g : Friend) (fs : List Friend)
    → find (is_between u v) fs ≡ none
    → find (is_between u v) (fs ++ g ∷ []) ≡ (if is_between u v g then some g else none)
find-append u v g [] h = refl
find-append u v g (f ∷ fs) h = ground (arith, find-append u v g fs)

-- A new row between two users that had none.
pub Separate-append :
    (g : Friend) (fs : List Friend)
    → g.user_id ≢ g.friend_id
    → find (is_between g.user_id g.friend_id) fs ≡ none
    → Separate fs
    → Separate (fs ++ g ∷ [])
Separate-append g [] d h s = (d, refl, tt)
Separate-append g (f ∷ fs) d h (e, k, s) = (
  e,
  ground (arith, find-append f.user_id f.friend_id g fs k),
  Separate-append g fs d (ground arith) s,
)

find-update :
    (u v : ℕ) (p : Friend → Bool) (status : FriendStatus) (now : ℕ) (fs : List Friend)
    → find (is_between u v) fs ≡ none
    → find (is_between u v) (update p (λ f. record f { status = status; updated_at = now }) fs)
      ≡ none
find-update u v p status now [] h = refl
find-update u v p status now (f ∷ fs) h = ground (arith, find-update u v p status now fs)

pub Separate-update :
    (p : Friend → Bool) (status : FriendStatus) (now : ℕ) (fs : List Friend)
    → Separate fs
    → Separate (update p (λ f. record f { status = status; updated_at = now }) fs)
Separate-update p status now [] s = tt
Separate-update p status now (f ∷ fs) (e, k, s) =
    ground (
      arith,
      find-update f.user_id f.friend_id p status now fs k,
      Separate-update p status now fs s,
    )

find-select :
    (u v : ℕ) (p : Friend → Bool) (fs : List Friend)
    → find (is_between u v) fs ≡ none
    → find (is_between u v) (select p fs) ≡ none
find-select u v p [] h = refl
find-select u v p (f ∷ fs) h = ground (arith, find-select u v p fs)

pub Separate-select : (p : Friend → Bool) (fs : List Friend) → Separate fs → Separate (select p fs)
Separate-select p [] s = tt
Separate-select p (f ∷ fs) (e, k, s) =
    ground (arith, find-select f.user_id f.friend_id p fs k, Separate-select p fs s)

find-select-none :
    (u v a b : ℕ) (fs : List Friend)
    → find (is_between u v) fs ≡ none
    → find (is_between u v) (select (λ f. not (is_record a b f)) fs) ≡ none
find-select-none u v a b [] h = refl
find-select-none u v a b (f ∷ fs) h = ground (arith, find-select-none u v a b fs)

-- A row that is between two users, seen from either side.
pub find-swap : (u v : ℕ) (fs : List Friend) → find (is_between u v) fs ≡ find (is_between v u) fs
find-swap u v [] = refl
find-swap u v (f ∷ fs) = ground (arith, find-swap u v fs)

-- The row that a look-up finds is between the two users.
pub find-between :
    (u v : ℕ) (fs : List Friend) (f : Friend)
    → find (is_between u v) fs ≡ some f
    → ((f.user_id ≡ u) × (f.friend_id ≡ v)) ⊎ ((f.user_id ≡ v) × (f.friend_id ≡ u))
find-between u v [] f e = cc
find-between u v (g ∷ fs) f e = ground (arith, find-between u v fs f)

-- With the row deleted that a look-up found, nothing is left between the two users.
pub find-select_found :
    (u v : ℕ) (fs : List Friend) (f : Friend)
    → Separate fs
    → find (is_between u v) fs ≡ some f
    → find (is_between u v) (select (λ g. not (is_record f.user_id f.friend_id g)) fs) ≡ none
find-select_found u v [] f s e = cc
find-select_found u v (g ∷ fs) f (d, k, s) e = ground (
  arith,
  find-select_found u v fs f s,
  find-between u v fs f,
  find-select-none u v g.user_id g.friend_id fs,
  find-swap u v fs,
)

-- A look-up after the status of one row changed.
pub find-update_status :
    (u v : ℕ) (status : FriendStatus) (now : ℕ) (fs : List Friend) (f : Friend)
    → find (is_between u v) fs ≡ some f
    → f.user_id ≡ u
    → f.friend_id ≡ v
    → find
        (is_between u v)
        (update (is_record u v) (λ g. record g { status = status; updated_at = now }) fs)
      ≡ some (record f { status = status; updated_at = now })
find-update_status u v status now [] f e a b = cc
find-update_status u v status now (g ∷ fs) f e a b =
    ground (arith, find-update_status u v status now fs f)

-- A row that a look-up finds in its own direction is there for an UPDATE.
pub any-find :
    (u v : ℕ) (fs : List Friend) (f : Friend)
    → find (is_between u v) fs ≡ some f
    → f.user_id ≡ u
    → f.friend_id ≡ v
    → any (is_record u v) fs ≡ true
any-find u v [] f e a b = cc
any-find u v (g ∷ fs) f e a b = ground (arith, any-find u v fs f)

-- Where no row is between two users, none is for an INSERT to clash with.
pub any-find-none :
    (u v : ℕ) (fs : List Friend) → find (is_between u v) fs ≡ none → any (is_record u v) fs ≡ false
any-find-none u v [] e = refl
any-find-none u v (g ∷ fs) e = ground (arith, any-find-none u v fs)

-- `status = 'accepted'` in either direction, where two users share one row.
pub any-accepted :
    (u v : ℕ) (fs : List Friend) (f : Friend)
    → find (is_between u v) fs ≡ some f
    → f.status ≡ accepted
    → any (λ g. is_between u v g && status_eq g.status accepted) fs ≡ true
any-accepted u v [] f e a = cc
any-accepted u v (g ∷ fs) f e a = ground (arith, any-accepted u v fs f)

-- The row just inserted is found by its id.
pub find-append_id :
    (n : ℕ) (g : Friend) (fs : List Friend) → g.id ≡ n → find (λ f. f.id == n) (fs ++ g ∷ []) ≢ none
find-append_id n g [] e = ground arith
find-append_id n g (f ∷ fs) e = ground (arith, find-append_id n g fs e)

find-append_between :
    (u v : ℕ) (g : Friend) (fs : List Friend)
    → is_between u v g ≡ true
    → find (is_between u v) (fs ++ g ∷ []) ≢ none
find-append_between u v g [] e = ground arith
find-append_between u v g (f ∷ fs) e = ground (arith, find-append_between u v g fs e)

-- A second row between two users is one too many.
pub append-not-Separate :
    (g : Friend) (fs : List Friend)
    → any (is_record g.friend_id g.user_id) fs ≡ true
    → ¬ Separate (fs ++ g ∷ [])
append-not-Separate g [] h s = cc
append-not-Separate g (f ∷ fs) h (d, k, s) =
    ground (arith, append-not-Separate g fs, find-append_between f.user_id f.friend_id g fs)
