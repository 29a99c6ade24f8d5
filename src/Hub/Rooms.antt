-- ===== src/Hub/Rooms.antt =====
-- internal/core/{hub,room}.go: the map of rooms and the sets of clients and of room names, under each
-- change that the hub makes.
use wirechat_server.Common.{
  true, ◌≡◌, refl, inl, inr, String, Bool, false, not, ◌&&◌, none, some, List, [], ◌∷◌, find,
  select, update, arith, eq_iff, ◌==◌, str_eq, if◌then◌else◌, Bool-cases,
}
use wirechat_server.Hub.Types.{Ptr, Room, contains, remove}
use wirechat_server.Hub.{is_named, joined}

-- The client is in the room of that name.
abbrev pub member_of : String → Ptr → List Room → Bool
member_of n c rs = elim (find (is_named n) rs) [ none ↦ false | some r ↦ contains c r.clients ]

pub contains-remove :
    (c d : Ptr) (cs : List Ptr) → contains c (remove d cs) ≡ (contains c cs && not (c == d))
contains-remove c d [] = refl
contains-remove c d (e ∷ cs) = ground (arith, contains-remove c d cs)

pub joined-leave :
    (n m : String) (rs : List String)
    → joined n (select (λ r. not (str_eq r m)) rs) ≡ (joined n rs && not (str_eq n m))
joined-leave n m [] = refl
joined-leave n m (r ∷ rs) = ground (arith, joined-leave n m rs, eq_iff r m, eq_iff r n, eq_iff n m)

find-update_ne :
    (n m : String) (r : Room) (rs : List Room)
    → r.name ≡ m
    → str_eq n m ≡ false
    → find (is_named n) (update (is_named m) (λ _. r) rs) ≡ find (is_named n) rs
find-update_ne n m r [] e d = refl
find-update_ne n m r (x ∷ rs) e d = ground (
  arith,
  eq_iff x.name m,
  eq_iff x.name n,
  eq_iff n m,
  eq_iff r.name n,
  find-update_ne n m r rs e d,
)

find-update_self :
    (m : String) (r q : Room) (rs : List Room)
    → r.name ≡ m
    → find (is_named m) rs ≡ some q
    → find (is_named m) (update (is_named m) (λ _. r) rs) ≡ some r
find-update_self m r q [] e h = cc
find-update_self m r q (x ∷ rs) e h =
    ground (arith, eq_iff x.name m, eq_iff r.name m, find-update_self m r q rs e)

-- A write to the map under a name that it has.
pub find-update :
    (n m : String) (r q : Room) (rs : List Room)
    → r.name ≡ m
    → find (is_named m) rs ≡ some q
    → find (is_named n) (update (is_named m) (λ _. r) rs)
      ≡ (if str_eq n m then some r else find (is_named n) rs)
find-update n m r q rs e h = elim (Bool-cases (str_eq n m)) [
  | inl same ↦ rw (same, (eq_iff n m).0 same) (find-update_self m r q rs e h)
  | inr other ↦ rw other (find-update_ne n m r rs e other)
]

-- A `delete`.
pub find-drop :
    (n m : String) (rs : List Room)
    → find (is_named n) (select (λ q. not (is_named m q)) rs)
      ≡ (if str_eq n m then none else find (is_named n) rs)
find-drop n m [] = ground arith
find-drop n m (x ∷ rs) =
    ground (arith, eq_iff x.name m, eq_iff x.name n, eq_iff n m, find-drop n m rs)

-- A room that is found has the name that was asked for.
pub find-name :
    (n : String) (rs : List Room) (r : Room) → find (is_named n) rs ≡ some r → r.name ≡ n
find-name n [] r e = cc
find-name n (x ∷ rs) r e = ground (arith, eq_iff x.name n, find-name n rs r)

-- No client is there twice.
abbrev pub distinct : List Ptr → Bool
distinct [] = true
distinct (c ∷ cs) = not (contains c cs) && distinct cs

pub distinct-remove : (c : Ptr) (cs : List Ptr) → distinct cs ≡ true → distinct (remove c cs) ≡ true
distinct-remove c [] e = refl
distinct-remove c (d ∷ cs) e = ground (arith, distinct-remove c cs, contains-remove d c cs)
