-- ===== src/Store/Calls/Running.antt =====
-- The rows of `calls` of internal/store/sqlite/sqlite.go: distinct ids, and at most one running call in
-- a room.
use wirechat_server.Common.{
  ℕ, ◌≡◌, refl, ◌≢◌, String, Bool, true, false, ◌&&◌, none, some, List, [], ◌∷◌, ◌++◌, find, select,
  any, update, arith, eq_iff, order_desc, insert_desc, Option-cases, Bool-cases, inl, inr,
}
use wirechat_server.Store.Types.{Call, is_live}
use wirechat_server.Store.Calls.{has_id, is_live_in, saved, first}

-- The call runs in a room in which one of the others runs.
abbrev pub clashes : Call → List Call → Bool
clashes c cs = elim c.room_id [ none ↦ false | some r ↦ is_live c.status && any (is_live_in r) cs ]

abbrev pub OneRunning : List Call → Type 0
OneRunning [] = Unit {0}
OneRunning (c ∷ cs) = (clashes c cs ≡ false) × (find (has_id c.id) cs ≡ none) × OneRunning cs

find-append :
    (k : String) (d : Call) (cs : List Call)
    → find (has_id k) cs ≡ none
    → k ≢ d.id
    → find (has_id k) (cs ++ d ∷ []) ≡ none
find-append k d [] e h = ground (arith, eq_iff d.id k)
find-append k d (c ∷ cs) e h = ground (arith, find-append k d cs)

any-append :
    (r : ℕ) (d : Call) (cs : List Call)
    → any (is_live_in r) cs ≡ false
    → is_live_in r d ≡ false
    → any (is_live_in r) (cs ++ d ∷ []) ≡ false
any-append r d [] e h = ground arith
any-append r d (c ∷ cs) e h = ground (arith, any-append r d cs)

clashes-append :
    (c d : Call) (cs : List Call)
    → clashes c cs ≡ false
    → clashes d (c ∷ cs) ≡ false
    → clashes c (cs ++ d ∷ []) ≡ false
clashes-append c d cs e h = elim (Option-cases c.room_id) [
  | inl n ↦ ground arith
  | inr (r, n) ↦ ground (arith, any-append r d cs)
]

-- A new call, with an id of its own, in a room in which none runs.
pub OneRunning-append :
    (d : Call) (cs : List Call)
    → any (has_id d.id) cs ≡ false
    → clashes d cs ≡ false
    → OneRunning cs
    → OneRunning (cs ++ d ∷ [])
OneRunning-append d [] e h s = ground arith
OneRunning-append d (c ∷ cs) e h (a, b, s) = (
  clashes-append c d cs a h,
  find-append c.id d cs b (ground (arith, eq_iff c.id d.id)),
  OneRunning-append d cs (ground arith) (ground arith) s,
)

find-update :
    (j k : String) (new : Call) (now : ℕ) (cs : List Call)
    → find (has_id j) cs ≡ none
    → find (has_id j) (update (has_id k) (saved new now) cs) ≡ none
find-update j k new now [] e = refl
find-update j k new now (c ∷ cs) e = ground (arith, find-update j k new now cs)

any-update-none :
    (r : ℕ) (k : String) (new : Call) (now : ℕ) (cs : List Call)
    → find (has_id k) cs ≡ none
    → any (is_live_in r) (update (has_id k) (saved new now) cs) ≡ any (is_live_in r) cs
any-update-none r k new now [] e = refl
any-update-none r k new now (c ∷ cs) e = ground (arith, any-update-none r k new now cs)

-- Writing back a call that was read runs no call that did not run.
any-update :
    (r : ℕ) (k : String) (call new : Call) (now : ℕ) (cs : List Call)
    → OneRunning cs
    → find (has_id k) cs ≡ some call
    → (is_live new.status ≡ true → is_live call.status ≡ true)
    → any (is_live_in r) cs ≡ false
    → any (is_live_in r) (update (has_id k) (saved new now) cs) ≡ false
any-update r k call new now [] s e l h = refl
any-update r k call new now (c ∷ cs) (a, b, s) e l h =
    ground (arith, eq_iff c.id k, any-update-none r k new now cs, any-update r k call new now cs s)

clashes-update :
    (c : Call) (k : String) (call new : Call) (now : ℕ) (cs : List Call)
    → OneRunning cs
    → find (has_id k) cs ≡ some call
    → (is_live new.status ≡ true → is_live call.status ≡ true)
    → clashes c cs ≡ false
    → clashes c (update (has_id k) (saved new now) cs) ≡ false
clashes-update c k call new now cs s e l h = elim (Option-cases c.room_id) [
  | inl n ↦ ground arith
  | inr (r, n) ↦ ground (arith, any-update r k call new now cs s e l)
]

clashes-update-none :
    (c : Call) (k : String) (new : Call) (now : ℕ) (cs : List Call)
    → find (has_id k) cs ≡ none
    → clashes c (update (has_id k) (saved new now) cs) ≡ clashes c cs
clashes-update-none c k new now cs e = elim (Option-cases c.room_id) [
  | inl n ↦ ground arith
  | inr (r, n) ↦ ground (arith, any-update-none r k new now cs e)
]

update-none :
    (k : String) (new : Call) (now : ℕ) (cs : List Call)
    → find (has_id k) cs ≡ none
    → update (has_id k) (saved new now) cs ≡ cs
update-none k new now [] e = refl
update-none k new now (c ∷ cs) e = ground (arith, update-none k new now cs)

pub OneRunning-update :
    (k : String) (call new : Call) (now : ℕ) (cs : List Call)
    → OneRunning cs
    → find (has_id k) cs ≡ some call
    → (is_live new.status ≡ true → is_live call.status ≡ true)
    → OneRunning (update (has_id k) (saved new now) cs)
OneRunning-update k call new now [] s e l = tt
OneRunning-update k call new now (c ∷ cs) (a, b, s) e l = elim (Bool-cases (has_id k c)) [
  | inl same ↦
      let d : Call = saved new now c in
      rw (same, update-none k new now cs (ground (arith, eq_iff c.id k, b))) (ground arith, b, s)
  | inr other ↦ rw other (
    clashes-update c k call new now cs s (ground arith) l a,
    find-update c.id k new now cs b,
    OneRunning-update k call new now cs s (ground arith) l,
  )
]

first-insert : (key : Call → ℕ) (c : Call) (cs : List Call) → first (insert_desc key c cs) ≢ none
first-insert key c [] = ground arith
first-insert key c (d ∷ cs) = ground arith

-- The newest running call of a room is missing only where none runs.
pub first-order :
    (r : ℕ) (cs : List Call)
    → first (order_desc (λ c. c.created_at) (select (is_live_in r) cs)) ≡ none
    → any (is_live_in r) cs ≡ false
first-order r [] e = refl
first-order r (c ∷ cs) e = ground (
  arith,
  first-order r cs,
  first-insert (λ d. d.created_at) c (order_desc (λ d. d.created_at) (select (is_live_in r) cs)),
)
