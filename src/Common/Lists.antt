-- ===== src/Common/Lists.antt =====
-- Lists measured by native numbers and searched by Boolean tests, as the queries of the store and
-- the loops of the services do.
use Prim.Native.String.{String, compare}
use text.Mathlib.Text.{is_le}
use Prim.Native.Nat.{ℕ, zero, suc, ◌+◌}
use mathlib.Core.Path.{◌≡◌, refl}
use mathlib.Core.Bool.{Bool, true, false, ◌&&◌, ◌||◌}
use mathlib.Core.Option.{Option, none, some}
use mathlib.Core.List.{List, [], ◌∷◌, ◌++◌}
use native.Mathlib.Omega.{arith}
use wirechat_server.Common.Tests.{if◌then◌else◌, leb, is_some}

module _ {ℓ} {A : Type ℓ} where
  abbrev pub length : List A → ℕ
  length [] = 0
  length (x ∷ xs) = suc (length xs)

  abbrev pub take : ℕ → List A → List A
  take zero xs = []
  take (suc n) [] = []
  take (suc n) (x ∷ xs) = x ∷ take n xs

  -- The first row that passes a test.
  abbrev pub find : (A → Bool) → List A → Option A
  find p [] = none
  find p (x ∷ xs) = if p x then some x else find p xs

  -- The rows that pass a test.
  abbrev pub select : (A → Bool) → List A → List A
  select p [] = []
  select p (x ∷ xs) = if p x then x ∷ select p xs else select p xs

  abbrev pub any : (A → Bool) → List A → Bool
  any p [] = false
  any p (x ∷ xs) = p x || any p xs

  abbrev pub all : (A → Bool) → List A → Bool
  all p [] = true
  all p (x ∷ xs) = p x && all p xs

  -- The rows that pass a test, changed in place.
  abbrev pub update : (A → Bool) → (A → A) → List A → List A
  update p f [] = []
  update p f (x ∷ xs) = (if p x then f x else x) ∷ update p f xs

  -- `ORDER BY key DESC` and `ORDER BY key ASC`; rows with equal keys stay in their order.
  abbrev pub insert_desc : (A → ℕ) → A → List A → List A
  insert_desc key x [] = x ∷ []
  insert_desc key x (y ∷ ys) = if leb (key y) (key x) then x ∷ y ∷ ys else y ∷ insert_desc key x ys

  abbrev pub order_desc : (A → ℕ) → List A → List A
  order_desc key [] = []
  order_desc key (x ∷ xs) = insert_desc key x (order_desc key xs)

  abbrev pub insert_asc : (A → ℕ) → A → List A → List A
  insert_asc key x [] = x ∷ []
  insert_asc key x (y ∷ ys) = if leb (key x) (key y) then x ∷ y ∷ ys else y ∷ insert_asc key x ys

  abbrev pub order_asc : (A → ℕ) → List A → List A
  order_asc key [] = []
  order_asc key (x ∷ xs) = insert_asc key x (order_asc key xs)

  abbrev pub insert_asc_text : (A → String) → A → List A → List A
  insert_asc_text key x [] = x ∷ []
  insert_asc_text key x (y ∷ ys) =
      if is_le (compare (key x) (key y)) then x ∷ y ∷ ys else y ∷ insert_asc_text key x ys

  -- SQLite's BINARY order of texts.
  abbrev pub order_asc_text : (A → String) → List A → List A
  order_asc_text key [] = []
  order_asc_text key (x ∷ xs) = insert_asc_text key x (order_asc_text key xs)

  pub length-append : (xs ys : List A) → length (xs ++ ys) ≡ length xs + length ys
  length-append [] ys = omega arith
  length-append (x ∷ xs) ys = omega (arith, length-append xs ys)

module _ {ℓ κ} {A : Type ℓ} (P : A → Type κ) where
  abbrev pub All : List A → Type κ
  All [] = Unit
  All (x ∷ xs) = P x × All xs

  pub All-append : (xs ys : List A) → All xs → All ys → All (xs ++ ys)
  All-append [] ys h k = k
  All-append (x ∷ xs) ys (p, h) k = (p, All-append xs ys h k)

-- A search that finds something is a test that passes, and the other way round.
pub any-find {ℓ} : {A : Type ℓ} (p : A → Bool) (xs : List A) → any p xs ≡ is_some (find p xs)
any-find p [] = refl
any-find p (x ∷ xs) = ground (arith, any-find p xs)
