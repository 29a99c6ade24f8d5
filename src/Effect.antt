-- ===== src/Effect.antt =====
-- Fallible code over an explicit state: Go's `(value, error)` results, with the state that the call
-- leaves behind on either path.

use wirechat_server.Common.{◌≡◌, refl, Bool, true, false, arith}

pub data Outcome {ℓ} (S E A : Type ℓ) : Type ℓ where
  ok : A → S → Outcome S E A
  err : E → S → Outcome S E A

abbrev pub Action {ℓ} : Type ℓ → Type ℓ → Type ℓ → Type ℓ
Action S E A = S → Outcome S E A

infixl 5 ◌>>=◌ ◌>>◌
abbrev pub ◌>>=◌ {ℓ} : {S E A B : Type ℓ} → Action S E A → (A → Action S E B) → Action S E B
◌>>=◌ m f s = elim (m s) [ ok a s' ↦ f a s' | err e s' ↦ err e s' ]

abbrev pub ◌>>◌ {ℓ} : {S E A B : Type ℓ} → Action S E A → Action S E B → Action S E B
◌>>◌ m k s = elim (m s) [ ok a s' ↦ k s' | err e s' ↦ err e s' ]

abbrev pub pure {ℓ} : {S E A : Type ℓ} → A → Action S E A
pure a s = ok a s

abbrev pub fail {ℓ} : {S E A : Type ℓ} → E → Action S E A
fail e s = err e s

-- `if b { return m }; return k`
abbrev pub branch {ℓ} : {S E A : Type ℓ} → Bool → Action S E A → Action S E A → Action S E A
branch b m k s = elim b [ true ↦ m s | false ↦ k s ]

-- The state that a call leaves behind.
abbrev pub after {ℓ} : {S E A : Type ℓ} → Outcome S E A → S
after (ok a s) = s
after (err e s) = s

-- `if err != nil { return f(err) }`
abbrev pub wrap {ℓ} : {S E F A : Type ℓ} → (E → F) → Action S E A → Action S F A
wrap f m s = elim (m s) [ ok a s' ↦ ok a s' | err e s' ↦ err (f e) s' ]

pub wrap-err {ℓ} :
    {S E F A : Type ℓ} (f : E → F) (m : Action S E A) {s t : S} {e : E}
    → m s ≡ err e t
    → wrap f m s ≡ err (f e) t
wrap-err f m q = ground arith

pub after-wrap {ℓ} :
    {S E F A : Type ℓ} (f : E → F) (m : Action S E A) (s : S) → after (wrap f m s) ≡ after (m s)
after-wrap f m s = ground arith

-- `value, err := m`, where the caller looks at both.
pub data Attempt {ℓ} (E A : Type ℓ) : Type ℓ where
  got : A → Attempt E A
  failed : E → Attempt E A

abbrev pub attempt {ℓ} : {S E F A : Type ℓ} → Action S E A → Action S F (Attempt E A)
attempt m s = elim (m s) [ ok a s' ↦ ok (got a) s' | err e s' ↦ ok (failed e) s' ]

abbrev pub succeeds {ℓ} : {S E A : Type ℓ} → Outcome S E A → Bool
succeeds (ok a s) = true
succeeds (err e s) = false

-- What holds of the state after a step, and after each way to go on, holds after the sequence.
pub after->>= {ℓ κ} :
    {S E A B : Type ℓ} (P : S → Type κ) (m : Action S E A) (f : A → Action S E B) (s : S)
    → ((a : A) (t : S) → m s ≡ ok a t → P (after (f a t)))
    → ((e : E) (t : S) → m s ≡ err e t → P t)
    → P (after ((m >>= f) s))
after->>= {S} {E} {A} {B} P m f s good bad = go (m s) refl
  where
    go : (o : Outcome S E A) → m s ≡ o → P (after (elim o [ ok a t ↦ f a t | err e t ↦ err e t ]))
    go (ok a t) h = good a t h
    go (err e t) h = bad e t h

pub after-branch {ℓ κ} :
    {S E A : Type ℓ} (P : S → Type κ) (b : Bool) (m k : Action S E A) (s : S)
    → P (after (m s))
    → P (after (k s))
    → P (after (branch b m k s))
after-branch P true m k s x y = x
after-branch P false m k s x y = y
