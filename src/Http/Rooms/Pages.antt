-- ===== src/Http/Rooms/Pages.antt =====
-- internal/transport/http/room_handlers.go, GetMessages: what a page of the history holds.
use mathlib.Core.List.{reverse-cons}
use wirechat_server.Common.{
  ℕ, zero, suc, ◌+◌, ◌≤◌, Bool, true, false, ◌&&◌, ◌≡◌, inl, inr, Option, none, some, List, [], ◌∷◌,
  ◌++◌, length, take, map, reverse, select, order_desc, insert_desc, All, All-append, length-append,
  refl, subst, arith, ltb, leb, ◌==◌, Bool-cases, ap, if◌then◌else◌,
}
use wirechat_server.Store.Types.{Message}
use wirechat_server.Store.World.{World}
use wirechat_server.Store.Messages.{older, list_messages}
use wirechat_server.Http.Response.{Response, messages}
use wirechat_server.Http.Rooms.{page_limit, page, to_message, get_messages}

pub page_limit-Bounded : (limit : Option ℕ) → (1 ≤ page_limit limit) × (page_limit limit ≤ 100)
page_limit-Bounded none = ground arith
page_limit-Bounded (some n) = ground arith

-- The rows of the query, newest first.
abbrev pub rows : ℕ → Option ℕ → World → List Message
rows rid before w =
    order_desc (λ m. m.id) (select (λ m. m.room_id == rid && older before m) w.db.messages)

module _ {ℓ} {A : Type ℓ} where
  length-reverse : (xs : List A) → length (reverse xs) ≡ length xs
  length-reverse [] = refl
  length-reverse (x ∷ xs) =
      rw (reverse-cons x xs) (omega (arith, length-append (reverse xs) (x ∷ []), length-reverse xs))

  take-append : (n : ℕ) (xs ys : List A) → length xs ≡ n → take n (xs ++ ys) ≡ xs
  take-append zero [] ys e = refl
  take-append zero (x ∷ xs) ys e = ground arith
  take-append (suc n) [] ys e = ground arith
  take-append (suc n) (x ∷ xs) ys e = rw (take-append n xs ys (ground arith)) refl

length-map : (xs : List Message) → length (map to_message xs) ≡ length xs
length-map [] = refl
length-map (x ∷ xs) = omega (arith, length-map xs)

length-take : (n : ℕ) (xs : List Message) → n ≤ length xs → length (take n xs) ≡ n
length-take zero xs h = refl
length-take (suc n) [] h = ground arith
length-take (suc n) (x ∷ xs) h = omega (arith, length-take n xs (omega (arith, h)))

module _ (P : Message → Type 0) where
  All-take : (n : ℕ) (xs : List Message) → All P xs → All P (take n xs)
  All-take zero xs h = tt
  All-take (suc n) [] h = tt
  All-take (suc n) (x ∷ xs) (p, h) = (p, All-take n xs h)

  All-reverse : (xs : List Message) → All P xs → All P (reverse xs)
  All-reverse [] h = tt
  All-reverse (x ∷ xs) (p, h) =
      rw (reverse-cons x xs) (All-append P (reverse xs) (x ∷ []) (All-reverse xs h) (p, tt))

  All-insert_desc :
      (m : Message) (xs : List Message) → P m → All P xs → All P (insert_desc (λ x. x.id) m xs)
  All-insert_desc m [] p h = (p, tt)
  All-insert_desc m (x ∷ xs) p (q, h) = elim (Bool-cases (leb x.id m.id)) [
    | inl e ↦ rw e (p, (q, h))
    | inr e ↦ rw e (q, All-insert_desc m xs p h)
  ]

  All-order_desc : (xs : List Message) → All P xs → All P (order_desc (λ x. x.id) xs)
  All-order_desc [] h = tt
  All-order_desc (x ∷ xs) (p, h) =
      All-insert_desc x (order_desc (λ y. y.id) xs) p (All-order_desc xs h)

-- A message of the room, older than the cursor.
abbrev pub Wanted : ℕ → Option ℕ → Message → Type 0
Wanted rid before m = (m.room_id ≡ rid) × (older before m ≡ true)

All-select :
    (rid : ℕ) (before : Option ℕ) (xs : List Message)
    → All (Wanted rid before) (select (λ m. m.room_id == rid && older before m) xs)
All-select rid before [] = tt
All-select rid before (x ∷ xs) = elim (Bool-cases (x.room_id == rid && older before x)) [
  | inl e ↦ rw e ((ground arith, ground arith), All-select rid before xs)
  | inr e ↦ rw e (All-select rid before xs)
]

take_nil : (n : ℕ) → take {A = Message} n [] ≡ []
take_nil zero = refl
take_nil (suc n) = refl

take_next : (n : ℕ) (x : Message) (xs : List Message) → take (n + 1) (x ∷ xs) ≡ x ∷ take n xs
take_next n x xs =
    let e : suc n ≡ n + 1 = omega arith in subst (λ k. take k (x ∷ xs) ≡ x ∷ take n xs) e refl

more_rows : (n : ℕ) (xs : List Message) → ltb n (length (take (n + 1) xs)) ≡ ltb n (length xs)
more_rows zero [] = refl
more_rows zero (x ∷ xs) = ground arith
more_rows (suc n) [] = rw (take_nil (suc n + 1)) refl
more_rows (suc n) (x ∷ xs) = ground (arith, more_rows n xs, take_next (suc n) x xs)

take_all : (n : ℕ) (xs : List Message) → length xs ≤ n → take n xs ≡ xs
take_all zero [] h = refl
take_all zero (x ∷ xs) h = ground (arith, h)
take_all (suc n) [] h = refl
take_all (suc n) (x ∷ xs) h = rw (take_all n xs (omega (arith, h))) refl

-- The page is full if there are more rows than it may hold, and has all of them otherwise.
length-page :
    (n : ℕ) (all : List Message)
    → length (page n (reverse (take (n + 1) all))) ≡ (if ltb n (length all) then n else length all)
length-page n all =
    let got : List Message = reverse (take (n + 1) all) in
    let same : length got ≡ length (take (n + 1) all) = length-reverse (take (n + 1) all) in
    elim (Bool-cases (ltb n (length all))) [
      | inl more ↦
          let size = length-take (n + 1) all (ground (arith, more)) in
          ground (arith, more, same, size, length-take n got (ground (arith, same, size)))
      | inr fits ↦
          let size = take_all (n + 1) all (ground (arith, fits)) in
          ground (arith, fits, same, ap (λ (xs : List Message). length xs) size)
    ]

All-page : (P : Message → Type 0) (n : ℕ) (ms : List Message) → All P ms → All P (page n ms)
All-page P n ms h = elim (Bool-cases (ltb n (length ms))) [
  | inl e ↦ rw e (All-take P n ms h)
  | inr e ↦ rw e h
]

-- The answer with a page of messages.
abbrev pub answer : List Message → Bool → World → Response × World
answer ms more w = (
  record {
    status = 200;
    body = messages (record { messages = map to_message ms; has_more = more });
  },
  record w { ticks = w.ticks + 1 },
)

-- Where the statement does not fail, a page of the history has as many messages as the page size
-- says, if the room has that many older than the cursor (if there is one), and otherwise as many as
-- there are; each is of the room and older than the cursor; and has_more says exactly whether there
-- are more than the page size. The page size is between 1 and 100.
pub get_messages-Bounded :
    (rid : ℕ) (limit before : Option ℕ) (w : World)
    → w.env.faulty w.ticks ≡ false
    → (ms : List Message) × (get_messages (some rid) limit before w
        ≡ answer ms (ltb (page_limit limit) (length (rows rid before w))) w)
      × (length ms ≡ (
          if ltb (page_limit limit) (length (rows rid before w))
          then page_limit limit
          else length (rows rid before w)))
      × (1 ≤ page_limit limit)
      × (page_limit limit ≤ 100)
      × All (Wanted rid before) ms
unfolding get_messages list_messages
get_messages-Bounded rid limit before w q =
    let n : ℕ = page_limit limit in
    let all : List Message = rows rid before w in
    let got : List Message = reverse (take (n + 1) all) in
    let more : ltb n (length got) ≡ ltb n (length all) =
      rw (length-reverse (take (n + 1) all)) (more_rows n all) in
    (
      page n got,
      ground (arith, q, more),
      length-page n all,
      (page_limit-Bounded limit).0,
      (page_limit-Bounded limit).1,
      All-page (Wanted rid before) n got (
          All-reverse (Wanted rid before) (take (n + 1) all) (
            All-take (Wanted rid before) (n + 1) all
              (All-order_desc (Wanted rid before) _ (All-select rid before w.db.messages)))),
    )

-- Where the statement does not fail and a room has more messages before the cursor than the page
-- may hold, the page has the right number of them without the newest one.
pub get_messages-drops_newest :
    (rid : ℕ) (limit before : Option ℕ) (w : World) (m : Message) (rest : List Message)
    → w.env.faulty w.ticks ≡ false
    → rows rid before w ≡ m ∷ rest
    → page_limit limit ≤ length rest
    → get_messages (some rid) limit before w
      ≡ answer (reverse (take (page_limit limit) rest)) true w
unfolding get_messages list_messages
get_messages-drops_newest rid limit before w m rest q e h =
    let n : ℕ = page_limit limit in
    let old : List Message = reverse (take n rest) in
    let got : reverse (take (n + 1) (rows rid before w)) ≡ old ++ m ∷ [] =
      rw (e, take_next n m rest) (reverse-cons m (take n rest)) in
    let size : length old ≡ n = rw (length-reverse (take n rest)) (length-take n rest h) in
    ground (arith, q, got, take-append n old (m ∷ []) size, length-append old (m ∷ []))
