-- ===== src/Hub/Frame.antt =====
-- internal/core/{hub,room}.go: a send changes the queues of clients and nothing else.
use wirechat_server.Common.{
  ℕ, ◌≡◌, refl, ◌∙◌, String, Bool, true, false, none, some, List, [], ◌∷◌, arith, if◌then◌else◌,
}
use wirechat_server.Effect.{Outcome, ok, err}
use wirechat_server.Store.World.{World, DbError}
use wirechat_server.Store.Types as Stored
use wirechat_server.Hub.Types.{Ptr, Client, Event}
use wirechat_server.Hub.{
  Hub, Go, done, panicked, stuck, ◌>>=◌, send, deliver, try_send, try_deliver, broadcast,
  broadcast_to_room, send_to_user, find_room, set_client, in_world, send_history, send_messages,
  send_history_of, to_history, find_user,
}
use wirechat_server.Store.Rooms.{get_room_by_name}
use wirechat_server.Store.Messages.{list_messages}

-- What holds after a piece of code, if it comes out of it.
abbrev pub Then {ℓ κ} : {A : Type ℓ} → (A → Type κ) → Go A → Type κ
Then P (done a) = P a
Then P panicked = Unit
Then P stuck = Unit

pub Then->>= {ℓ κ μ} :
    {A : Type ℓ} {B : Type κ} (Q : A → Type μ) (P : B → Type μ) (m : Go A) (f : A → Go B)
    → Then Q m
    → ((a : A) → Q a → Then P (f a))
    → Then P (m >>= f)
Then->>= Q P (done a) f q k = k a q
Then->>= Q P panicked f q k = tt
Then->>= Q P stuck f q k = tt

pub Then-mono {ℓ κ μ} :
    {A : Type ℓ} (P : A → Type κ) (Q : A → Type μ) (m : Go A)
    → ((a : A) → P a → Q a)
    → Then P m
    → Then Q m
Then-mono P Q (done a) f p = f a p
Then-mono P Q panicked f p = tt
Then-mono P Q stuck f p = tt

pub Then-both {ℓ κ} :
    {A : Type ℓ} (P Q : A → Type κ) (m : Go A) → Then P m → Then Q m → Then (λ a. P a × Q a) m
Then-both P Q (done a) p q = (p, q)
Then-both P Q panicked p q = tt
Then-both P Q stuck p q = tt

-- A piece of code with two branches.
pub Then-if {ℓ κ} :
    {A : Type ℓ} (P : A → Type κ) (b : Bool) (m k : Go A)
    → Then P m
    → Then P k
    → Then P (if b then m else k)
Then-if P true m k p q = p
Then-if P false m k p q = q

-- A client with another queue.
abbrev pub Alike : Client → Client → Type 0
Alike x y =
    (y.rooms ≡ x.rooms)
    × (y.is_open ≡ x.is_open)
    × (y.user_id ≡ x.user_id)
    × (y.is_reading ≡ x.is_reading)

-- Only the queues of the clients, and the world, differ.
pub record Same (h k : Hub) : Type 0 where
  pub rooms : k.rooms ≡ h.rooms
  pub clients : k.clients ≡ h.clients
  pub users : k.user_clients ≡ h.user_clients
  pub alike : (c : Ptr) → Alike (h.heap c) (k.heap c)

pub Same-refl : (h : Hub) → Same h h
Same-refl h = record {
  rooms = refl;
  clients = refl;
  users = refl;
  alike = λ c. (refl, refl, refl, refl);
}

pub Same-trans : (h k l : Hub) → Same h k → Same k l → Same h l
Same-trans h k l a b = record {
  rooms = b.rooms ∙ a.rooms;
  clients = b.clients ∙ a.clients;
  users = b.users ∙ a.users;
  alike = λ c. (
    (b.alike c).0 ∙ (a.alike c).0,
    (b.alike c).1 ∙ (a.alike c).1,
    (b.alike c).2 ∙ (a.alike c).2,
    (b.alike c).3 ∙ (a.alike c).3,
  );
}

set_client-Same : (c : Ptr) (x : Client) (h : Hub) → Alike (h.heap c) x → Same h (set_client c x h)
set_client-Same c x h a = record {
  rooms = refl;
  clients = refl;
  users = refl;
  alike = λ d. ground arith;
}

deliver-Alike : (e : Event) (x : Client) → Then (Alike x) (deliver e x)
unfolding deliver
deliver-Alike e x = ground arith

try_deliver-Alike :
    (e : Event) (x : Client) → Then (λ (r : Client × Bool). Alike x r.0) (try_deliver e x)
unfolding try_deliver
try_deliver-Alike e x = ground arith

pub send-Same : (c : Ptr) (e : Event) (h : Hub) → Then (Same h) (send c e h)
unfolding send
send-Same c e h =
    Then->>= (Alike (h.heap c)) (Same h) (deliver e (h.heap c)) _ (deliver-Alike e (h.heap c))
      (λ x a. set_client-Same c x h a)

pub try_send-Same :
    (c : Ptr) (e : Event) (h : Hub) → Then (λ (r : Hub × Bool). Same h r.0) (try_send c e h)
unfolding try_send
try_send-Same c e h =
    Then->>= (λ (r : Client × Bool). Alike (h.heap c) r.0) _ (try_deliver e (h.heap c)) _
      (try_deliver-Alike e (h.heap c)) (λ r a. set_client-Same c r.0 h a)

-- Two pieces of code, each of which leaves all but the queues.
pub Same->>= :
    (h : Hub) (m : Go Hub) (f : Hub → Go Hub)
    → Then (Same h) m
    → ((k : Hub) → Then (Same k) (f k))
    → Then (Same h) (m >>= f)
Same->>= h (done k) f s each =
    Then-mono (Same k) (Same h) (f k) (λ l t. Same-trans h k l s t) (each k)
Same->>= h panicked f s each = tt
Same->>= h stuck f s each = tt

pub broadcast-Same : (cs : List Ptr) (e : Event) (h : Hub) → Then (Same h) (broadcast cs e h)
unfolding broadcast
broadcast-Same [] e h = Same-refl h
broadcast-Same (c ∷ cs) e h =
    Then->>= (λ (r : Hub × Bool). Same h r.0) (Same h) (try_send c e h) (λ r. broadcast cs e r.0)
      (try_send-Same c e h)
      (λ r s.
        Then-mono (Same r.0) (Same h) (broadcast cs e r.0) (λ l t. Same-trans h r.0 l s t)
          (broadcast-Same cs e r.0))

pub broadcast_to_room-Same :
    (n : String) (e : Event) (h : Hub) → Then (Same h) (broadcast_to_room n e h)
unfolding broadcast_to_room
broadcast_to_room-Same n e h =
    elim (find_room n h)
      as (λ o. Then (Same h) (elim o [ none ↦ done h | some r ↦ broadcast r.clients e h ])) [
        | none ↦ Same-refl h
        | some r ↦ broadcast-Same r.clients e h
      ]

pub send_to_user-Same :
    (u : ℕ) (e : Event) (h : Hub) → Then (λ (r : Hub × Bool). Same h r.0) (send_to_user u e h)
unfolding send_to_user
send_to_user-Same u e h =
    elim (find_user u h.user_clients)
      as (λ o.
        Then (λ (r : Hub × Bool). Same h r.0)
          (elim o [ none ↦ done (h, false) | some c ↦ try_send c e h ])) [
            | none ↦ Same-refl h
            | some c ↦ try_send-Same c e h
          ]

pub in_world-Same : (w : World) (h : Hub) → Same h (in_world h w)
in_world-Same w h = record {
  rooms = refl;
  clients = refl;
  users = refl;
  alike = λ c. (refl, refl, refl, refl);
}

-- The same, of a piece of code that starts in another world.
pub from_world : (w : World) (h : Hub) (m : Go Hub) → Then (Same (in_world h w)) m → Then (Same h) m
from_world w h m =
    Then-mono (Same (in_world h w)) (Same h) m
      (λ l t. Same-trans h (in_world h w) l (in_world-Same w h) t)

send_messages-Same :
    (c : Ptr) (n : String) (r : Outcome World DbError (List Stored.Message)) (h : Hub)
    → Then (Same h) (send_messages c n r h)
unfolding send_messages
send_messages-Same c n (err e w) h = in_world-Same w h
send_messages-Same c n (ok [] w) h = in_world-Same w h
send_messages-Same c n (ok (m ∷ ms) w) h =
    from_world _ h _ (send-Same c _ (in_world h (to_history n (m ∷ ms) w).1))

send_history_of-Same :
    (c : Ptr) (n : String) (r : Outcome World DbError Stored.Room) (h : Hub)
    → Then (Same h) (send_history_of c n r h)
unfolding send_history_of
send_history_of-Same c n (err e w) h = in_world-Same w h
send_history_of-Same c n (ok room w) h = send_messages-Same c n (list_messages room.id 20 none w) h

pub send_history-Same : (c : Ptr) (n : String) (h : Hub) → Then (Same h) (send_history c n h)
unfolding send_history
send_history-Same c n h =
    Then-if (Same h) h.has_store _ _ (send_history_of-Same c n (get_room_by_name n h.world) h)
      (Same-refl h)
