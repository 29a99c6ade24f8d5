-- ===== src/Hub/Served.antt =====
-- internal/core/hub.go: what the sends need of the clients.
use wirechat_server.Common.{
  ℕ, ◌≡◌, refl, ◌∙◌, String, Bool, true, false, Option, none, some, List, [], ◌∷◌, arith, ltb, not,
  ◌&&◌, if◌then◌else◌,
}
use wirechat_server.Hub.Types.{Ptr, Room, Client, Event, contains}
use wirechat_server.Hub.{
  Hub, Go, done, panicked, stuck, ◌>>=◌, joined, find_room, find_user, set_client, deliver, send,
  try_deliver, try_send, broadcast, broadcast_to_room, send_to_user, in_world,
}
use wirechat_server.Hub.CallCommands.{notify}
use wirechat_server.Hub.Rooms.{member_of}
use wirechat_server.Hub.Frame.{Alike, Same, Same-refl, Same-trans, in_world-Same}
use wirechat_server.Hub.Logic.{Logic}

-- The code comes out, and this holds.
abbrev pub Does {ℓ} : {A : Type ℓ} → (A → Type 0) → Go A → Type 0
Does P (done a) = P a
Does P panicked = false ≡ true
Does P stuck = false ≡ true

pub Does->>= {ℓ κ} :
    {A : Type ℓ} {B : Type κ} (Q : A → Type 0) (P : B → Type 0) (m : Go A) (f : A → Go B)
    → Does Q m
    → ((a : A) → Q a → Does P (f a))
    → Does P (m >>= f)
Does->>= Q P (done a) f q k = k a q
Does->>= Q P panicked f q k = q
Does->>= Q P stuck f q k = q

pub Does-mono {ℓ} :
    {A : Type ℓ} (P Q : A → Type 0) (m : Go A) → ((a : A) → P a → Q a) → Does P m → Does Q m
Does-mono P Q (done a) f p = f a p
Does-mono P Q panicked f p = p
Does-mono P Q stuck f p = p

pub Does-if {ℓ} :
    {A : Type ℓ} (P : A → Type 0) (b : Bool) (m k : Go A)
    → (b ≡ true → Does P m)
    → (b ≡ false → Does P k)
    → Does P (if b then m else k)
Does-if P true m k p q = p refl
Does-if P false m k p q = q refl

-- No name stands in the set twice.
abbrev pub is_keyed : List String → Bool
is_keyed [] = true
is_keyed (n ∷ ns) = not (joined n ns) && is_keyed ns

-- Every client of the hub has an open channel; only clients of the hub are in rooms, no client has a
-- room in its set twice, and a user's entry is a client of the hub with that user's id.
pub record Served (h : Hub) : Type 0 where
  pub opened : (c : Ptr) → contains c h.clients ≡ true → (h.heap c).is_open ≡ true
  pub keyed : (c : Ptr) → is_keyed (h.heap c).rooms ≡ true
  pub inside :
      (c : Ptr) (n : String) → joined n (h.heap c).rooms ≡ true → contains c h.clients ≡ true
  pub users :
      (u : ℕ) (c : Ptr)
      → find_user u h.user_clients ≡ some c
      → (contains c h.clients ≡ true) × ((h.heap c).user_id ≡ u) × (ltb 0 u ≡ true)

pub Same-Served : (h k : Hub) → Same h k → Served h → Served k
Same-Served h k s w = record {
  opened = λ c e. (s.alike c).1 ∙ w.opened c (rw s.clients at e);
  keyed = λ c. rw (s.alike c).0 (w.keyed c);
  inside = λ c n e. rw s.clients (w.inside c n (rw (s.alike c).0 at e));
  users = λ u c e. rw (s.clients, (s.alike c).2) (w.users u c (rw s.users at e));
}

set_client-Same : (c : Ptr) (x : Client) (h : Hub) → Alike (h.heap c) x → Same h (set_client c x h)
set_client-Same c x h a = record {
  rooms = refl;
  clients = refl;
  users = refl;
  alike = λ d. ground arith;
}

-- The client is one of the hub, and its write loop runs.
abbrev pub Present : Ptr → Hub → Type 0
Present c h = (contains c h.clients ≡ true) × ((h.heap c).is_reading ≡ true)

pub send-Does :
    (c : Ptr) (e : Event) (h : Hub) → Served h → Present c h → Does (Same h) (send c e h)
unfolding send deliver
send-Does c e h s k =
    Does->>= (Alike (h.heap c)) (Same h) (deliver e (h.heap c)) _
      (ground (arith, s.opened c k.0, k.1)) (λ x a. set_client-Same c x h a)

pub try_send-Does :
    (c : Ptr) (e : Event) (h : Hub)
    → (h.heap c).is_open ≡ true
    → Does (λ (r : Hub × Bool). Same h r.0) (try_send c e h)
unfolding try_send try_deliver
try_send-Does c e h o =
    Does->>= (λ (r : Client × Bool). Alike (h.heap c) r.0) _ (try_deliver e (h.heap c)) _
      (ground (arith, o)) (λ r a. set_client-Same c r.0 h a)

pub Same->>=Does :
    (h : Hub) (m : Go Hub) (f : Hub → Go Hub)
    → Does (Same h) m
    → ((k : Hub) → Same h k → Does (Same k) (f k))
    → Does (Same h) (m >>= f)
Same->>=Does h m f p q =
    Does->>= (Same h) (Same h) m f p
      (λ k s. Does-mono (Same k) (Same h) (f k) (λ l t. Same-trans h k l s t) (q k s))

broadcast-Does :
    (cs : List Ptr) (e : Event) (h : Hub)
    → ((c : Ptr) → contains c cs ≡ true → (h.heap c).is_open ≡ true)
    → Does (Same h) (broadcast cs e h)
unfolding broadcast
broadcast-Does [] e h o = Same-refl h
broadcast-Does (c ∷ cs) e h o =
    Does->>= (λ (r : Hub × Bool). Same h r.0) (Same h) (try_send c e h) (λ r. broadcast cs e r.0)
      (try_send-Does c e h (o c (ground arith)))
      (λ r s.
        Does-mono (Same r.0) (Same h) (broadcast cs e r.0) (λ l t. Same-trans h r.0 l s t)
          (broadcast-Does cs e r.0 (λ d k. (s.alike d).1 ∙ o d (ground arith))))

-- The room map and the clients' sets agree.
abbrev pub Linked : Hub → Type 0
Linked h = (c : Ptr) (n : String) → member_of n c h.rooms ≡ joined n (h.heap c).rooms

pub broadcast_to_room-Does :
    (n : String) (e : Event) (h : Hub)
    → Linked h
    → Served h
    → Does (Same h) (broadcast_to_room n e h)
unfolding broadcast_to_room
broadcast_to_room-Does n e h l s = go (find_room n h) refl
  where
    go :
        (o : Option Room)
        → find_room n h ≡ o
        → Does (Same h) (elim o [ none ↦ done h | some r ↦ broadcast r.clients e h ])
    go none q = Same-refl h
    go (some r) q =
        broadcast-Does r.clients e h (λ c k. s.opened c (s.inside c n (ground (arith, l c n))))

send_to_user-Does :
    (u : ℕ) (e : Event) (h : Hub)
    → Served h
    → Does (λ (r : Hub × Bool). Same h r.0) (send_to_user u e h)
unfolding send_to_user
send_to_user-Does u e h s = go (find_user u h.user_clients) refl
  where
    go :
        (o : Option Ptr)
        → find_user u h.user_clients ≡ o
        → Does
            (λ (r : Hub × Bool). Same h r.0)
            (elim o [ none ↦ done (h, false) | some c ↦ try_send c e h ])
    go none q = Same-refl h
    go (some c) q = try_send-Does c e h (s.opened c (s.users u c q).0)

pub notify-Does : (u : ℕ) (e : Event) (h : Hub) → Served h → Does (Same h) (notify u e h)
notify-Does u e h s =
    Does->>= (λ (r : Hub × Bool). Same h r.0) (Same h) (send_to_user u e h) _
      (send_to_user-Does u e h s) (λ r t. t)

-- What the handlers need: all are served, and the sender is a client of the hub with a write loop.
abbrev pub Serves : Ptr → Hub → Type 0
Serves c h = Served h × Present c h

pub Same-Serves : (c : Ptr) (h k : Hub) → Same h k → Serves c h → Serves c k
Same-Serves c h k s (w, (e, r)) = (Same-Served h k s w, (rw s.clients e, (s.alike c).3 ∙ r))

abbrev pub total : (c : Ptr) → Logic c
total c = record {
  Holds = λ h m. Serves c h → Does (Same h) m;
  Fits = λ w v. Unit {0};
  follows = λ u v w p q. tt;
  stays = λ h s. Same-refl h;
  moves = λ w h m f p s.
      Does-mono (Same (in_world h w)) (Same h) m
        (λ l t. Same-trans h (in_world h w) l (in_world-Same w h) t)
        (p (Same-Serves c h (in_world h w) (in_world-Same w h) s));
  chains = λ h m f p q s. Same->>=Does h m f (p s) (λ k t. q k (Same-Serves c h k t s));
  chooses = λ h b m k p q s. Does-if (Same h) b m k (λ e. p s) (λ e. q s);
  sends = λ e g h s. send-Does c e h s.0 s.1;
  notifies = λ u e g h s. notify-Does u e h s.0;
}
