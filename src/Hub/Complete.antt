-- ===== src/Hub/Complete.antt =====
-- internal/core/hub.go: every event that the hub sends has what its kind needs.
pub mod Runs
use wirechat_server.Common.{
  ◌≡◌, refl, ◌∙◌, ap, ℕ, String, Bool, true, false, not, Option, none, some, List, [], ◌∷◌, ◌++◌,
  str_eq, arith, Option-cases, Bool-cases, ◌==◌, inl, inr, All, All-append, length, ltb,
}
use wirechat_server.Effect.{Outcome, ok, err}
use wirechat_server.Store.World.{World, DbError}
use wirechat_server.Store.Types as Stored
use wirechat_server.Store.Rooms.{get_room_by_name}
use wirechat_server.Store.Messages.{list_messages}
use wirechat_server.Hub.Types.{
  Ptr, Event, Client, Message, Command, is_complete, contains, events_cap, join_room, leave_room,
  send_room_message,
}
use wirechat_server.Hub.{
  Hub, Go, done, panicked, stuck, ◌>>=◌, send, deliver, try_send, try_deliver, broadcast,
  broadcast_to_room, find_room, find_user, room_add, room_remove, ensure_room, drop_empty, enter,
  leave, leave_rooms, close_client, forget, remove_from_hub, register, send_to_user, in_world,
  send_history, send_history_of, send_messages, to_history, set_client, save, fill_message, joined,
  push, take_oldest,
}
use wirechat_server.Hub as Rooms
use wirechat_server.Hub.CallCommands.{CallService, notify}
use wirechat_server.Hub.Commands.{handle_command-Holds}
use wirechat_server.Hub.Logic.{Logic, free-Fitting}
use wirechat_server.Hub.Loop.{Input, registers, unregisters, commands, handle_command, step, run}
use wirechat_server.Hub.Frame.{Then, Then->>=, Then-mono, Then-if}
use wirechat_server.Hub.Members.{room_add-heap}
use wirechat_server.Hub.Leaving.{room_remove-heap}
use wirechat_server.Hub.Delivery.{save-Stores}
use wirechat_server.Hub.Returns.{drop_empty-Elsewhere}

abbrev pub AllComplete : List Event → Type 0
AllComplete = All (λ e. is_complete e ≡ true)

-- Everything in the channels, and everything that was taken from them, is complete.
abbrev pub IsComplete : Hub → Type 0
IsComplete h = (c : Ptr) → AllComplete (h.heap c).events × AllComplete (h.heap c).written

abbrev pub Whole : Client → Type 0
Whole x = AllComplete x.events × AllComplete x.written

push-Whole : (e : Event) (x : Client) → is_complete e ≡ true → Whole x → Whole (push e x)
push-Whole e x g w = (All-append (λ v. is_complete v ≡ true) x.events (e ∷ []) w.0 (g, tt), w.1)

taken-Whole :
    (x : Client) (es : List Event)
    → x.events ≡ es
    → Whole x
    → Whole (elim es [ [] ↦ x | e ∷ r ↦ record x { events = r; written = x.written ++ e ∷ [] } ])
taken-Whole x [] q w = w
taken-Whole x (e ∷ es) q w =
    let all : AllComplete (e ∷ es) = rw q at (w.0) in
    (all.1, All-append (λ v. is_complete v ≡ true) x.written (e ∷ []) w.1 (all.0, tt))

pub take_oldest-Whole : (x : Client) → Whole x → Whole (take_oldest x)
take_oldest-Whole x w = taken-Whole x x.events refl w

deliver-Whole : (e : Event) (x : Client) → is_complete e ≡ true → Whole x → Then Whole (deliver e x)
unfolding deliver
deliver-Whole e x g w = Then-if Whole (not x.is_open) _ _ tt (
    Then-if Whole (ltb (length x.events) events_cap) _ _ (push-Whole e x g w)
      (Then-if Whole x.is_reading _ _ (push-Whole e (take_oldest x) g (take_oldest-Whole x w)) tt))

try_deliver-Whole :
    (e : Event) (x : Client)
    → is_complete e ≡ true
    → Whole x
    → Then (λ (r : Client × Bool). Whole r.0) (try_deliver e x)
unfolding try_deliver
try_deliver-Whole e x g w =
    Then-if (λ (r : Client × Bool). Whole r.0) (not x.is_open) _ _ tt
      (Then-if (λ (r : Client × Bool). Whole r.0) (ltb (length x.events) events_cap) _ _
        (push-Whole e x g w) w)

set_client-IsComplete :
    (c : Ptr) (x : Client) (h : Hub) → Whole x → IsComplete h → IsComplete (set_client c x h)
set_client-IsComplete c x h w s d = elim (Bool-cases (d == c)) [
  | inl e ↦ rw e w
  | inr e ↦ rw e (s d)
]

pub send-IsComplete :
    (c : Ptr) (e : Event)
    → is_complete e ≡ true
    → (h : Hub) → IsComplete h
    → Then IsComplete (send c e h)
unfolding send
send-IsComplete c e g h s =
    Then->>= Whole IsComplete (deliver e (h.heap c)) _ (deliver-Whole e (h.heap c) g (s c))
      (λ x w. set_client-IsComplete c x h w s)

try_send-IsComplete :
    (c : Ptr) (e : Event)
    → is_complete e ≡ true
    → (h : Hub) → IsComplete h
    → Then (λ (r : Hub × Bool). IsComplete r.0) (try_send c e h)
unfolding try_send
try_send-IsComplete c e g h s =
    Then->>= (λ (r : Client × Bool). Whole r.0) (λ (r : Hub × Bool). IsComplete r.0)
      (try_deliver e (h.heap c)) _ (try_deliver-Whole e (h.heap c) g (s c))
      (λ r w. set_client-IsComplete c r.0 h w s)

broadcast-IsComplete :
    (cs : List Ptr) (e : Event)
    → is_complete e ≡ true
    → (h : Hub) → IsComplete h
    → Then IsComplete (broadcast cs e h)
unfolding broadcast
broadcast-IsComplete [] e g h s = s
broadcast-IsComplete (c ∷ cs) e g h s =
    Then->>= (λ (r : Hub × Bool). IsComplete r.0) IsComplete (try_send c e h)
      (λ r. broadcast cs e r.0) (try_send-IsComplete c e g h s)
      (λ r t. broadcast-IsComplete cs e g r.0 t)

pub broadcast_to_room-IsComplete :
    (n : String) (e : Event)
    → is_complete e ≡ true
    → (h : Hub) → IsComplete h
    → Then IsComplete (broadcast_to_room n e h)
unfolding broadcast_to_room
broadcast_to_room-IsComplete n e g h s =
    elim (find_room n h)
      as (λ o. Then IsComplete (elim o [ none ↦ done h | some r ↦ broadcast r.clients e h ])) [
        | none ↦ s
        | some r ↦ broadcast-IsComplete r.clients e g h s
      ]

pub notify-IsComplete :
    (u : ℕ) (e : Event)
    → is_complete e ≡ true
    → (h : Hub) → IsComplete h
    → Then IsComplete (notify u e h)
unfolding send_to_user
notify-IsComplete u e g h s =
    elim (find_user u h.user_clients)
      as (λ o.
        Then IsComplete
          (elim o [ none ↦ done (h, false) | some c ↦ try_send c e h ] >>= λ r. done r.0)) [
            | none ↦ s
            | some c ↦
                Then->>= (λ (r : Hub × Bool). IsComplete r.0) IsComplete (try_send c e h) _
                  (try_send-IsComplete c e g h s) (λ r t. t)
          ]

-- The commands on calls send only such events.
abbrev pub complete : (c : Ptr) → Logic c
complete c = record {
  Holds = λ h m. IsComplete h → Then IsComplete m;
  Fits = λ w v. Unit {0};
  follows = λ u v w p q. tt;
  stays = λ h s. s;
  moves = λ w h m f p s. p s;
  chains = λ h m f p q s. Then->>= IsComplete IsComplete m f (p s) (λ k t. q k t);
  chooses = λ h b m k p q s. Then-if IsComplete b m k (p s) (q s);
  sends = send-IsComplete c;
  notifies = notify-IsComplete;
}
