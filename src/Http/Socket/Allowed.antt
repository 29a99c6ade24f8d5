-- ===== src/Http/Socket/Allowed.antt =====
-- internal/transport/http/ws_handler.go: which commands reach the hub.
use wirechat_server.Common.{
  ℕ, String, Bool, true, false, ◌≡◌, ◌≢◌, ◌⊎◌, inl, inr, some, find, any, refl, ap, sym, subst,
  arith, str_eq, Option-cases, Bool-cases,
}
use wirechat_server.Effect.{Outcome, ok, err}
use wirechat_server.Store.Types.{
  Room, RoomType, public_room, private_room, direct_room, channel_room,
}
use wirechat_server.Store.World.{World, clock}
use wirechat_server.Store.Rooms.{is_member_row, get_room_by_name, is_member}
use wirechat_server.Auth.{JwtConfig, Crypto}
use wirechat_server.Hub.Types.{
  Client, Message, Command, join_room, leave_room, send_room_message, call_invite, call_accept,
  call_reject, call_join, call_leave, call_end,
}
use wirechat_server.Proto.{Error, Inbound}
use wirechat_server.Http.Mapper.{Mapped, command, refused, malformed, invited, inbound_to_command}
use wirechat_server.Http.Socket.Kinds.{command_kind_string-inbound_to_command}
use wirechat_server.Http.Socket.{
  Session, forwards, is_anonymous, admit, read, understand, demand_hello, check_limits, finish,
  forward, forward_join, hear_other, hear_hello, Hello, handle_hello, command_kind_string,
}

-- A room that a user may join: a public one, or one that the user is a member of.
abbrev pub Enters : ℕ → RoomType → ℕ → World → Type 0
Enters u public_room id w = Unit
Enters u private_room id w = any (is_member_row u id) w.db.room_members ≡ true
Enters u direct_room id w = any (is_member_row u id) w.db.room_members ≡ true
Enters u channel_room id w = true ≡ false

abbrev pub MayJoin : ℕ → String → World → Type 0
MayJoin u name w =
    (r : Room) × (find (λ (x : Room). str_eq x.name name) w.db.rooms ≡ some r)
    × Enters u r.type r.id w

pub admit-MayJoin :
    (x : Client) (name : String) (w v : World) → admit x name w ≡ ok tt v → MayJoin x.user_id name w
unfolding admit get_room_by_name is_member
admit-MayJoin x name w v e =
    elim (Option-cases (find (λ (x : Room). str_eq x.name name) w.db.rooms)) [
      | inl n ↦ ground arith
      | inr (r, f) ↦ (r, f, go r r.type refl (ground arith))
    ]
  where
    go :
        (r : Room) (t : RoomType)
        → r.type ≡ t
        → find (λ (x : Room). str_eq x.name name) w.db.rooms ≡ some r
        → Enters x.user_id t r.id w
    go r public_room q f = tt
    go r private_room q f = ground arith
    go r direct_room q f = ground arith
    go r channel_room q f = ground arith

-- What a command asks of the client that sends it.
abbrev pub May : Client → Command → World → Type 0
May x (join_room name) w = MayJoin x.user_id name w
May x (leave_room name) w = Unit
May x (send_room_message name m) w = m.from ≡ x.name
May x (call_invite c) w = is_anonymous x ≡ false
May x (call_accept c) w = is_anonymous x ≡ false
May x (call_reject c) w = is_anonymous x ≡ false
May x (call_join c) w = is_anonymous x ≡ false
May x (call_leave c) w = is_anonymous x ≡ false
May x (call_end c) w = is_anonymous x ≡ false

sender_is :
    (x : Client) (m : Inbound) (now : ℕ) (name : String) (msg : Message)
    → inbound_to_command x m now ≡ command (send_room_message name msg)
    → msg.from ≡ x.name
unfolding inbound_to_command command_kind_string invited
sender_is x m now name msg e =
    let k : m.type ≡ "msg" =
      sym (command_kind_string-inbound_to_command x m now (send_room_message name msg) e) in
    let as_type : String → Inbound = λ t. record m { type = t } in
    let f : inbound_to_command x (as_type "msg") now ≡ command (send_room_message name msg) =
      subst (λ t. inbound_to_command x (as_type t) now ≡ command (send_room_message name msg)) k
        e in
    ground (arith, f)

module _ (lib : Crypto) (cfg : JwtConfig) (required : Bool) where
  -- The command that the mapper made is the one that is forwarded.
  forwards_command :
      (s t : Session) (m : Inbound) (d c : Command)
      → str_eq m.type "hello" ≡ false
      → inbound_to_command s.client m (clock s.world) ≡ command d
      → read lib cfg required s m ≡ (forwards c, t)
      → ((required ≡ false) ⊎ (s.authenticated ≡ true)) × (d ≡ c)
  unfolding read understand hear_other demand_hello check_limits finish forward forward_join
  forwards_command s t m (join_room name) c h i e = ground arith
  forwards_command s t m (leave_room name) c h i e = ground arith
  forwards_command s t m (send_room_message name msg) c h i e = ground arith
  forwards_command s t m (call_invite k) c h i e = ground arith
  forwards_command s t m (call_accept k) c h i e = ground arith
  forwards_command s t m (call_reject k) c h i e = ground arith
  forwards_command s t m (call_join k) c h i e = ground arith
  forwards_command s t m (call_leave k) c h i e = ground arith
  forwards_command s t m (call_end k) c h i e = ground arith

  -- The client may do what it asks for.
  forwards_May :
      (s t : Session) (m : Inbound) (c : Command)
      → str_eq m.type "hello" ≡ false
      → inbound_to_command s.client m (clock s.world) ≡ command c
      → read lib cfg required s m ≡ (forwards c, t)
      → May s.client c s.world
  unfolding read understand hear_other demand_hello check_limits finish forward forward_join
  forwards_May s t m (join_room name) h i e = go (admit s.client name s.world) refl
    where
      go :
          (o : Outcome World Error (Unit {0}))
          → admit s.client name s.world ≡ o
          → MayJoin s.client.user_id name s.world
      go (ok u w) q = admit-MayJoin s.client name s.world w (ground arith)
      go (err x w) q = ground arith
  forwards_May s t m (leave_room name) h i e = tt
  forwards_May s t m (send_room_message name msg) h i e =
      sender_is s.client m (clock s.world) name msg i
  forwards_May s t m (call_invite k) h i e = ground arith
  forwards_May s t m (call_accept k) h i e = ground arith
  forwards_May s t m (call_reject k) h i e = ground arith
  forwards_May s t m (call_join k) h i e = ground arith
  forwards_May s t m (call_leave k) h i e = ground arith
  forwards_May s t m (call_end k) h i e = ground arith

  hello_forwards :
      (s t : Session) (m : Inbound) (c : Command)
      → str_eq m.type "hello" ≡ true
      → read lib cfg required s m ≢ (forwards c, t)
  unfolding read understand hear_hello demand_hello check_limits finish forward forward_join
  hello_forwards s t m c h e = go (handle_hello lib cfg required s.client m (clock s.world)) refl
    where
      go : (o : Hello) → handle_hello lib cfg required s.client m (clock s.world) ≡ o → ⊥
      go Hello.hello_malformed q = ground arith
      go (Hello.hello_refused x) q = ground arith
      go (Hello.hello_done x) q = ground arith

  mapped_forwards :
      (s t : Session) (m : Inbound) (c : Command) (o : Mapped)
      → str_eq m.type "hello" ≡ false
      → inbound_to_command s.client m (clock s.world) ≡ o
      → read lib cfg required s m ≡ (forwards c, t)
      → ((required ≡ false) ⊎ (s.authenticated ≡ true)) × (o ≡ command c) × May s.client c s.world
  unfolding read understand hear_other demand_hello check_limits finish forward forward_join
  mapped_forwards s t m c malformed h i e = ground arith
  mapped_forwards s t m c (refused x) h i e = ground arith
  mapped_forwards s t m c (command d) h i e =
      let f : ((required ≡ false) ⊎ (s.authenticated ≡ true)) × (d ≡ c) =
        forwards_command s t m d c h i e in
      let j : inbound_to_command s.client m (clock s.world) ≡ command c =
        subst (λ k. inbound_to_command s.client m (clock s.world) ≡ command k) f.1 i in
      (f.0, ap command f.1, forwards_May s t m c h j e)

  pub read_forwards :
      (s t : Session) (m : Inbound) (c : Command)
      → read lib cfg required s m ≡ (forwards c, t)
      → ((required ≡ false) ⊎ (s.authenticated ≡ true))
        × (inbound_to_command s.client m (clock s.world) ≡ command c)
        × May s.client c s.world
  read_forwards s t m c e = elim (Bool-cases (str_eq m.type "hello")) [
    | inl h ↦ absurd (hello_forwards s t m c h e)
    | inr h ↦ mapped_forwards s t m c (inbound_to_command s.client m (clock s.world)) h refl e
  ]
