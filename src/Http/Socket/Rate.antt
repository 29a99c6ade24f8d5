-- ===== src/Http/Socket/Rate.antt =====
-- internal/transport/http/ratelimit.go in the loop of ws_handler.go: how many commands get through.
use wirechat_server.Common.{
  ℕ, ◌≤◌, ◌+◌, ◌-◌, Bool, true, false, ◌≡◌, ◌≢◌, inl, inr, List, [], ◌∷◌, refl, arith, str_eq,
  Bool-cases,
}
use wirechat_server.Effect.{Outcome, ok, err}
use wirechat_server.Store.World.{World, clock}
use wirechat_server.Auth.{JwtConfig, Crypto}
use wirechat_server.Hub.Types.{
  Command, join_room, leave_room, send_room_message, call_invite, call_accept, call_reject,
  call_join, call_leave, call_end,
}
use wirechat_server.Proto.{Error, Inbound}
use wirechat_server.Http.Limiter.{Limiter, allow}
use wirechat_server.Http.Mapper.{Mapped, command, refused, malformed, inbound_to_command}
use wirechat_server.Http.Socket.{
  Session, Reaction, forwards, admit, read, read_loop, understand, demand_hello, check_limits,
  finish, forward, forward_join, hear_other, hear_hello, Hello, handle_hello,
}

-- How many joins, and how many messages, a turn sends to the hub.
abbrev pub joins_of : Command → ℕ
joins_of (join_room name) = 1
joins_of _ = 0

abbrev pub messages_of : Command → ℕ
messages_of (send_room_message name m) = 1
messages_of _ = 0

abbrev pub sent : (Command → ℕ) → Reaction → ℕ
sent count (forwards c) = count c
sent count _ = 0

-- A limiter after a turn that let `n` requests through.
abbrev Counts : ℕ → Limiter → Limiter → Type 0
Counts n a b =
    (b.limit ≡ a.limit)
    × (a.limit ≢ 0 → (a.counter + n ≤ b.counter) × (n ≢ 0 → b.counter ≤ b.limit))

Turn : Session → Reaction × Session → Type 0
Turn s r =
    Counts (sent joins_of r.0) s.joins r.1.joins
    × Counts (sent messages_of r.0) s.messages r.1.messages

module _ (lib : Crypto) (cfg : JwtConfig) (required : Bool) where
  command-Turn :
      (s : Session) (m : Inbound) (c : Command)
      → str_eq m.type "hello" ≡ false
      → inbound_to_command s.client m (clock s.world) ≡ command c
      → Turn s (read lib cfg required s m)
  unfolding Turn read understand hear_other demand_hello check_limits finish forward forward_join
      allow
  command-Turn s m (join_room name) h i = go (admit s.client name s.world) refl
    where
      go :
          (o : Outcome World Error (Unit {0}))
          → admit s.client name s.world ≡ o
          → Turn s (read lib cfg required s m)
      go (ok u w) q = ground arith
      go (err x w) q = ground arith
  command-Turn s m (leave_room name) h i = ground arith
  command-Turn s m (send_room_message name msg) h i = ground arith
  command-Turn s m (call_invite k) h i = ground arith
  command-Turn s m (call_accept k) h i = ground arith
  command-Turn s m (call_reject k) h i = ground arith
  command-Turn s m (call_join k) h i = ground arith
  command-Turn s m (call_leave k) h i = ground arith
  command-Turn s m (call_end k) h i = ground arith

  mapped-Turn :
      (s : Session) (m : Inbound) (o : Mapped)
      → str_eq m.type "hello" ≡ false
      → inbound_to_command s.client m (clock s.world) ≡ o
      → Turn s (read lib cfg required s m)
  unfolding Turn read understand hear_other demand_hello check_limits finish
  mapped-Turn s m malformed h i = ground arith
  mapped-Turn s m (refused e) h i = ground arith
  mapped-Turn s m (command c) h i = command-Turn s m c h i

  hello-Turn :
      (s : Session) (m : Inbound)
      → str_eq m.type "hello" ≡ true
      → Turn s (read lib cfg required s m)
  unfolding Turn read understand hear_hello demand_hello check_limits finish
  hello-Turn s m h = go (handle_hello lib cfg required s.client m (clock s.world)) refl
    where
      go :
          (o : Hello)
          → handle_hello lib cfg required s.client m (clock s.world) ≡ o
          → Turn s (read lib cfg required s m)
      go Hello.hello_malformed q = ground arith
      go (Hello.hello_refused x) q = ground arith
      go (Hello.hello_done x) q = ground arith

  read-Turn : (s : Session) (m : Inbound) → Turn s (read lib cfg required s m)
  read-Turn s m = elim (Bool-cases (str_eq m.type "hello")) [
    | inl h ↦ hello-Turn s m h
    | inr h ↦ mapped-Turn s m (inbound_to_command s.client m (clock s.world)) h refl
  ]

  abbrev pub total : (Command → ℕ) → List Reaction → ℕ
  total count [] = 0
  total count (r ∷ rs) = sent count r + total count rs

  loop_counts :
      (s : Session) (ms : List Inbound)
      → (s.joins.limit ≢ 0
          → total joins_of (read_loop lib cfg required s ms).0 ≤ s.joins.limit - s.joins.counter)
        × (s.messages.limit ≢ 0
            → total messages_of (read_loop lib cfg required s ms).0
              ≤ s.messages.limit - s.messages.counter)
  unfolding read_loop Turn
  loop_counts s [] = (λ _. omega arith, λ _. omega arith)
  loop_counts s (m ∷ ms) =
      ground (arith, read-Turn s m, loop_counts (read lib cfg required s m).1 ms)

  -- If both limits of a connection are set, then whatever messages come before the next reset, the
  -- loop forwards at most so many joins as the limit of joins leaves above its counter, and at most
  -- so many messages as the limit of messages leaves above its counter.
  pub read_loop-Bounded :
      (s : Session) (ms : List Inbound)
      → s.joins.limit ≢ 0
      → s.messages.limit ≢ 0
      → (total joins_of (read_loop lib cfg required s ms).0 ≤ s.joins.limit - s.joins.counter)
        × (total messages_of (read_loop lib cfg required s ms).0
            ≤ s.messages.limit - s.messages.counter)
  read_loop-Bounded s ms a b = let c = loop_counts s ms in (c.0 a, c.1 b)
