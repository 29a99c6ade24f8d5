-- ===== src/Http/Socket/Speech.antt =====
-- internal/transport/http/ws_handler.go: when a message for a room goes through.
use wirechat_server.Common.{
  ℕ, String, Bool, true, false, ◌≡◌, ◌≢◌, ◌⊎◌, some, refl, arith, eq_iff, str_eq,
}
use wirechat_server.Store.World.{clock}
use wirechat_server.Auth.{JwtConfig, Crypto}
use wirechat_server.Hub.Types.{Client, send_room_message, Message}
use wirechat_server.Proto.{Inbound, MsgData}
use wirechat_server.Http.Limiter.{allow}
use wirechat_server.Http.Mapper.{command, inbound_to_command}
use wirechat_server.Http.Socket.{
  Session, forwards, read, understand, demand_hello, check_limits, finish, forward, hear_other,
}

-- The message that the mapper makes.
abbrev pub said : Client → MsgData → ℕ → Message
said x d now = record { id = 0; room = d.room; from = x.name; text = d.text; created_at = now }

pub saying :
    (x : Client) (m : Inbound) (d : MsgData) (now : ℕ)
    → m.type ≡ "msg"
    → m.as_msg ≡ some d
    → d.room ≢ ""
    → inbound_to_command x m now ≡ command (send_room_message d.room (said x d now))
unfolding inbound_to_command
saying x m d now t a n = rw (t, a, inbound_to_command) (ground (arith, eq_iff d.room "", n))

module _ (lib : Crypto) (cfg : JwtConfig) (required : Bool) where
  pub forwards_saying :
      (s : Session) (m : Inbound) (r : String) (msg : Message)
      → m.type ≡ "msg"
      → inbound_to_command s.client m (clock s.world) ≡ command (send_room_message r msg)
      → (required ≡ false) ⊎ (s.authenticated ≡ true)
      → (allow s.messages).0 ≡ true
      → read lib cfg required s m
        ≡ (forwards (send_room_message r msg), record s { messages = (allow s.messages).1 })
  unfolding read understand hear_other demand_hello check_limits finish forward
  forwards_saying s m r msg t i a l =
      let other : str_eq m.type "hello" ≡ false = rw t refl in ground (arith, other)
