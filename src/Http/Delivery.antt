-- ===== src/Http/Delivery.antt =====
-- internal/transport/http and internal/core together: what a client says comes out at the others.
use wirechat_server.Common.{ℕ, Bool, true, false, ◌≡◌, ◌≢◌, ◌⊎◌, Option, some, refl, ap, arith}
use wirechat_server.Store.World.{clock}
use wirechat_server.Auth.{JwtConfig, Crypto}
use wirechat_server.Hub.Types.{Ptr, Client, Command, send_room_message, Message, Event}
use wirechat_server.Hub.{Hub, joined, save, fill_message, message_event}
use wirechat_server.Hub.CallCommands.{CallService}
use wirechat_server.Hub.Loop.{handle_command}
use wirechat_server.Hub.Members.{WellFormed}
use wirechat_server.Hub.Served.{Does, Served}
use wirechat_server.Hub.Delivery.{Reaches, save-Stores, send_room_message-Reaches}
use wirechat_server.Proto.{Inbound, MsgData, EventMessage}
use wirechat_server.Proto as Proto
use wirechat_server.Http.Limiter.{allow}
use wirechat_server.Http.Mapper.{outbound_from_event, an_event, event_message}
use wirechat_server.Http.Socket.Speech.{said, saying, forwards_saying}
use wirechat_server.Http.Socket.{Session, forwards, read}

module _ (lib : Crypto) (cfg : JwtConfig) (required : Bool) (svc : Option CallService) where
  -- A connection's loop and the hub together: if the hub is well-formed and served, the client of
  -- the connection is in the room with a name that its message is for, the connection may speak (no
  -- token is required, or it said hello with success) and its limiter allows one more message, then
  -- the loop forwards a command, and the hub handles it to its end, with any call service: one
  -- event is offered once to each client that has the room in its set, and to nobody else, and what
  -- is written for it to a socket is the event message with the text, the room, and the name of the
  -- client.
  pub read-Reaches :
      (s : Session) (m : Inbound) (d : MsgData) (p : Ptr) (h : Hub)
      → WellFormed h
      → Served h
      → h.heap p ≡ s.client
      → m.type ≡ "msg"
      → m.as_msg ≡ some d
      → d.room ≢ ""
      → joined d.room s.client.rooms ≡ true
      → (required ≡ false) ⊎ (s.authenticated ≡ true)
      → (allow s.messages).0 ≡ true
      → (k : Command) × (e : Event) × (o : EventMessage) × ((read lib cfg required s m).0
          ≡ forwards k)
        × Does (Reaches d.room e h) (handle_command svc p k h)
        × (outbound_from_event e ≡ some (an_event "message" (Proto.message o)))
        × (o.room ≡ d.room)
        × (o.user ≡ s.client.name)
        × (o.text ≡ d.text)
  unfolding handle_command outbound_from_event event_message fill_message
  read-Reaches s m d p h w v q t a n j u l =
      let now : ℕ = clock s.world in
      let msg : Message = said s.client d now in
      let sent : Message = (save (h.heap p) (fill_message (h.heap p) d.room msg h.world) h).0 in
      let kept = save-Stores (h.heap p) (fill_message (h.heap p) d.room msg h.world) h in
      let does = send_room_message-Reaches p d.room msg h w v n (rw q j) in
      let name : (h.heap p).name ≡ s.client.name = ap (λ (x : Client). x.name) q in
      (
        send_room_message d.room msg,
        message_event d.room sent,
        event_message sent,
        ap (λ r. r.0)
            (forwards_saying lib cfg required s m d.room msg t (saying s.client m d now t a n) u l),
        does.3,
        refl,
        does.1,
        ground (arith, kept.2, name),
        does.0,
      )
