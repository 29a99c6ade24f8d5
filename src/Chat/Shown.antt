-- ===== src/Chat/Shown.antt =====
-- scripts/ws_chat/main.go and the server: a line typed at one terminal is shown at the others.
use wirechat_server.Common.{
  ◌≡◌, ◌≢◌, ◌⊎◌, refl, String, Bool, true, false, Option, some, [], ◌∷◌, eq_iff, arith,
}
use wirechat_server.Common.Texts.{trim_space}
use wirechat_server.Auth.{JwtConfig, Crypto}
use wirechat_server.Proto.{Inbound, MsgData, Outbound, Payload, EventMessage}
use wirechat_server.Hub.Types.{Ptr, Command, Event}
use wirechat_server.Hub.{Hub, joined}
use wirechat_server.Hub.CallCommands.{CallService}
use wirechat_server.Hub.Loop.{handle_command}
use wirechat_server.Hub.Members.{WellFormed}
use wirechat_server.Hub.Served.{Does, Served}
use wirechat_server.Hub.Delivery.{Reaches}
use wirechat_server.Http.Limiter.{allow}
use wirechat_server.Http.Mapper.{outbound_from_event, an_event}
use wirechat_server.Http.Socket.{Session, forwards, read}
use wirechat_server.Http.Delivery.{read-Reaches}
use wirechat_server.Chat.{Codec, CodecLaws, Line, write_loop, inbound, show, message_line}

module _ (json : Codec) (laws : CodecLaws json) where
  show-message :
      (o : EventMessage) {room user text : String}
      → o.room ≡ room
      → o.user ≡ user
      → o.text ≡ text
      → show json (an_event "message" (Payload.message o)) ≡ some (message_line json room user text)
  unfolding show
  show-message o r u t = rw (laws.message_back o, r, u, t) refl

  -- What a line comes to on the way to the server.
  write_loop-line :
      (room : String) (line : Line) (raw : json.Raw)
      → trim_space line.text ≢ ""
      → line.works ≡ true
      → json.marshal_msg (record { room = room; text = trim_space line.text }) ≡ some raw
      → write_loop json room (line ∷ []) ≡ inbound json "msg" raw ∷ []
  unfolding write_loop
  write_loop-line room line raw n w q = ground (arith, eq_iff (trim_space line.text) "", n, w, q)

  module _ (lib : Crypto) (cfg : JwtConfig) (required : Bool) (svc : Option CallService) where
    -- From terminal to terminal: if the JSON library reads back what it has written, the hub is
    -- well-formed and served, the connection's client is in the room with a name that the chat
    -- client has been started for, may speak (no token is required, or it said hello with success)
    -- and has not used up its limit, then a line that is not blank and can be sent becomes one
    -- message to the server, for which the loop forwards a command that the hub handles to its end,
    -- with any call service: one event is offered once to each client that has the room in its set,
    -- and to nobody else, and what a chat client prints for it is the room, the name of the client,
    -- and the line without the blanks around it.
    pub line-Shown :
        (s : Session) (p : Ptr) (h : Hub) (room : String) (line : Line) (raw : json.Raw)
        → WellFormed h
        → Served h
        → h.heap p ≡ s.client
        → room ≢ ""
        → joined room s.client.rooms ≡ true
        → (required ≡ false) ⊎ (s.authenticated ≡ true)
        → (allow s.messages).0 ≡ true
        → trim_space line.text ≢ ""
        → line.works ≡ true
        → json.marshal_msg (record { room = room; text = trim_space line.text }) ≡ some raw
        → (m : Inbound) × (k : Command) × (e : Event) × (o : Outbound) × (write_loop json room
              (line ∷ [])
            ≡ m ∷ [])
          × ((read lib cfg required s m).0 ≡ forwards k)
          × Does (Reaches room e h) (handle_command svc p k h)
          × (outbound_from_event e ≡ some o)
          × (show json o ≡ some (message_line json room s.client.name (trim_space line.text)))
    line-Shown s p h room line raw w v q n j u l t works made =
        let m : Inbound = inbound json "msg" raw in
        let d : MsgData = record { room = room; text = trim_space line.text } in
        let (k, e, o, f, does, out, r, user, text) =
          read-Reaches lib cfg required svc s m d p h w v q refl (laws.msg_back d raw made) n j u
            l in
        (
          m,
          k,
          e,
          an_event "message" (Payload.message o),
          write_loop-line room line raw t works made,
          f,
          does,
          out,
          show-message o r user text,
        )
