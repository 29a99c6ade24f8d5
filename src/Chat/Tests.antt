-- ===== src/Chat/Tests.antt =====
-- A line of the terminal, with a JSON library that keeps what it is given.
use wirechat_server.Common.{◌≡◌, refl, inl, true, false, Option, none, some, [], ◌∷◌, eq_iff, arith}
use wirechat_server.Common.Texts.{trim_space}
use wirechat_server.Auth.Samples.{readable}
use wirechat_server.Config.{default_config, jwt_config}
use wirechat_server.Store.Samples.{sample, never}
use wirechat_server.Proto.{HelloData, JoinData, MsgData, Inbound, Outbound, Payload, EventMessage}
use wirechat_server.Hub.Types.{Command, Event, new_client}
use wirechat_server.Hub.Samples.{den_hub, den_hub-WellFormed, den_hub-Served}
use wirechat_server.Hub.Loop.{handle_command}
use wirechat_server.Hub.Served.{Does}
use wirechat_server.Hub.Delivery.{Reaches}
use wirechat_server.Http.Limiter.{allow, new_limiter}
use wirechat_server.Http.Mapper.{outbound_from_event}
use wirechat_server.Http.Socket.{Session, new_session, forwards, read}
use wirechat_server.Chat.{Codec, CodecLaws, Line, write_loop, show}
use wirechat_server.Chat.Shown.{line-Shown}

data Raw : Type 0 where
  raw_hello : HelloData → Raw
  raw_join : JoinData → Raw
  raw_msg : MsgData → Raw

abbrev hello_of : Raw → Option HelloData
hello_of (raw_hello d) = some d
hello_of (raw_join d) = none
hello_of (raw_msg d) = none

abbrev join_of : Raw → Option JoinData
join_of (raw_hello d) = none
join_of (raw_join d) = some d
join_of (raw_msg d) = none

abbrev msg_of : Raw → Option MsgData
msg_of (raw_hello d) = none
msg_of (raw_join d) = none
msg_of (raw_msg d) = some d

abbrev message_of : Payload → Option EventMessage
message_of (Payload.message e) = some e
message_of _ = none

abbrev keeping : Codec
keeping = record {
  Raw = Raw;
  marshal_hello = λ d. some (raw_hello d);
  marshal_join = λ d. some (raw_join d);
  marshal_msg = λ d. some (raw_msg d);
  decode_hello = hello_of;
  decode_join = join_of;
  decode_msg = msg_of;
  decode_invite = λ r. none;
  decode_action = λ r. none;
  as_message = message_of;
  as_user_joined = λ p. none;
  as_user_left = λ p. none;
  format = λ p. "";
}

keeping-CodecLaws : CodecLaws keeping
keeping-CodecLaws = record {
  hello_back = λ d r q. ground (arith, q);
  join_back = λ d r q. ground (arith, q);
  msg_back = λ d r q. ground (arith, q);
  message_back = λ e. refl;
}

abbrev typed : Line
typed = record { text = " hi "; works = true }

abbrev ann : Session
ann = new_session 1 1 false (den_hub.heap 1) (sample never [] [] [])

line-Shown_example :
    (m : Inbound) × (k : Command) × (e : Event) × (o : Outbound) × (write_loop keeping "den"
        (typed ∷ [])
      ≡ m ∷ [])
    × ((read readable (jwt_config default_config) false ann m).0 ≡ forwards k)
    × Does (Reaches "den" e den_hub) (handle_command none 1 k den_hub)
    × (outbound_from_event e ≡ some o)
    × (show keeping o ≡ some "[den] ann: hi")
unfolding new_client allow new_limiter trim_space
line-Shown_example =
    line-Shown keeping keeping-CodecLaws readable (jwt_config default_config) false none ann 1
      den_hub "den" typed (raw_msg (record { room = "den"; text = "hi" })) den_hub-WellFormed
      den_hub-Served refl (ground (arith, eq_iff "den" "")) refl (inl refl) refl
      (ground (arith, eq_iff "hi" "")) refl refl
