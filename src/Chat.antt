-- ===== src/Chat.antt =====
-- scripts/ws_chat/main.go: the chat client of the terminal.
pub mod Shown
mod Tests
use Prim.Native.String.{◌++◌ as concat}
use wirechat_server.Common.{
  ◌≡◌, ℕ, String, Bool, true, false, Option, none, some, List, [], ◌∷◌, ◌++◌, str_eq, if◌then◌else◌,
}
use wirechat_server.Common.Texts.{trim_space}
use wirechat_server.Proto.{
  HelloData, JoinData, MsgData, CallInviteData, CallActionData, Inbound, EventMessage,
  EventUserJoined, EventUserLeft, Payload, Outbound,
}

-- The JSON library, at both ends of the connection: what it writes, and what it reads of it. The
-- three last ones are `json.Marshal(outbound.Data)` and `json.Unmarshal(raw, &evt)`; `format` is %v.
pub record Codec : Type 1 where
  pub Raw : Type 0
  pub marshal_hello : HelloData → Option Raw
  pub marshal_join : JoinData → Option Raw
  pub marshal_msg : MsgData → Option Raw
  pub decode_hello : Raw → Option HelloData
  pub decode_join : Raw → Option JoinData
  pub decode_msg : Raw → Option MsgData
  pub decode_invite : Raw → Option CallInviteData
  pub decode_action : Raw → Option CallActionData
  pub as_message : Payload → Option EventMessage
  pub as_user_joined : Payload → Option EventUserJoined
  pub as_user_left : Payload → Option EventUserLeft
  pub format : Payload → String

-- A line of the terminal, and if it can be sent.
pub record Line : Type 0 where
  pub text : String
  pub works : Bool

module _ (json : Codec) where
  -- `proto.Inbound{Type: type, Data: raw}`, as the server reads it.
  abbrev pub inbound : String → json.Raw → Inbound
  inbound type raw = record {
    type = type;
    as_hello = json.decode_hello raw;
    as_join = json.decode_join raw;
    as_msg = json.decode_msg raw;
    as_invite = json.decode_invite raw;
    as_action = json.decode_action raw;
  }

  -- What writeLoop sends for the lines.
  unfoldable pub write_loop : String → List Line → List Inbound
  write_loop room [] = []
  write_loop room (line ∷ lines) =
      let rest = write_loop room lines in
      let text : String = trim_space line.text in
      if str_eq text ""
      then rest
      else (elim (json.marshal_msg (record { room = room; text = text })) [
        | none ↦ []
        | some raw ↦ if line.works then inbound "msg" raw ∷ rest else []
      ])

  -- What run sends: hello and join, each if it can be written, and the lines.
  unfoldable pub requests : String → String → List Line → List Inbound
  unfolding write_loop
  requests user room lines =
      elim (json.marshal_hello (record { user = user; token = ""; protocol = 0 })) [
        | none ↦ []
        | some hello ↦ elim (json.marshal_join (record { room = room })) [
          | none ↦ inbound "hello" hello ∷ []
          | some join ↦ inbound "hello" hello ∷ inbound "join" join ∷ write_loop room lines
        ]
      ]

  -- `fmt.Printf("[%s] %s: %s\n", ...)`, without the end of the line, and so for the others.
  abbrev pub message_line : String → String → String → String
  message_line room user text =
      concat "[" (concat room (concat "] " (concat user (concat ": " text))))

  abbrev pub presence_line : String → String → String → String
  presence_line room user what =
      concat "[room " (concat room (concat "] " (concat user (concat " " what))))

  -- What readLoop prints for a message of the server; `none` is nothing.
  unfoldable pub show : Outbound → Option String
  show o =
      if str_eq o.event "message"
      then (elim (json.as_message o.payload) [
        | none ↦ none
        | some e ↦ some (message_line e.room e.user e.text)
      ])
      else if str_eq o.event "user_joined"
      then (elim (json.as_user_joined o.payload) [
        | none ↦ none
        | some e ↦ some (presence_line e.room e.user "joined")
      ])
      else if str_eq o.event "user_left"
      then (elim (json.as_user_left o.payload) [
        | none ↦ none
        | some e ↦ some (presence_line e.room e.user "left")
      ])
      else some (concat "event=" (concat o.event (concat " data=" (json.format o.payload))))

  -- What the program relies on: the library reads back what it has written.
  pub record CodecLaws : Type 0 where
    pub hello_back :
        (d : HelloData) (r : json.Raw)
        → json.marshal_hello d ≡ some r
        → json.decode_hello r ≡ some d
    pub join_back :
        (d : JoinData) (r : json.Raw) → json.marshal_join d ≡ some r → json.decode_join r ≡ some d
    pub msg_back :
        (d : MsgData) (r : json.Raw) → json.marshal_msg d ≡ some r → json.decode_msg r ≡ some d
    pub message_back : (e : EventMessage) → json.as_message (Payload.message e) ≡ some e
