-- ===== src/Proto.antt =====
-- internal/proto/message.go: the messages between the server and its WebSocket clients.
use wirechat_server.Common.{ℕ, String, Option, List}

pub record HelloData : Type 0 where
  pub user : String
  pub token : String
  pub protocol : ℕ

pub record JoinData : Type 0 where
  pub room : String

pub record MsgData : Type 0 where
  pub room : String
  pub text : String

pub record CallInviteData : Type 0 where
  pub call_type : String
  pub to_user_id : ℕ
  pub room_id : ℕ

pub record CallActionData : Type 0 where
  pub call_id : String
  pub reason : String

-- `Data` is raw JSON, which the handlers decode into the one struct that they want. What
-- `json.Unmarshal` makes of it for each struct is given: `none` is an error.
pub record Inbound : Type 0 where
  pub type : String
  pub as_hello : Option HelloData
  pub as_join : Option JoinData
  pub as_msg : Option MsgData
  pub as_invite : Option CallInviteData
  pub as_action : Option CallActionData

abbrev pub protocol_version : ℕ
protocol_version = 1

pub record Error : Type 0 where
  pub code : String
  pub msg : String

pub record EventMessage : Type 0 where
  pub id : ℕ
  pub room : String
  pub user : String
  pub text : String
  pub ts : ℕ

pub record EventUserJoined : Type 0 where
  pub room : String
  pub user : String

pub record EventUserLeft : Type 0 where
  pub room : String
  pub user : String

pub record EventHistory : Type 0 where
  pub room : String
  pub messages : List EventMessage

pub record EventCallIncoming : Type 0 where
  pub call_id : String
  pub call_type : String
  pub from_user_id : ℕ
  pub from_username : String
  pub room_id : ℕ
  pub room_name : String
  pub created_at : ℕ

pub record EventCallRinging : Type 0 where
  pub call_id : String
  pub to_user_id : ℕ
  pub to_username : String

pub record EventCallAccepted : Type 0 where
  pub call_id : String
  pub accepted_by_user_id : ℕ
  pub accepted_by_username : String

pub record EventCallRejected : Type 0 where
  pub call_id : String
  pub rejected_by_user_id : ℕ
  pub reason : String

pub record EventCallJoinInfo : Type 0 where
  pub call_id : String
  pub url : String
  pub token : String
  pub room_name : String
  pub identity : String

pub record EventCallParticipantJoined : Type 0 where
  pub call_id : String
  pub user_id : ℕ
  pub username : String

pub record EventCallParticipantLeft : Type 0 where
  pub call_id : String
  pub user_id : ℕ
  pub username : String
  pub reason : String

pub record EventCallEnded : Type 0 where
  pub call_id : String
  pub ended_by_user_id : ℕ
  pub reason : String

-- The values that go into `Outbound.Data`; `nothing` is nil.
pub data Payload : Type 0 where
  nothing : Payload
  message : EventMessage → Payload
  user_joined : EventUserJoined → Payload
  user_left : EventUserLeft → Payload
  history : EventHistory → Payload
  call_incoming : EventCallIncoming → Payload
  call_ringing : EventCallRinging → Payload
  call_accepted : EventCallAccepted → Payload
  call_rejected : EventCallRejected → Payload
  call_join_info : EventCallJoinInfo → Payload
  call_participant_joined : EventCallParticipantJoined → Payload
  call_participant_left : EventCallParticipantLeft → Payload
  call_ended : EventCallEnded → Payload

pub record Outbound : Type 0 where
  pub type : String
  pub event : String
  pub payload : Payload
  pub error : Option Error

-- `Outbound{Type: "error", Error: e}`
abbrev pub new_error : String → String → Error
new_error code msg = record { code = code; msg = msg }
