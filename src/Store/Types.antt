-- ===== src/Store/Types.antt =====
-- internal/store/store.go: the records and enumerations that the store keeps.
--
-- The numeric ids (int64) are naturals: SQLite hands them out from 1 upwards, the program only
-- compares them, and an id that a client makes up is looked up like any other. Times are seconds since
-- Go's zero time, so 0 is the zero value of `time.Time`.
use wirechat_server.Common.{ℕ, String, Bool, Option}

pub record User : Type 0 where
  pub id : ℕ
  pub username : String
  pub password_hash : String
  pub is_guest : Bool
  pub session_id : String
  pub created_at : ℕ

-- `public`, `private`, `direct` and `channel`; the name `open` is reserved.
pub data RoomType : Type 0 where
  public_room private_room direct_room channel_room : RoomType

pub record Room : Type 0 where
  pub id : ℕ
  pub name : String
  pub type : RoomType
  pub owner_id : Option ℕ
  pub direct_key : Option String
  pub created_at : ℕ

pub record Message : Type 0 where
  pub id : ℕ
  pub room_id : ℕ
  pub user_id : ℕ
  pub body : String
  pub created_at : ℕ

pub record RoomMember : Type 0 where
  pub user_id : ℕ
  pub room_id : ℕ
  pub joined_at : ℕ

pub data FriendStatus : Type 0 where
  pending accepted blocked : FriendStatus

abbrev pub status_eq : FriendStatus → FriendStatus → Bool
status_eq pending pending = Bool.true
status_eq accepted accepted = Bool.true
status_eq blocked blocked = Bool.true
status_eq _ _ = Bool.false

abbrev pub is_public : RoomType → Bool
is_public public_room = Bool.true
is_public _ = Bool.false

pub record Friend : Type 0 where
  pub id : ℕ
  pub user_id : ℕ
  pub friend_id : ℕ
  pub status : FriendStatus
  pub created_at : ℕ
  pub updated_at : ℕ

pub data CallType : Type 0 where
  direct_call room_call : CallType

pub data CallStatus : Type 0 where
  ringing active ended failed_call : CallStatus

abbrev pub call_status_eq : CallStatus → CallStatus → Bool
call_status_eq ringing ringing = Bool.true
call_status_eq active active = Bool.true
call_status_eq ended ended = Bool.true
call_status_eq failed_call failed_call = Bool.true
call_status_eq _ _ = Bool.false

-- `status IN ('ringing', 'active')`
abbrev pub is_live : CallStatus → Bool
is_live ringing = Bool.true
is_live active = Bool.true
is_live _ = Bool.false

pub data CallMode : Type 0 where
  livekit : CallMode

pub record Call : Type 0 where
  pub id : String
  pub type : CallType
  pub mode : CallMode
  pub initiator_user_id : ℕ
  pub room_id : Option ℕ
  pub status : CallStatus
  pub external_room_id : Option String
  pub created_at : ℕ
  pub updated_at : ℕ
  pub ended_at : Option ℕ

pub record CallParticipant : Type 0 where
  pub id : ℕ
  pub call_id : String
  pub user_id : ℕ
  pub joined_at : Option ℕ
  pub left_at : Option ℕ
  pub reason : Option String

pub data AllowCallsFrom : Type 0 where
  everyone friends_only : AllowCallsFrom
