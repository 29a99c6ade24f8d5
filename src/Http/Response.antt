-- ===== src/Http/Response.antt =====
-- internal/transport/http: what the REST handlers answer, and the steps that they share.
use wirechat_server.Common.{ℕ, String, Bool, true, false, Option, none, some, List}
use wirechat_server.Effect.{Action, ok, err}
use wirechat_server.Store.Types.{RoomType, Friend, Call}
use wirechat_server.Store.World.{World}
use wirechat_server.Engine.{JoinInfo}

-- The struct tags of the responses are the fields' names; a time stands unformatted.
pub record RoomResponse : Type 0 where
  pub id : ℕ
  pub name : String
  pub type : RoomType
  pub owner_id : Option ℕ
  pub created_at : ℕ

pub record MessageResponse : Type 0 where
  pub id : ℕ
  pub room_id : ℕ
  pub user_id : ℕ
  pub user : String
  pub body : String
  pub created_at : ℕ

pub record MessagesResponse : Type 0 where
  pub messages : List MessageResponse
  pub has_more : Bool

pub record FriendResponse : Type 0 where
  pub friend : Friend
  pub friend_username : String

pub record UserResponse : Type 0 where
  pub id : ℕ
  pub username : String
  pub name : String

-- CallResponse has the fields of `store.Call`.
pub data Body : Type 0 where
  -- `ErrorResponse{Error: ...}` and `gin.H{"message": ...}`
  error message : String → Body
  token : String → Body
  -- AuthResponse with the cookie `guest_session`.
  guest_token : String → String → Body
  room : RoomResponse → Body
  rooms : List RoomResponse → Body
  messages : MessagesResponse → Body
  friend : FriendResponse → Body
  friends : List FriendResponse → Body
  users : List UserResponse → Body
  call : Call → Body
  calls : List Call → Body
  join_info : JoinInfo → Body
  empty : Body

pub record Response : Type 0 where
  pub status : ℕ
  pub body : Body

abbrev pub Handler : Type 0
Handler = World → Response × World

abbrev pub reply : ℕ → Body → Handler
reply status body w = (record { status = status; body = body }, w)

abbrev pub refuse : ℕ → String → Handler
refuse status text = reply status (error text)

abbrev pub unauthorized : Handler
unauthorized = refuse 401 "unauthorized"

abbrev pub internal_error : Handler
internal_error = refuse 500 "internal server error"

-- `if b { ...; return }`
abbrev pub either : Bool → Handler → Handler → Handler
either b h k w = elim b [ true ↦ h w | false ↦ k w ]

-- `c.Get(ContextKeyUserID)`; only the middleware sets the key, and to an int64.
abbrev pub with_user : Option ℕ → (ℕ → Handler) → Handler
with_user none h = unauthorized
with_user (some u) h = h u

-- A body that ShouldBindJSON takes with its `binding` tags, a path parameter that `Sscanf("%d")` reads.
abbrev pub with_body {ℓ} : {A : Type ℓ} → Option A → (A → Handler) → Handler
with_body none h = refuse 400 "invalid request body"
with_body (some a) h = h a

abbrev pub with_id : Option ℕ → String → (ℕ → Handler) → Handler
with_id none text h = refuse 400 text
with_id (some n) text h = h n

-- A call of the store or of a service, and what comes after it.
abbrev pub call_then : {E A : Type 0} → Action World E A → (E → Handler) → (A → Handler) → Handler
call_then m bad good w = elim (m w) [ ok a v ↦ good a v | err e v ↦ bad e v ]

abbrev pub status_of : Response × World → ℕ
status_of r = r.0.status

abbrev pub world_of : Response × World → World
world_of r = r.1
