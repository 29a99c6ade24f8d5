-- ===== src/Engine.antt =====
-- internal/callengine/engine.go, and its implementation internal/callengine/livekit/livekit.go.
use Prim.Native.String.{◌++◌ as concat}
use wirechat_server.Common.{ℕ, String, Option, none, some}
use wirechat_server.Effect.{Attempt, got, failed}
use wirechat_server.Store.Types.{Call, CallType, direct_call, room_call}

pub record JoinInfo : Type 0 where
  pub url : String
  pub token : String
  pub room_name : String
  pub identity : String

pub data Error : Type 0 where
  no_external_room token_error : Error

-- `EndCall` is not here: its error is dropped by the caller, and the one implementation does nothing.
pub record Engine : Type 0 where
  pub create_call : Call → Attempt Error String
  pub generate_join_info : Call → ℕ → String → Attempt Error JoinInfo

-- `string(call.Type)`
abbrev pub type_name : CallType → String
type_name direct_call = "direct"
type_name room_call = "room"

-- `auth.NewAccessToken(...).SetVideoGrant(...)...ToJWT()` of the LiveKit library is a parameter: the
-- room, the identity and the name to the signed token, or `none` for an error. So is %d.
pub record LiveKit : Type 0 where
  pub ws_url : String
  pub sign : String → String → String → Option String
  pub itoa : ℕ → String

unfoldable pub livekit_create_call : Call → Attempt Error String
livekit_create_call call =
    got (concat "wirechat-" (concat (type_name call.type) (concat "-" call.id)))

unfoldable pub livekit_join_info : LiveKit → Call → ℕ → String → Attempt Error JoinInfo
livekit_join_info e call user name = elim call.external_room_id [
  | none ↦ failed no_external_room
  | some room ↦
      let identity : String = concat "user-" (e.itoa user) in
      elim (e.sign room identity name) [
        | none ↦ failed token_error
        | some token ↦
            got (record { url = e.ws_url; token = token; room_name = room; identity = identity })
      ]
]

unfoldable pub livekit : LiveKit → Engine
unfolding livekit_create_call livekit_join_info
livekit e = record { create_call = livekit_create_call; generate_join_info = livekit_join_info e }
