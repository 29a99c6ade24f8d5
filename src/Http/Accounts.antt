-- ===== src/Http/Accounts.antt =====
-- internal/transport/http/api_handlers.go, user_handlers.go and middleware.go: accounts, the search for
-- users, and the check of the token in front of the other handlers.
use wirechat_server.Common.{
  ℕ, String, true, false, not, Option, none, some, map, select, ltb, ◌==◌, str_eq,
}
use wirechat_server.Common.Texts.{trim_space, byte_length, split_space}
use wirechat_server.Store.Types.{User}
use wirechat_server.Store.World.{clock}
use wirechat_server.Store.Users.{search_users as find_users}
use wirechat_server.Auth
use wirechat_server.Auth.{
  Claims, JwtConfig, Crypto, validate_token, invalid_credentials, user_exists, invalid_username,
  invalid_password,
}
use wirechat_server.Http.Response.{
  Handler, UserResponse, reply, refuse, internal_error, either, with_user, with_body, call_then,
  token, guest_token, users,
}

pub record Credentials : Type 0 where
  pub username : String
  pub password : String

abbrev register_error : Auth.Error → Handler
register_error invalid_username = refuse 400 "username must be 3-32 characters"
register_error invalid_password = refuse 400 "password must be at least 6 characters"
register_error user_exists = refuse 409 "user already exists"
register_error _ = internal_error

abbrev login_error : Auth.Error → Handler
login_error invalid_credentials = refuse 401 "invalid credentials"
login_error _ = internal_error

module _ (lib : Crypto) (cfg : JwtConfig) where
  unfoldable pub register : Option Credentials → Handler
  register body = with_body body λ req.
      call_then (Auth.register lib cfg req.username req.password) register_error
        (λ t. reply 201 (token t))

  unfoldable pub login : Option Credentials → Handler
  login body = with_body body λ req.
      call_then (Auth.login lib cfg req.username req.password) login_error
        (λ t. reply 200 (token t))

  unfoldable pub guest_login : Handler
  guest_login =
      call_then (Auth.create_guest_user lib cfg) (λ _. internal_error)
        (λ (t, session). reply 200 (guest_token t session))

  -- The header `Authorization` is empty where there is none. The handler gets the claims that the
  -- middleware puts into the context.
  unfoldable pub auth_middleware : String → (Claims → Handler) → Handler
  auth_middleware header next w = elim (str_eq header "") [
    | true ↦ refuse 401 "missing authorization header" w
    | false ↦ elim (split_space header) [
      | none ↦ refuse 401 "invalid authorization header format" w
      | some (scheme, t) ↦ elim (str_eq scheme "Bearer") [
        | false ↦ refuse 401 "invalid authorization header format" w
        | true ↦ elim (validate_token lib cfg (clock w) t) [
          | none ↦ refuse 401 "invalid token" w
          | some c ↦ next c w
        ]
      ]
    ]
  ]

abbrev pub to_user : User → UserResponse
to_user u = record { id = u.id; username = u.username; name = u.username }

unfoldable pub search_users : Option ℕ → String → Handler
search_users user query =
    either (ltb (byte_length (trim_space query)) 3)
      (refuse 400 "search query must be at least 3 characters")
      (with_user user λ u.
        call_then (find_users (trim_space query)) (λ _. internal_error)
          (λ us. reply 200 (users (map to_user (select (λ v. not (v.id == u)) us)))))
