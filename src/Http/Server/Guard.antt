-- ===== src/Http/Server/Guard.antt =====
-- internal/transport/http/server.go and middleware.go: nobody gets past the middleware without a token.
use wirechat_server.Common.{
  String, ◌≡◌, ◌⊎◌, inl, inr, Option, some, arith, eq_iff, str_eq, Option-cases, Bool-cases,
}
use wirechat_server.Common.Texts.{split_space}
use wirechat_server.Store.World.{World, clock}
use wirechat_server.Engine.{Engine}
use wirechat_server.Auth.{Claims, JwtConfig, Crypto, validate_token}
use wirechat_server.Http.Response.{refuse}
use wirechat_server.Http.Accounts.{auth_middleware}
use wirechat_server.Http.Server.{Request, handle, serve}

module _ (lib : Crypto) (cfg : JwtConfig) (engine : Option Engine) where
  -- The request was answered with 401, and nothing happened.
  abbrev pub Refused : String → Request → World → Type 0
  Refused header req w = (text : String) × (serve lib cfg engine header req w ≡ refuse 401 text w)

  -- The request carried a valid token, and was handled for the user whom the token names.
  abbrev pub Handled : String → Request → World → Type 0
  Handled header req w =
      (t : String) × (c : Claims) × (split_space header ≡ some ("Bearer", t))
      × (validate_token lib cfg (clock w) t ≡ some c)
      × (serve lib cfg engine header req w ≡ handle lib cfg engine (some c.user_id) req w)

  -- Every request for a route behind the middleware is either answered with status 401, and nothing
  -- is read or stored, or its header is of the scheme Bearer with a token that is valid at that
  -- time, and it is handled for the user whom the token names.
  pub serve_guards :
      (header : String) (req : Request) (w : World) → Refused header req w ⊎ Handled header req w
  unfolding serve auth_middleware
  serve_guards header req w = elim (Bool-cases (str_eq header "")) [
    | inl e ↦ inl ("missing authorization header", ground arith)
    | inr e ↦ elim (Option-cases (split_space header)) [
      | inl n ↦ inl ("invalid authorization header format", ground arith)
      | inr ((scheme, t), p) ↦ elim (Bool-cases (str_eq scheme "Bearer")) [
        | inr f ↦ inl ("invalid authorization header format", ground arith)
        | inl f ↦ elim (Option-cases (validate_token lib cfg (clock w) t)) [
          | inl g ↦ inl ("invalid token", ground arith)
          | inr (c, g) ↦ inr (t, c, ground (arith, eq_iff scheme "Bearer", p), g, ground arith)
        ]
      ]
    ]
  ]
