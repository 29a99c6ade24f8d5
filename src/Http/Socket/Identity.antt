-- ===== src/Http/Socket/Identity.antt =====
-- internal/transport/http/ws_handler.go: who a client is after `hello`.
use wirechat_server.Common.{
  ℕ, ◌<◌, ◌+◌, String, Bool, true, false, ◌≡◌, ◌≢◌, ◌⊎◌, inl, inr, some, arith, eq_iff, str_eq,
  Option-cases, Bool-cases,
}
use wirechat_server.Auth.{Claims, JwtConfig, Crypto, validate_token, generate_token}
use wirechat_server.Auth.RoundTrip.{JwtLaws, validate_token-generate_token}
use wirechat_server.Hub.Types.{Client}
use wirechat_server.Proto.{Inbound, HelloData, protocol_version}
use wirechat_server.Http.Socket.{hello_done, as_user, greet, handle_hello}

module _ (lib : Crypto) (cfg : JwtConfig) (required : Bool) where
  -- If the JWT library gives back what it signed, a hello of protocol 0 or 1 with a token that the
  -- server generated, and that has not expired, succeeds and gives the client the user id, the name
  -- and the guest flag the token was made of.
  pub handle_hello-generate_token :
      (x : Client) (m : Inbound) (d : HelloData) (id made now : ℕ) (name : String) (guest : Bool)
      → JwtLaws lib
      → m.as_hello ≡ some d
      → (d.protocol ≡ 0) ⊎ (d.protocol ≡ protocol_version)
      → d.token ≢ ""
      → generate_token lib cfg id name guest made ≡ some d.token
      → now < made + cfg.ttl
      → handle_hello lib cfg required x m now
        ≡ hello_done (record x { user_id = id; name = name; is_guest = guest })
  unfolding handle_hello greet
  handle_hello-generate_token x m d id made now name guest laws e p n g h = ground (
    arith,
    validate_token-generate_token lib cfg id made now name d.token guest laws g h,
    eq_iff d.token "",
  )

  -- If a hello succeeds, the client gets its id, name and guest flag from the message's token,
  -- which is valid at that time, or no token is required, the client becomes a guest, and its user
  -- id stays as it was.
  pub handle_hello_checks :
      (x y : Client) (m : Inbound) (now : ℕ)
      → handle_hello lib cfg required x m now ≡ hello_done y
      → ((c : Claims) × (d : HelloData) × (m.as_hello ≡ some d)
          × (validate_token lib cfg now d.token ≡ some c)
          × (y ≡ as_user c x))
        ⊎ ((required ≡ false) × (y.is_guest ≡ true) × (y.user_id ≡ x.user_id))
  unfolding handle_hello greet
  handle_hello_checks x y m now e = elim (Option-cases m.as_hello) [
    | inl n ↦ ground arith
    | inr (d, f) ↦ elim (Option-cases (validate_token lib cfg now d.token)) [
      | inl n ↦ inr (ground arith)
      | inr (c, g) ↦ elim (Bool-cases (str_eq d.token "")) [
        | inl t ↦ inr (ground arith)
        | inr t ↦ inl (c, d, f, g, ground arith)
      ]
    ]
  ]
