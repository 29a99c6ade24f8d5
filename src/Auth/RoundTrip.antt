-- ===== src/Auth/RoundTrip.antt =====
-- internal/auth/jwt.go: what a token that the server made says when it comes back.
use wirechat_server.Common.{
  ℕ, ◌+◌, ◌<◌, ◌≡◌, ◌⊎◌, String, Bool, true, some, any, arith, eq_iff, eq_refl, str_eq,
}
use wirechat_server.Auth.{Claims, JwtConfig, Crypto, new_claims, generate_token, validate_token}

-- What the code relies on of the JWT library: signing with a secret succeeds, and the parser gives the
-- claims of a signed token back, as valid, until they expire.
pub record JwtLaws (lib : Crypto) : Type 0 where
  pub signs : (k : String) (c : Claims) → (token : String) × (lib.sign k c ≡ some token)
  pub parses :
      (k token : String) (c : Claims) (t : ℕ)
      → lib.sign k c ≡ some token
      → t < c.expires_at
      → lib.parse k t token ≡ some (c, true)

module _ (lib : Crypto) (cfg : JwtConfig) where
  -- If the JWT library gives back what it signed, a token that the server generates is valid until
  -- it expires, with any issuer and audience configured, and gives back the user id, the name and
  -- the guest flag it was made of.
  pub validate_token-generate_token :
      (id now t : ℕ) (name token : String) (guest : Bool)
      → JwtLaws lib
      → generate_token lib cfg id name guest now ≡ some token
      → t < now + cfg.ttl
      → validate_token lib cfg t token ≡ some (new_claims cfg id name guest now)
  unfolding validate_token generate_token
  validate_token-generate_token id now t name token guest laws e h = ground (
    arith,
    laws.parses cfg.secret token (new_claims cfg id name guest now) t,
    eq_refl cfg.issuer,
    eq_refl cfg.audience,
  )

  -- If the server takes a token for valid, then the JWT library says so under the configured
  -- secret, the issuer is the configured one if one is configured, and the audience contains the
  -- configured one if one is configured.
  pub validate_token_checks :
      (t : ℕ) (token : String) (c : Claims)
      → validate_token lib cfg t token ≡ some c
      → (lib.parse cfg.secret t token ≡ some (c, true))
        × ((cfg.issuer ≡ "") ⊎ (c.issuer ≡ cfg.issuer))
        × ((cfg.audience ≡ "") ⊎ (any (λ a. str_eq a cfg.audience) c.audience ≡ true))
  unfolding validate_token
  validate_token_checks t token c e =
      ground (arith, eq_iff cfg.issuer "", eq_iff c.issuer cfg.issuer, eq_iff cfg.audience "")
