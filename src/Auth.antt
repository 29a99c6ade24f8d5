-- ===== src/Auth.antt =====
-- internal/auth: accounts, passwords and tokens.
pub mod RoundTrip
pub mod Names
pub mod Accounts
pub mod Samples
mod Tests
use wirechat_server.Common.{
  ℕ, ◌+◌, String, Bool, true, false, not, ◌&&◌, ◌||◌, Option, none, some, List, [], ◌∷◌, any, ltb,
  str_eq, if◌then◌else◌,
}
use wirechat_server.Common.Texts.{trim_space, byte_length}
use wirechat_server.Effect.{
  Outcome, Action, ok, err, Attempt, got, failed, attempt, wrap, branch, pure, fail, ◌>>=◌, ◌>>◌,
}
use wirechat_server.Store.Types.{User}
use wirechat_server.Store.World.{World, DbError, clock}
use wirechat_server.Store.Users as Table

pub record Claims : Type 0 where
  pub user_id : ℕ
  pub username : String
  pub is_guest : Bool
  pub issuer : String
  pub audience : List String
  pub expires_at : ℕ
  pub issued_at : ℕ

pub record JwtConfig : Type 0 where
  pub secret : String
  pub issuer : String
  pub audience : String
  pub ttl : ℕ

-- The libraries that the package calls. `sign` is `NewWithClaims(HS256, claims).SignedString(secret)`;
-- `parse` is `ParseWithClaims` at a time, with a key function that gives the secret for the HMAC
-- methods: the claims, and if the token is valid. `hash` and `compare` are bcrypt's, the first with its
-- salt; `session` is sixteen random bytes in hexadecimal.
pub record Crypto : Type 0 where
  pub sign : String → Claims → Option String
  pub parse : String → ℕ → String → Option (Claims × Bool)
  pub hash : ℕ → String → Option String
  pub compare : String → String → Bool
  pub session : ℕ → Option String

pub data Error : Type 0 where
  invalid_credentials user_exists invalid_username invalid_password : Error
  hash_error token_error session_error : Error
  store_error : DbError → Error

abbrev pub Service : Type 0 → Type 0
Service A = Action World Error A

abbrev pub new_claims : JwtConfig → ℕ → String → Bool → ℕ → Claims
new_claims cfg id name guest now = record {
  user_id = id;
  username = name;
  is_guest = guest;
  issuer = cfg.issuer;
  audience = cfg.audience ∷ [];
  expires_at = now + cfg.ttl;
  issued_at = now;
}

-- `if cfg.Issuer != "" && ...`, and the loop over the audiences.
abbrev pub is_issued : JwtConfig → Claims → Bool
is_issued cfg c = str_eq cfg.issuer "" || str_eq c.issuer cfg.issuer

abbrev pub is_addressed : JwtConfig → Claims → Bool
is_addressed cfg c = str_eq cfg.audience "" || any (λ a. str_eq a cfg.audience) c.audience

module _ (lib : Crypto) (cfg : JwtConfig) where
  unfoldable pub generate_token : ℕ → String → Bool → ℕ → Option String
  generate_token id name guest now = lib.sign cfg.secret (new_claims cfg id name guest now)

  unfoldable pub validate_token : ℕ → String → Option Claims
  validate_token now token = elim (lib.parse cfg.secret now token) [
    | none ↦ none
    | some (c, valid) ↦
        if not valid
        then none
        else if not (is_issued cfg c)
        then none
        else if not (is_addressed cfg c)
        then none
        else some c
  ]

  -- `GenerateToken(...)` with its error.
  abbrev token_for : ℕ → String → Bool → Service String
  token_for id name guest w = elim (generate_token id name guest (clock w)) [
    | none ↦ err token_error w
    | some t ↦ ok t w
  ]

  abbrev hashed : String → Service String
  hashed password w = elim (lib.hash w.ticks password) [ none ↦ err hash_error w | some h ↦ ok h w ]

  add_account : String → String → Service String
  add_account name password = do
    h ← hashed password
    user ← wrap store_error (Table.create_user name h)
    token_for user.id user.username false

  unless_taken : String → String → Attempt DbError User → Service String
  unfolding add_account
  unless_taken name password (got u) = fail user_exists
  unless_taken name password (failed e) = add_account name password

  register_trimmed : String → String → Service String
  unfolding unless_taken
  register_trimmed name password =
      branch (ltb (byte_length name) 3 || ltb 32 (byte_length name)) (fail invalid_username) (
        branch (ltb (byte_length password) 6) (fail invalid_password) do
          existing ← attempt (Table.get_user_by_username name)
          unless_taken name password existing)

  unfoldable pub register : String → String → Service String
  unfolding register_trimmed
  register username password = register_trimmed (trim_space username) password

  unfoldable pub login : String → String → Service String
  login username password = do
    user ← wrap (λ _. invalid_credentials) (Table.get_user_by_username username)
    branch (not (lib.compare user.password_hash password)) (fail invalid_credentials)
        (token_for user.id user.username false)

  abbrev new_session : Service String
  new_session w = elim (lib.session w.ticks) [ none ↦ err session_error w | some s ↦ ok s w ]

  unfoldable pub create_guest_user : Service (String × String)
  create_guest_user = do
    session ← new_session
    user ← wrap store_error (Table.create_guest_user session)
    token ← token_for user.id user.username true
    pure (token, session)
