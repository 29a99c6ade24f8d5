-- ===== src/Auth/Accounts.antt =====
-- internal/auth/service.go: an account that is made can be used, and names stay unique.
use wirechat_server.Common.{
  ℕ, inl, inr, ◌+◌, ◌<◌, ◌≡◌, refl, String, true, false, not, ◌&&◌, some, find, any, sym, arith,
  eq_refl, str_eq, Option-cases, Bool-cases,
}
use wirechat_server.Common.Texts.{trim_space}
use wirechat_server.Effect.{ok}
use wirechat_server.Store.World.{World, UserRow, IsQuiet}
use wirechat_server.Store.Users as Table
use wirechat_server.Auth.{
  JwtConfig, Crypto, new_claims, generate_token, validate_token, register, register_trimmed,
  unless_taken, add_account, login,
}
use wirechat_server.Auth.RoundTrip.{JwtLaws, validate_token-generate_token}
use wirechat_server.Auth.Names.{HasUnique, find-append_new, any-named, user_row, inserted}

module _ (lib : Crypto) (cfg : JwtConfig) where
  -- What a registration that succeeds did.
  abbrev Registered : World → String → String → World → Type 0
  Registered w name password v =
      (h : String) × (lib.hash (w.ticks + 1) password ≡ some h)
      × (any (λ (r : UserRow). str_eq r.user.username name) w.db.users ≡ false)
      × (v ≡ (
          let x : World = inserted (record w { ticks = w.ticks + 1 }) name h false "" in
          record x { ticks = w.ticks + 3 }))

  register_does :
      (w : World) (name password token : String) (v : World)
      → IsQuiet w
      → register lib cfg name password w ≡ ok token v
      → Registered w (trim_space name) password v
  unfolding register register_trimmed unless_taken add_account Table.get_user_by_username
      generate_token Table.create_user Table.insert_user Table.get_user_by_id
  register_does w name password token v q e =
      elim (Option-cases (lib.hash (w.ticks + 1) password)) [
        | inl h ↦ ground (arith, q w.ticks)
        | inr (h, eh) ↦
            elim (Bool-cases
              (any (λ (r : UserRow). str_eq r.user.username (trim_space name)) w.db.users)) [
                | inl t ↦ ground (arith, q w.ticks, q (w.ticks + 1))
                | inr f ↦ (h, eh, f, ground (arith, q w.ticks, q (w.ticks + 1), q (w.ticks + 2)))
              ]
      ]

  -- A token that the server takes for a user until it expires.
  abbrev pub Names : String → ℕ → String → ℕ → ℕ → Type 0
  Names token id name made now =
      validate_token lib cfg now token ≡ some (new_claims cfg id name false made)

  login_finds :
      (w : World) (name password : String) (r : UserRow) (at : ℕ)
      → IsQuiet w
      → JwtLaws lib
      → find (λ (x : UserRow). str_eq x.user.username name && not x.user.is_guest) w.db.users
        ≡ some r
      → r.user.username ≡ name
      → lib.compare r.user.password_hash password ≡ true
      → at < w.env.now (w.ticks + 1) + cfg.ttl
      → (t : String) × (login lib cfg name password w ≡ ok t (record w { ticks = w.ticks + 1 }))
        × Names t r.user.id name (w.env.now (w.ticks + 1)) at
  unfolding login Table.get_user_by_username generate_token
  login_finds w name password r at q laws e n c h =
      let s : (t : String) × (lib.sign cfg.secret
              (new_claims cfg r.user.id r.user.username false (w.env.now (w.ticks + 1)))
            ≡ some t) =
        laws.signs cfg.secret
          (new_claims cfg r.user.id r.user.username false (w.env.now (w.ticks + 1))) in
      (
        s.0,
        ground (arith, q w.ticks, s.1),
        rw (sym n) (
            validate_token-generate_token lib cfg r.user.id (w.env.now (w.ticks + 1)) at
              r.user.username s.0 false laws s.1 h),
      )

  abbrev account : World → String → String → UserRow
  account w name hash =
      user_row w.db.next_user (trim_space name) hash false "" (w.env.now (w.ticks + 1))

  -- While the driver does not fail, if usernames are unique and ids below the next one, the JWT
  -- library gives back what it signed, and bcrypt accepts the password that it hashed: after a
  -- registration that succeeds, a login with the trimmed name and the same password succeeds, and
  -- until it expires its token is valid and names the new user, by the id that the registration
  -- took and the trimmed name.
  pub register-login :
      (w : World) (name password token : String) (v : World) (at : ℕ)
      → IsQuiet w
      → HasUnique w
      → JwtLaws lib
      → ((n : ℕ) (p h : String) → lib.hash n p ≡ some h → lib.compare h p ≡ true)
      → register lib cfg name password w ≡ ok token v
      → at < v.env.now (v.ticks + 1) + cfg.ttl
      → (t : String) × (login lib cfg (trim_space name) password v
          ≡ ok t (record v { ticks = v.ticks + 1 }))
        × Names t w.db.next_user (trim_space name) (v.env.now (v.ticks + 1)) at
  register-login w name password token v at q u laws law e h =
      let (hash, eh, f, ev) = register_does w name password token v q e in
      login_finds v (trim_space name) password (account w name hash) at (λ n. rw ev (q n)) laws
        (rw ev (
          find-append_new
            (λ (x : UserRow). str_eq x.user.username (trim_space name) && not x.user.is_guest)
            (account w name hash) w.db.users (any-named (trim_space name) w.db.users f)
            (ground (arith, eq_refl (trim_space name)))))
        refl (law (w.ticks + 1) password hash eh) h
