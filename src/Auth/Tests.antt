-- ===== src/Auth/Tests.antt =====
-- internal/auth on a small database.
use wirechat_server.Common.{
  ℕ, zero, suc, ◌+◌, ◌<◌, ◌≡◌, refl, String, Bool, true, false, not, ◌&&◌, Option, none, some, List,
  [], ◌∷◌, ◌==◌, ltb, any, ◌⊎◌, sym, length, str_eq, eq_refl, arith, if◌then◌else◌,
}
use wirechat_server.Auth.{new_claims, generate_token, validate_token, register, login}
use wirechat_server.Effect.{ok, after}
use wirechat_server.Store.World.{World}
use wirechat_server.Store.Samples.{sample, never}
use wirechat_server.Auth.Samples.{readable, readable-JwtLaws, config, put_claims}
use wirechat_server.Auth.RoundTrip.{validate_token-generate_token}
use wirechat_server.Auth.Names.{HasUnique}
use wirechat_server.Auth.Accounts.{Names, register-login}

abbrev small : World
small = sample never [] [] []

small-HasUnique : HasUnique small
small-HasUnique = (omega arith, refl, (omega arith, refl, (omega arith, refl, tt)))

abbrev ann_token : String
ann_token = put_claims "s" (new_claims config 1 "ann" false 100)

validate_token-generate_token_example :
    validate_token readable config 105 ann_token ≡ some (new_claims config 1 "ann" false 100)
unfolding readable generate_token
validate_token-generate_token_example =
    validate_token-generate_token readable config 1 100 105 "ann" ann_token false readable-JwtLaws
      refl (omega arith)

register-login_example :
    (t : String) × (login readable config "dan" "secret"
        (after (register readable config " dan " "secret" small))
      ≡ ok t (
          let v : World = after (register readable config " dan " "secret" small) in
          record v { ticks = v.ticks + 1 }))
    × Names readable config t 4 "dan" 100 105
unfolding register readable wirechat_server.Common.Texts.byte_length
    wirechat_server.Common.Texts.trim_space wirechat_server.Store.Users.get_user_by_username
    wirechat_server.Store.Users.create_user wirechat_server.Store.Users.insert_user
    wirechat_server.Store.Users.get_user_by_id generate_token
register-login_example =
    register-login readable config small " dan " "secret"
      (put_claims "s" (new_claims config 4 "dan" false 100))
      (after (register readable config " dan " "secret" small)) 105 (λ n. refl) small-HasUnique
      readable-JwtLaws (λ n p h e. ground (arith, eq_refl p)) refl (omega arith)
