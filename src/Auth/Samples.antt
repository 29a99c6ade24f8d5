-- ===== src/Auth/Samples.antt =====
-- A JWT library and a bcrypt that can be read, for the tests: a token is its key and its claims, written
-- one after the other, and a hash is the password.
use Prim.Native.Char.{Char, code}
use wirechat_server.Common.{
  ℕ, zero, suc, ◌<◌, ◌≡◌, refl, String, Bool, true, false, ◌&&◌, Option, none, some, List, [], ◌∷◌,
  ◌==◌, ltb, sym, length, str_eq, eq_refl, arith, if◌then◌else◌,
}
use wirechat_server.Auth.{Claims, JwtConfig, Crypto}
use wirechat_server.Auth.RoundTrip.{JwtLaws}

abbrev zero_mark : Char
zero_mark = "0"

abbrev one_mark : Char
one_mark = "1"

put_number : ℕ → String → String
put_number zero s = String.◌∷◌ zero_mark s
put_number (suc n) s = String.◌∷◌ one_mark (put_number n s)

get_number : String → ℕ × String
get_number String.[] = (0, "")
get_number (String.◌∷◌ c s) =
    let rest = get_number s in if code c == 49 then (suc rest.0, rest.1) else (0, s)

get_number-put_number : (n : ℕ) (s : String) → get_number (put_number n s) ≡ (n, s)
unfolding get_number put_number
get_number-put_number zero s = refl
get_number-put_number (suc n) s = rw (get_number-put_number n s) refl

put_text : String → String → String
put_text String.[] s = String.◌∷◌ zero_mark s
put_text (String.◌∷◌ c t) s = String.◌∷◌ one_mark (String.◌∷◌ c (put_text t s))

get_text : String → String × String
get_text String.[] = ("", "")
get_text (String.◌∷◌ b String.[]) = ("", "")
get_text (String.◌∷◌ b (String.◌∷◌ c s)) =
    let rest = get_text s in
    if code b == 49 then (String.◌∷◌ c rest.0, rest.1) else ("", String.◌∷◌ c s)

get_text-put_text : (t s : String) → get_text (put_text t s) ≡ (t, s)
unfolding get_text put_text
get_text-put_text String.[] String.[] = refl
get_text-put_text String.[] (String.◌∷◌ c s) = refl
get_text-put_text (String.◌∷◌ c t) s = rw (get_text-put_text t s) refl

put_texts : List String → String → String
unfolding put_text
put_texts [] s = s
put_texts (t ∷ ts) s = put_text t (put_texts ts s)

get_texts : ℕ → String → List String × String
unfolding get_text
get_texts zero s = ([], s)
get_texts (suc n) s = let t = get_text s in let rest = get_texts n t.1 in (t.0 ∷ rest.0, rest.1)

get_texts-put_texts :
    (ts : List String) (s : String) → get_texts (length ts) (put_texts ts s) ≡ (ts, s)
unfolding get_texts put_texts
get_texts-put_texts [] s = refl
get_texts-put_texts (t ∷ ts) s =
    rw (get_text-put_text t (put_texts ts s), get_texts-put_texts ts s) refl

-- A token: the key, and the claims field by field.
unfoldable pub put_claims : String → Claims → String
unfolding put_number put_text put_texts
put_claims k c = put_text k (
    put_number c.user_id (
      put_text c.username (
        put_number (if c.is_guest then 1 else 0) (
          put_text c.issuer (
            put_number (length c.audience)
              (put_texts c.audience (put_number c.expires_at (put_number c.issued_at ""))))))))

get_claims : String → String × Claims
unfolding get_number get_text get_texts
get_claims s =
    let k = get_text s in
    let id = get_number k.1 in
    let name = get_text id.1 in
    let guest = get_number name.1 in
    let issuer = get_text guest.1 in
    let n = get_number issuer.1 in
    let audience = get_texts n.0 n.1 in
    let expires = get_number audience.1 in
    let issued = get_number expires.1 in
    (
      k.0,
      record {
        user_id = id.0;
        username = name.0;
        is_guest = guest.0 == 1;
        issuer = issuer.0;
        audience = audience.0;
        expires_at = expires.0;
        issued_at = issued.0;
      },
    )

flag-mark : (b : Bool) → ((if b then 1 else 0) == 1) ≡ b
flag-mark true = refl
flag-mark false = refl

get_claims-put_claims : (k : String) (c : Claims) → get_claims (put_claims k c) ≡ (k, c)
unfolding get_claims put_claims
get_claims-put_claims k c =
    simp (get_text-put_text, get_number-put_number, get_texts-put_texts, flag-mark)

known : String → ℕ → String × Claims → Option (Claims × Bool)
known k t (j, c) = if str_eq j k && ltb t c.expires_at then some (c, true) else none

unfoldable pub readable : Crypto
unfolding put_claims get_claims known
readable = record {
  sign = λ k c. some (put_claims k c);
  parse = λ k t token. known k t (get_claims token);
  hash = λ n password. some password;
  compare = λ h password. str_eq h password;
  session = λ n. some "0123456789abcdef";
}

known-put_claims :
    (k : String) (c : Claims) (t : ℕ)
    → t < c.expires_at
    → known k t (get_claims (put_claims k c)) ≡ some (c, true)
unfolding known
known-put_claims k c t h = rw (get_claims-put_claims k c, known) (ground (arith, eq_refl k))

pub readable-JwtLaws : JwtLaws readable
unfolding readable
readable-JwtLaws = record {
  signs = λ k c. (put_claims k c, refl);
  parses = λ k token c t e h. parse_lem k token c t (ground (arith, e)) h;
}
  where
    parse_lem :
        (k token : String) (c : Claims) (t : ℕ)
        → put_claims k c ≡ token
        → t < c.expires_at
        → known k t (get_claims token) ≡ some (c, true)
    parse_lem k token c t e h = rw (sym e) (known-put_claims k c t h)

abbrev pub config : JwtConfig
config = record { secret = "s"; issuer = "wirechat"; audience = "wirechat"; ttl = 10 }
