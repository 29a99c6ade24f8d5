-- ===== src/Config.antt =====
-- internal/config/config.go, and what internal/app/app.go makes of it.
pub mod Loader
pub mod Samples
mod Tests
use wirechat_server.Common.{
  ℕ, zero, suc, ◌*◌, String, Bool, true, false, not, ◌&&◌, ◌||◌, ◌≡◌, refl, Option, none, some,
  str_eq, eq_iff, eq_refl, arith, if◌then◌else◌,
}
use wirechat_server.Auth.{JwtConfig}

-- Go's `int`, `int64` and `time.Duration`, the last in nanoseconds.
pub data ℤ : Type 0 where
  pos negsuc : ℕ → ℤ

abbrev pub is_zero : ℤ → Bool
is_zero (pos zero) = true
is_zero (pos (suc n)) = false
is_zero (negsuc n) = false

pub record LiveKitConfig : Type 0 where
  pub enabled : Bool
  pub api_key : String
  pub api_secret : String
  pub ws_url : String

pub record Config : Type 0 where
  pub addr : String
  pub database_path : String
  pub read_header_timeout : ℤ
  pub shutdown_timeout : ℤ
  pub max_message_bytes : ℤ
  pub rate_limit_join_per_min : ℤ
  pub rate_limit_msg_per_min : ℤ
  pub ping_interval : ℤ
  pub client_idle_timeout : ℤ
  pub jwt_secret : String
  pub jwt_audience : String
  pub jwt_issuer : String
  pub jwt_required : Bool
  pub livekit : LiveKitConfig

abbrev pub seconds : ℕ → ℤ
seconds n = pos (n * 1000000000)

unfoldable pub default_config : Config
default_config = record {
  addr = ":8080";
  database_path = "data/wirechat.db";
  read_header_timeout = seconds 5;
  shutdown_timeout = seconds 5;
  max_message_bytes = pos 1048576;
  rate_limit_join_per_min = pos 60;
  rate_limit_msg_per_min = pos 300;
  ping_interval = seconds 30;
  client_idle_timeout = seconds 90;
  jwt_secret = "dev-secret-change-in-production";
  jwt_audience = "wirechat";
  jwt_issuer = "wirechat-server";
  jwt_required = false;
  livekit = record {
    enabled = false;
    api_key = "";
    api_secret = "";
    ws_url = "ws://localhost:7880";
  };
}

-- `if other.X != zero { c.X = other.X }`
abbrev pub text_from : String → String → String
text_from c o = if not (str_eq o "") then o else c

abbrev pub number_from : ℤ → ℤ → ℤ
number_from c o = if not (is_zero o) then o else c

abbrev pub flag_from : Bool → Bool → Bool
flag_from c o = if o then o else c

abbrev livekit_from : LiveKitConfig → LiveKitConfig → LiveKitConfig
livekit_from c o = record {
  enabled = flag_from c.enabled o.enabled;
  api_key = text_from c.api_key o.api_key;
  api_secret = text_from c.api_secret o.api_secret;
  ws_url = text_from c.ws_url o.ws_url;
}

overlay : Config → Config → Config
overlay c o = record {
  addr = text_from c.addr o.addr;
  database_path = text_from c.database_path o.database_path;
  read_header_timeout = number_from c.read_header_timeout o.read_header_timeout;
  shutdown_timeout = number_from c.shutdown_timeout o.shutdown_timeout;
  max_message_bytes = number_from c.max_message_bytes o.max_message_bytes;
  rate_limit_join_per_min = number_from c.rate_limit_join_per_min o.rate_limit_join_per_min;
  rate_limit_msg_per_min = number_from c.rate_limit_msg_per_min o.rate_limit_msg_per_min;
  ping_interval = number_from c.ping_interval o.ping_interval;
  client_idle_timeout = number_from c.client_idle_timeout o.client_idle_timeout;
  jwt_secret = text_from c.jwt_secret o.jwt_secret;
  jwt_audience = text_from c.jwt_audience o.jwt_audience;
  jwt_issuer = text_from c.jwt_issuer o.jwt_issuer;
  jwt_required = flag_from c.jwt_required o.jwt_required;
  livekit = livekit_from c.livekit o.livekit;
}

unfoldable pub update_from : Config → Option Config → Config
unfolding overlay
update_from c none = c
update_from c (some o) = overlay c o

-- The configuration of the tokens, which live for a day; the clock counts seconds.
unfoldable pub jwt_config : Config → JwtConfig
jwt_config c = record {
  secret = c.jwt_secret;
  issuer = c.jwt_issuer;
  audience = c.jwt_audience;
  ttl = 24 * 3600;
}

text_from_assoc : (a b c : String) → text_from (text_from a b) c ≡ text_from a (text_from b c)
text_from_assoc a b c = ground arith

number_from_assoc : (a b c : ℤ) → number_from (number_from a b) c ≡ number_from a (number_from b c)
number_from_assoc a b c = ground arith

flag_from_assoc : (a b c : Bool) → flag_from (flag_from a b) c ≡ flag_from a (flag_from b c)
flag_from_assoc a b c = ground arith

text_from_self : (a b : String) → text_from (text_from a b) b ≡ text_from a b
text_from_self a b = ground arith

number_from_self : (a b : ℤ) → number_from (number_from a b) b ≡ number_from a b
number_from_self a b = ground arith

flag_from_self : (a b : Bool) → flag_from (flag_from a b) b ≡ flag_from a b
flag_from_self a b = ground arith

-- Overwriting settings by a second and then a third layer is the same as overwriting them by the
-- second layer overwritten by the third; and doing so twice by one layer is the same as once.
pub update_from_assoc :
    (a b c : Config)
    → (update_from (update_from a (some b)) (some c)
        ≡ update_from a (some (update_from b (some c))))
      × (update_from (update_from a (some b)) (some b) ≡ update_from a (some b))
unfolding update_from overlay
update_from_assoc a b c = (
  simp (text_from_assoc, number_from_assoc, flag_from_assoc),
  simp (text_from_self, number_from_self, flag_from_self),
)
