-- ===== src/Http/Limiter.antt =====
-- internal/transport/http/ratelimit.go: so many requests a minute.
use wirechat_server.Common.{ℕ, ◌+◌, Bool, true, ◌==◌, leb, if◌then◌else◌}

-- A limit of 0 stands for "no limit", and for any configured limit that is not positive. The ticker
-- calls `reset_counter` once a minute.
pub record Limiter : Type 0 where
  pub limit : ℕ
  pub counter : ℕ

unfoldable pub new_limiter : ℕ → Limiter
new_limiter limit = record { limit = limit; counter = 0 }

unfoldable pub allow : Limiter → Bool × Limiter
allow r =
    if r.limit == 0
    then (true, r)
    else (leb (r.counter + 1) r.limit, record r { counter = r.counter + 1 })

unfoldable pub reset_counter : Limiter → Limiter
reset_counter r = record r { counter = if r.limit == 0 then r.counter else 0 }
