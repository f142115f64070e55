-- ===== src/Middleware/Limiter.antt =====
-- internal/middleware/backpressure.go: a semaphore that a buffered channel holds.
use p2p_storage.Base.{
  ℕ, ◌+◌, ◌-◌, Bool, true, false, Option, none, some, ltb, ◌==◌, if◌then◌else◌, string_key, nat_key,
}

pub record Limiter : Type 0 where
  pub held : ℕ
  pub max_concurrent : ℕ

unfoldable pub new_limiter : ℕ → Limiter
new_limiter max_concurrent = record { held = 0; max_concurrent = max_concurrent }

-- A send that would block is refused.
unfoldable pub acquire : Limiter → Limiter × Bool
acquire l =
    if ltb l.held l.max_concurrent then (record l { held = l.held + 1 }, true) else (l, false)

-- A receive from the empty channel blocks, which is `none`.
unfoldable pub release : Limiter → Option Limiter
release l = if l.held == 0 then none else some (record l { held = l.held - 1 })
