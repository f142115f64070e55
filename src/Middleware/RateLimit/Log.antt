-- ===== src/Middleware/RateLimit/Log.antt =====
-- The rate limiter over a history of calls, and the log of the requests that it let through.
use p2p_storage.Base.{
  ℕ, ◌≤◌, String, ite, Bool, false, List, [], ◌∷◌, arith, if◌then◌else◌, string_discrete,
  string_key, nat_key,
}
use p2p_storage.Middleware.RateLimit.{RateLimiter, allow, cleanup}

pub data Call : Type 0 where
  requests : String → Call
  cleans : Call

unfoldable pub step : RateLimiter → ℕ × Call → RateLimiter
step rl (now, requests id) = (allow now id rl).0
step rl (now, cleans) = cleanup now rl

unfoldable pub run : RateLimiter → List (ℕ × Call) → RateLimiter
run rl [] = rl
run rl (c ∷ cs) = run (step rl c) cs

-- Was this call a request of the peer that was let through?
unfoldable pub is_accepted : String → RateLimiter → ℕ × Call → Bool
is_accepted id rl (now, requests j) = ite (string_discrete j id) (allow now j rl).1 false
is_accepted id rl (now, cleans) = false

-- The times at which the peer's requests were let through.
unfoldable pub accepted : String → RateLimiter → List (ℕ × Call) → List ℕ
accepted id rl [] = []
accepted id rl (c ∷ cs) =
    let rest = accepted id (step rl c) cs in if is_accepted id rl c then c.0 ∷ rest else rest

-- The clock does not run back: the calls come in order, from `from` on and up to `to`.
abbrev pub Ordered : ℕ → List (ℕ × Call) → ℕ → Type 0
Ordered from [] to = from ≤ to
Ordered from (c ∷ cs) to = (from ≤ c.0) × Ordered c.0 cs to

pub Ordered-le : (from to : ℕ) (cs : List (ℕ × Call)) → Ordered from cs to → from ≤ to
Ordered-le from to [] h = h
Ordered-le from to (c ∷ cs) h = omega (arith, Ordered-le c.0 to cs h.1)
