-- ===== src/Tests/Middleware.antt =====
-- internal/middleware on small data.
use p2p_storage.Base.{
  ℕ, ◌≤◌, ◌≡◌, not, List, [], ◌∷◌, arith, length, keep, string_key, nat_key, bytes_key,
}
use p2p_storage.Base.Int.{pos, to_ℕ, ge_int}
use p2p_storage.Middleware.RateLimit.{new_rate_limiter, allow, is_fresh}
use p2p_storage.Middleware.RateLimit.Log.{Call, requests, cleans, run, accepted}
use p2p_storage.Middleware.RateLimit.Window.{allow-eq-log, accepted-le-limit}

-- Two requests of one peer and a cleanup.
abbrev calls : List (ℕ × Call)
calls = (1, requests "p") ∷ (2, cleans) ∷ (3, requests "p") ∷ []

allow-eq-log_example :
    (allow 4 "p" (run (new_rate_limiter (pos 2) 10 20) calls)).1
    ≡ not (
        ge_int
          (length (keep (is_fresh 10 4) (accepted "p" (new_rate_limiter (pos 2) 10 20) calls)))
          (pos 2))
allow-eq-log_example =
    allow-eq-log "p" (pos 2) 10 20 4 calls (omega arith)
      (omega arith, (omega arith, (omega arith, omega arith)))

accepted-le-limit_example :
    length (keep (is_fresh 10 4) (accepted "p" (new_rate_limiter (pos 2) 10 20) calls))
    ≤ to_ℕ (pos 2)
accepted-le-limit_example =
    accepted-le-limit "p" (pos 2) 10 20 4 calls (omega arith)
      (omega arith, (omega arith, (omega arith, omega arith)))
