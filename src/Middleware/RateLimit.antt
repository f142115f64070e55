-- ===== src/Middleware/RateLimit.antt =====
-- internal/middleware/ratelimit.go and config.go: a sliding window of request times for each peer.
-- Peer ids are texts, as libp2p has them. `time.Now()` is an argument of each call.
pub mod Log
mod Times
pub mod Window
use p2p_storage.Base.{
  ℕ, zero, suc, ◌+◌, ◌-◌, ◌*◌, ◌/◌, ◌%◌, ◌^◌, ◌≤◌, ◌<◌, min, String, ◌≡◌, refl, sym, ap, ◌∙◌, ◌≢◌,
  ◌↔◌, ◌⊎◌, inl, inr, if_pos, if_neg, ite, Bool, true, false, not, ◌&&◌, ◌||◌, Option, none, some,
  List, [], ◌∷◌, ◌++◌, map, arith, dec_lt, dec_le, ℕ_discrete, ltb, leb, ◌==◌, if◌then◌else◌,
  ltb→lt, lt→ltb, leb→le, ==_iff, Bool-cases, Option-cases, length, get_elem?, set, take, drop,
  keep, any, length-append, take-append-drop, length-take, length-drop, take_of_length-le,
  take-append_length, drop-append_length, length-keep-le, keep-append, string_discrete, Key,
  string_key, nat_key,
}
use p2p_storage.Base.Dict.{
  Dict, is_some, filter_value, get, put, remove, get-remove, get-put, get-remove_self,
  get-remove_ne, get-put_self, get-put_ne, length-remove-le, length-remove-lt, length-put-le, IsMap,
  remove-IsMap, put-IsMap, keep-IsMap, get-keep,
}
use p2p_storage.Base.Forall.{All, All-append, All-keep}
use p2p_storage.Base.Int.{ℤ, pos, negsuc, ge_int, to_ℕ}

pub record PeerWindow : Type 0 where
  pub requests : List ℕ
  pub last_seen : ℕ

pub record RateLimiter : Type 0 where
  pub peers : Dict String PeerWindow
  pub limit : ℤ
  pub window : ℕ
  pub ttl : ℕ
  pub stopped : Bool

pub record RateLimiterConfig : Type 0 where
  pub limit : ℤ
  pub window : ℕ
  pub ttl : ℕ

-- In nanoseconds, as `time.Duration` counts.
abbrev pub second : ℕ
second = 1000000000

abbrev pub minute : ℕ
minute = 60 * second

abbrev pub default_rate_limiter_config : RateLimiterConfig
default_rate_limiter_config = record { limit = pos 100; window = second; ttl = 5 * minute }

unfoldable pub new_rate_limiter : ℤ → ℕ → ℕ → RateLimiter
new_rate_limiter limit window ttl = record {
  peers = [];
  limit = limit;
  window = window;
  ttl = ttl;
  stopped = false;
}

-- `t.After(now.Add(-window))`
abbrev pub is_fresh : ℕ → ℕ → ℕ → Bool
is_fresh window now t = ltb now (t + window)

-- The peer's window, made empty if it is missing, with `lastSeen` set.
abbrev pub window_of : Option PeerWindow → List ℕ
window_of none = []
window_of (some pw) = pw.requests

unfoldable pub allow : ℕ → String → RateLimiter → RateLimiter × Bool
allow now id rl =
    let valid = keep (is_fresh rl.window now) (window_of (get id rl.peers)) in
    if ge_int (length valid) rl.limit
    then (
      record rl { peers = put id (record { requests = valid; last_seen = now }) rl.peers },
      false,
    )
    else (
      record rl {
        peers = put id (record { requests = valid ++ now ∷ []; last_seen = now }) rl.peers;
      },
      true,
    )

unfoldable pub cleanup : ℕ → RateLimiter → RateLimiter
cleanup now rl = record rl { peers = keep (λ e. not (ltb (e.1.last_seen + rl.ttl) now)) rl.peers }

-- Closing a closed channel panics, which is `none`.
unfoldable pub stop : RateLimiter → Option RateLimiter
stop rl = if rl.stopped then none else some (record rl { stopped = true })

-- What wakes the cleanup goroutine: its ticker, or the closed channel, on which it ends.
pub data Wake : Type 0 where
  ticks : ℕ → Wake
  stops : Wake

unfoldable pub cleanup_loop : RateLimiter → List Wake → RateLimiter
cleanup_loop rl [] = rl
cleanup_loop rl (ticks now ∷ ws) = cleanup_loop (cleanup now rl) ws
cleanup_loop rl (stops ∷ ws) = rl

-- `Wrap`: a handler over a state `S`, which is not called when the limiter refuses.
pub data Wrapped {ℓ} (R : Type ℓ) : Type ℓ where
  handled : R → Wrapped R
  rate_limit_exceeded : Wrapped R

unfoldable pub wrap {ℓ} :
    {M R S : Type ℓ}
    → (String → M → S → S × R)
    → ℕ
    → String
    → M
    → RateLimiter
    → S
    → RateLimiter × S × Wrapped R
wrap next now id msg rl s =
    let (rl', allowed) = allow now id rl in
    let (s', r) = next id msg s in
    if allowed then (rl', s', handled r) else (rl', s, rate_limit_exceeded)
