-- ===== src/Middleware/RateLimit/Times.antt =====
-- The request times of one peer: what a window, an answer and a cleanup do to them.
use p2p_storage.Base.{
  ℕ, ◌+◌, ◌≤◌, ◌<◌, String, ◌≡◌, refl, sym, ◌∙◌, inl, inr, Bool, not, Option, none, some, List, [],
  ◌∷◌, ◌++◌, arith, ltb, if◌then◌else◌, Bool-cases, length, keep, length-append, length-keep-le,
  keep-append, string_key, nat_key,
}
use p2p_storage.Base.Dict.{filter_value, get, put}
use p2p_storage.Base.Forall.{All, All-append, All-keep}
use mathlib.Core.List.{append-nil}
use p2p_storage.Base.Int.{ℤ, ge_int, to_ℕ}
use p2p_storage.Middleware.RateLimit.{PeerWindow, RateLimiter, is_fresh, window_of, allow}

abbrev pub Clocked : ℕ → Option PeerWindow → Type 0
Clocked now none = Unit {0}
Clocked now (some pw) = All (λ t. t ≤ pw.last_seen) pw.requests × (pw.last_seen ≤ now)

-- What is fresh at the end was fresh before.
keep-keep_fresh :
    (window now to : ℕ) (ts : List ℕ)
    → now ≤ to
    → keep (is_fresh window to) (keep (is_fresh window now) ts) ≡ keep (is_fresh window to) ts
keep-keep_fresh window now to [] h = refl
keep-keep_fresh window now to (t ∷ ts) h = ground (arith, keep-keep_fresh window now to ts h)

keep_stale :
    (window to last : ℕ) (ts : List ℕ)
    → All (λ t. t ≤ last) ts
    → last + window < to
    → keep (is_fresh window to) ts ≡ []
keep_stale window to last [] h p = refl
keep_stale window to last (t ∷ ts) h p = ground (arith, keep_stale window to last ts h.1 p)

All-weaken : (m n : ℕ) (ts : List ℕ) → m ≤ n → All (λ t. t ≤ m) ts → All (λ t. t ≤ n) ts
All-weaken m n [] h a = tt
All-weaken m n (t ∷ ts) h a = (omega arith, All-weaken m n ts h a.1)

-- What `allow` answers and keeps, on the times of one peer.
unfoldable pub admits : ℕ → ℤ → ℕ → List ℕ → Bool
admits window limit now ts = not (ge_int (length (keep (is_fresh window now) ts)) limit)

unfoldable pub next_times : ℕ → ℤ → ℕ → List ℕ → List ℕ
unfolding admits
next_times window limit now ts =
    keep (is_fresh window now) ts ++ (if admits window limit now ts then now ∷ [] else [])

pub allow_lem :
    (now : ℕ) (j : String) (rl : RateLimiter)
    → allow now j rl ≡ (
      record rl {
        peers =
            put j
              (record {
                requests = next_times rl.window rl.limit now (window_of (get j rl.peers));
                last_seen = now;
              })
              rl.peers;
      },
      admits rl.window rl.limit now (window_of (get j rl.peers)),
    )
unfolding allow next_times admits
allow_lem now j rl =
    elim (Bool-cases
      (ge_int (length (keep (is_fresh rl.window now) (window_of (get j rl.peers)))) rl.limit)) [
        | inl e ↦ rw (e, append-nil)
        | inr e ↦ rw e
      ]

pub keep-next_times :
    (window now to : ℕ) (limit : ℤ) (ts : List ℕ)
    → now ≤ to
    → keep (is_fresh window to) (next_times window limit now ts)
      ≡ keep (is_fresh window to) ts
        ++ keep (is_fresh window to) (if admits window limit now ts then now ∷ [] else [])
unfolding next_times
keep-next_times window now to limit ts h =
    keep-append (is_fresh window to) (keep (is_fresh window now) ts)
      (if admits window limit now ts then now ∷ [] else [])
    ∙ rw (keep-keep_fresh window now to ts h)

pub next_times-le :
    (window now : ℕ) (limit : ℤ) (ts : List ℕ)
    → All (λ t. t ≤ now) ts
    → All (λ t. t ≤ now) (next_times window limit now ts)
unfolding next_times
next_times-le window now limit ts h =
    All-append (λ t. t ≤ now) (keep (is_fresh window now) ts) _
      (All-keep (λ t. t ≤ now) (is_fresh window now) ts h) (ground arith)

pub Clocked-weaken : (m n : ℕ) (o : Option PeerWindow) → m ≤ n → Clocked m o → Clocked n o
Clocked-weaken m n none h c = tt
Clocked-weaken m n (some pw) h c = (c.0, omega arith)

pub Clocked-filter_value :
    (n : ℕ) (p : PeerWindow → Bool) (o : Option PeerWindow)
    → Clocked n o
    → Clocked n (filter_value p o)
Clocked-filter_value n p none c = tt
Clocked-filter_value n p (some pw) c = ground arith

pub Clocked-times :
    (m n : ℕ) (o : Option PeerWindow) → m ≤ n → Clocked m o → All (λ t. t ≤ n) (window_of o)
Clocked-times m n none h c = tt
Clocked-times m n (some pw) h c = All-weaken pw.last_seen n pw.requests (omega arith) c.0

-- A peer that `cleanup` drops has nothing fresh, if the lifetime covers the window.
pub keep-filter_value :
    (n window ttl now to : ℕ) (o : Option PeerWindow)
    → window ≤ ttl
    → now ≤ to
    → Clocked n o
    → keep
        (is_fresh window to)
        (window_of (filter_value (λ pw. not (ltb (pw.last_seen + ttl) now)) o))
      ≡ keep (is_fresh window to) (window_of o)
keep-filter_value n window ttl now to none w h c = refl
keep-filter_value n window ttl now to (some pw) w h c =
    elim (Bool-cases (ltb (pw.last_seen + ttl) now)) [
      | inl old ↦ rw old (sym (keep_stale window to pw.last_seen pw.requests c.0 (ground arith)))
      | inr young ↦ rw young
    ]

pub length-next_times :
    (window now : ℕ) (limit : ℤ) (ts : List ℕ)
    → length ts ≤ to_ℕ limit
    → length (next_times window limit now ts) ≤ to_ℕ limit
unfolding next_times admits
length-next_times window now limit ts h = ground (
  arith,
  length-keep-le (is_fresh window now) ts,
  length-append (keep (is_fresh window now) ts) (now ∷ []),
  length-append (keep (is_fresh window now) ts) [],
)

pub length-filter_value :
    (n : ℕ) (p : PeerWindow → Bool) (o : Option PeerWindow)
    → length (window_of o) ≤ n
    → length (window_of (filter_value p o)) ≤ n
length-filter_value n p none h = h
length-filter_value n p (some pw) h = ground arith
