-- ===== src/Middleware/RateLimit/Window.antt =====
-- The rate limiter against a log of all the requests that it let through.
use p2p_storage.Base.{
  ℕ, ◌+◌, ◌≤◌, String, ◌≡◌, refl, ◌∙◌, inl, inr, if_pos, if_neg, not, List, [], ◌∷◌, ◌++◌, arith,
  ltb, if◌then◌else◌, Bool-cases, length, keep, length-keep-le, string_discrete, string_key,
  nat_key,
}
use p2p_storage.Base.Dict.{get, get-put, IsMap, put-IsMap, keep-IsMap, get-keep}
use native.Mathlib.Nat.{le_trans}
use mathlib.Core.List.{append-nil, append_assoc}
use p2p_storage.Base.Int.{ℤ, ge_int, to_ℕ}
use p2p_storage.Middleware.RateLimit.{
  RateLimiter, is_fresh, window_of, allow, cleanup, new_rate_limiter,
}
use p2p_storage.Middleware.RateLimit.Log.{
  Call, requests, cleans, step, run, is_accepted, accepted, Ordered, Ordered-le,
}
use p2p_storage.Middleware.RateLimit.Times.{
  Clocked, admits, allow_lem, keep-next_times, next_times-le, Clocked-weaken, Clocked-filter_value,
  Clocked-times, keep-filter_value, length-next_times, length-filter_value,
}

record Good (id : String) (clock window ttl : ℕ) (limit : ℤ) (rl : RateLimiter) : Type 0 where
  is_map : IsMap rl.peers
  clocked : Clocked clock (get id rl.peers)
  few : length (window_of (get id rl.peers)) ≤ to_ℕ limit
  same_window : rl.window ≡ window
  same_ttl : rl.ttl ≡ ttl
  same_limit : rl.limit ≡ limit

module _ (id : String) (window ttl : ℕ) (limit : ℤ) where
  abbrev times : RateLimiter → List ℕ
  times rl = window_of (get id rl.peers)

  allow-Good :
      (clock now : ℕ) (j : String) (rl : RateLimiter)
      → clock ≤ now
      → Good id clock window ttl limit rl
      → Good id now window ttl limit (allow now j rl).0
  allow-Good clock now j rl h g = rw (allow_lem now j rl) (record {
    is_map = put-IsMap j _ rl.peers g.is_map;
    clocked = rw (get-put j id) (elim (string_discrete j id) [
      | yes p ↦ rw (if_pos _ p) (
        next_times-le rl.window now rl.limit _ (rw p (Clocked-times clock now _ h g.clocked)),
        omega arith,
      )
      | no p ↦ rw (if_neg _ p) (Clocked-weaken clock now _ h g.clocked)
    ]);
    few = rw (get-put j id) (elim (string_discrete j id) [
      | yes p ↦ rw (if_pos _ p, p, g.same_limit) (length-next_times rl.window now limit _ g.few)
      | no p ↦ rw (if_neg _ p) g.few
    ]);
    same_window = g.same_window;
    same_ttl = g.same_ttl;
    same_limit = g.same_limit;
  })

  cleanup-Good :
      (clock now : ℕ) (rl : RateLimiter)
      → clock ≤ now
      → Good id clock window ttl limit rl
      → Good id now window ttl limit (cleanup now rl)
  unfolding cleanup
  cleanup-Good clock now rl h g = record {
    is_map = keep-IsMap (λ e. not (ltb (e.1.last_seen + rl.ttl) now)) rl.peers g.is_map;
    clocked = rw (get-keep (λ pw. not (ltb (pw.last_seen + rl.ttl) now)) id rl.peers g.is_map) (
        Clocked-filter_value now (λ pw. not (ltb (pw.last_seen + rl.ttl) now)) _
          (Clocked-weaken clock now _ h g.clocked));
    few =
        rw (get-keep (λ pw. not (ltb (pw.last_seen + rl.ttl) now)) id rl.peers g.is_map)
          (length-filter_value (to_ℕ limit) (λ pw. not (ltb (pw.last_seen + rl.ttl) now)) _ g.few);
    same_window = g.same_window;
    same_ttl = g.same_ttl;
    same_limit = g.same_limit;
  }

  -- What was let through is kept as long as it is fresh.
  times-allow :
      (now to : ℕ) (j : String) (rl : RateLimiter)
      → now ≤ to
      → rl.window ≡ window
      → keep (is_fresh window to) (times (allow now j rl).0)
        ≡ keep (is_fresh window to) (times rl)
          ++ keep
              (is_fresh window to)
              (if is_accepted id rl (now, requests j) then now ∷ [] else [])
  unfolding is_accepted
  times-allow now to j rl h e = elim (string_discrete j id) [
    | yes p ↦
        rw (if_pos _ p, allow_lem now j rl, get-put j id, if_pos _ p, p, e)
          (keep-next_times window now to rl.limit _ h)
    | no p ↦ rw (if_neg _ p, allow_lem now j rl, get-put j id, if_neg _ p, append-nil)
  ]

  times-cleanup :
      (clock now to : ℕ) (rl : RateLimiter)
      → now ≤ to
      → window ≤ ttl
      → Good id clock window ttl limit rl
      → keep (is_fresh window to) (times (cleanup now rl)) ≡ keep (is_fresh window to) (times rl)
  unfolding cleanup
  times-cleanup clock now to rl h w g =
      rw (get-keep (λ pw. not (ltb (pw.last_seen + rl.ttl) now)) id rl.peers g.is_map, g.same_ttl)
        (keep-filter_value clock window ttl now to _ w h g.clocked)

  step-Good :
      (clock : ℕ) (c : ℕ × Call) (rl : RateLimiter)
      → clock ≤ c.0
      → Good id clock window ttl limit rl
      → Good id c.0 window ttl limit (step rl c)
  unfolding step
  step-Good clock (now, requests j) rl h g = allow-Good clock now j rl h g
  step-Good clock (now, cleans) rl h g = cleanup-Good clock now rl h g

  times-step :
      (clock to : ℕ) (c : ℕ × Call) (rl : RateLimiter)
      → c.0 ≤ to
      → window ≤ ttl
      → Good id clock window ttl limit rl
      → keep (is_fresh window to) (times (step rl c))
        ≡ keep (is_fresh window to) (times rl)
          ++ keep (is_fresh window to) (if is_accepted id rl c then c.0 ∷ [] else [])
  unfolding step is_accepted
  times-step clock to (now, requests j) rl h w g = times-allow now to j rl h g.same_window
  times-step clock to (now, cleans) rl h w g = rw append-nil (times-cleanup clock now to rl h w g)

  run-Good :
      (from to : ℕ) (cs : List (ℕ × Call)) (rl : RateLimiter)
      → Ordered from cs to
      → Good id from window ttl limit rl
      → (clock : ℕ) × Good id clock window ttl limit (run rl cs)
  unfolding run
  run-Good from to [] rl o g = (from, g)
  run-Good from to (c ∷ cs) rl o g = run-Good c.0 to cs _ o.1 (step-Good from c rl o.0 g)

  keep-accepted :
      (to : ℕ) (c : ℕ × Call) (cs : List (ℕ × Call)) (rl : RateLimiter)
      → keep (is_fresh window to) (accepted id rl (c ∷ cs))
        ≡ keep (is_fresh window to) (if is_accepted id rl c then c.0 ∷ [] else [])
          ++ keep (is_fresh window to) (accepted id (step rl c) cs)
  unfolding accepted
  keep-accepted to c cs rl = elim (Bool-cases (is_accepted id rl c)) [
    | inl e ↦ rw e (ground arith)
    | inr e ↦ rw e
  ]

  -- Nothing that is fresh is lost on the way, and nothing is added but what was let through.
  times-run :
      (from to : ℕ) (cs : List (ℕ × Call)) (rl : RateLimiter)
      → window ≤ ttl
      → Ordered from cs to
      → Good id from window ttl limit rl
      → keep (is_fresh window to) (times (run rl cs))
        ≡ keep (is_fresh window to) (times rl) ++ keep (is_fresh window to) (accepted id rl cs)
  unfolding run accepted
  times-run from to [] rl w o g = rw append-nil
  times-run from to (c ∷ cs) rl w o g =
      times-run c.0 to cs _ w o.1 (step-Good from c rl o.0 g)
      ∙ rw (
        times-step from to c rl (Ordered-le c.0 to cs o.1) w g,
        append_assoc,
        keep-accepted to c cs rl,
      )

new-Good :
    (id : String) (limit : ℤ) (window ttl : ℕ)
    → Good id 0 window ttl limit (new_rate_limiter limit window ttl)
unfolding new_rate_limiter get
new-Good id limit window ttl = record {
  is_map = tt;
  clocked = tt;
  few = omega arith;
  same_window = refl;
  same_ttl = refl;
  same_limit = refl;
}

module _ (id : String) (limit : ℤ) (window ttl to : ℕ) (cs : List (ℕ × Call)) where
  fresh_log :
      window ≤ ttl
      → Ordered 0 cs to
      → keep
          (is_fresh window to)
          (times id window ttl limit (run (new_rate_limiter limit window ttl) cs))
        ≡ keep (is_fresh window to) (accepted id (new_rate_limiter limit window ttl) cs)
  unfolding new_rate_limiter get
  fresh_log w o = times-run id window ttl limit 0 to cs _ w o (new-Good id limit window ttl)

  -- Whatever the peers and the cleanup did before, a request is let through exactly if fewer than
  -- `limit` requests of the same peer were let through within the window that ends now. The
  -- clock must not run back, and the lifetime of an idle entry must cover the window.
  pub allow-eq-log :
      window ≤ ttl
      → Ordered 0 cs to
      → let rl = new_rate_limiter limit window ttl in
        (allow to id (run rl cs)).1
        ≡ not (ge_int (length (keep (is_fresh window to) (accepted id rl cs))) limit)
  allow-eq-log w o =
      let rl = run (new_rate_limiter limit window ttl) cs in
      let (_, g) = run-Good id window ttl limit 0 to cs _ o (new-Good id limit window ttl) in
      rw (allow_lem to id rl, g.same_window, g.same_limit, ← fresh_log w o) (unfold admits in refl)

  -- At no moment were more than `limit` requests of one peer let through within the last window,
  -- as long as the clock does not run back and the lifetime of an idle entry covers the window.
  pub accepted-le-limit :
      window ≤ ttl
      → Ordered 0 cs to
      → length (keep (is_fresh window to) (accepted id (new_rate_limiter limit window ttl) cs))
        ≤ to_ℕ limit
  accepted-le-limit w o =
      let rl = run (new_rate_limiter limit window ttl) cs in
      let (_, g) = run-Good id window ttl limit 0 to cs _ o (new-Good id limit window ttl) in
      rw (← fresh_log w o)
        (le_trans (length-keep-le (is_fresh window to) (times id window ttl limit rl)) g.few)
