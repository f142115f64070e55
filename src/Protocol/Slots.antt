-- ===== src/Protocol/Slots.antt =====
-- How many streams are handled at the same time.
use p2p_storage.Base.{
  ℕ, suc, ◌+◌, ◌-◌, ◌≤◌, ◌<◌, ◌≡◌, refl, sym, ap, ◌∙◌, ◌↔◌, inl, inr, true, false, none, some, List,
  [], ◌∷◌, arith, dec_lt, ltb, ◌==◌, ltb→lt, lt→ltb, Bool-cases, Option-cases, length, string_key,
  nat_key, bytes_key,
}
use p2p_storage.Middleware.Limiter.{Limiter, acquire, release}
use p2p_storage.Protocol.{Streams, Action, arrives, returns, step, without, Reach, start, next}

length-without : (i : ℕ) (l r : List ℕ) → without i l ≡ some r → length l ≡ suc (length r)
unfolding without
length-without i [] r h = absurd (cc h)
length-without i (x ∷ l) r h = elim (Bool-cases (x == i)) [
  | inl e ↦ let rest : l ≡ r = cc (rw e at h) in rw (← rest) refl
  | inr e ↦ elim (Option-cases (without i l)) [
    | inl f ↦ absurd (cc (rw (e, f) at h))
    | inr (k, f) ↦
        let rest : x ∷ k ≡ r = cc (rw (e, f) at h) in rw (← rest) (ap suc (length-without i l k f))
  ]
]

-- A slot is held for every stream that is being handled.
record IsCounted (max_concurrent : ℕ) (s : Streams) : Type 0 where
  pub held : s.limiter.held ≡ length s.in_progress
  pub bound : s.limiter.held ≤ max_concurrent
  pub size : s.limiter.max_concurrent ≡ max_concurrent

pub acquire_free :
    (l : Limiter) → l.held < l.max_concurrent → acquire l ≡ (record l { held = l.held + 1 }, true)
unfolding acquire
acquire_free l h = let b = lt→ltb _ _ h in rw b refl

pub acquire_full : (l : Limiter) → ¬ (l.held < l.max_concurrent) → acquire l ≡ (l, false)
unfolding acquire
acquire_full l h = elim (Bool-cases (ltb l.held l.max_concurrent)) [
  | inl e ↦ absurd (h (ltb→lt _ _ e))
  | inr e ↦ rw e refl
]

pub release_held : (l : Limiter) → 0 < l.held → release l ≡ some (record l { held = l.held - 1 })
unfolding release
release_held l h = let b : (l.held == 0) ≡ false = ground (arith, h) in rw b refl

arrives_free :
    (i : ℕ) (s : Streams)
    → s.limiter.held < s.limiter.max_concurrent
    → step (arrives i) s
      ≡ some (record s {
        limiter = record s.limiter { held = s.limiter.held + 1 };
        in_progress = i ∷ s.in_progress;
      })
unfolding step
arrives_free i s h = rw (acquire_free s.limiter h) refl

arrives_full :
    (i : ℕ) (s : Streams)
    → ¬ (s.limiter.held < s.limiter.max_concurrent)
    → step (arrives i) s ≡ some (record s { resets = suc s.resets })
unfolding step
arrives_full i s h = rw (acquire_full s.limiter h) refl

returns_held :
    (i : ℕ) (s : Streams) (rest : List ℕ)
    → without i s.in_progress ≡ some rest
    → 0 < s.limiter.held
    → step (returns i) s
      ≡ some (record s {
        limiter = record s.limiter { held = s.limiter.held - 1 };
        in_progress = rest;
      })
unfolding step
returns_held i s rest w h = rw (w, release_held s.limiter h) refl

returns_absent : (i : ℕ) (s : Streams) → without i s.in_progress ≡ none → step (returns i) s ≡ none
unfolding step
returns_absent i s w = rw w refl

step-IsCounted :
    (max_concurrent : ℕ) (a : Action) (s t : Streams)
    → IsCounted max_concurrent s
    → step a s ≡ some t
    → IsCounted max_concurrent t
step-IsCounted m (arrives i) s t c h = elim (dec_lt s.limiter.held s.limiter.max_concurrent) [
  | yes free ↦
      let is : record s {
        limiter = record s.limiter { held = s.limiter.held + 1 };
        in_progress = i ∷ s.in_progress;
      }
          ≡ t =
        cc (sym (arrives_free i s free) ∙ h) in
      rw (← is) (record {
        held = omega (arith, c.held);
        bound = omega (arith, free, c.size);
        size = c.size;
      })
  | no full ↦
      let is : record s { resets = suc s.resets } ≡ t = cc (sym (arrives_full i s full) ∙ h) in
      rw (← is) (record { held = c.held; bound = c.bound; size = c.size })
]
step-IsCounted m (returns i) s t c h = elim (Option-cases (without i s.in_progress)) [
  | inl w ↦ absurd (cc (h, returns_absent i s w))
  | inr (rest, w) ↦
      let count = length-without i s.in_progress rest w in
      let is : record s {
        limiter = record s.limiter { held = s.limiter.held - 1 };
        in_progress = rest;
      }
          ≡ t =
        cc (sym (returns_held i s rest w (omega (arith, count, c.held))) ∙ h) in
      rw (← is) (record {
        held = omega (arith, count, c.held);
        bound = omega (arith, c.bound);
        size = c.size;
      })
]

Reach-IsCounted : (m : ℕ) {s : Streams} → Reach m s → IsCounted m s
Reach-IsCounted m start = record { held = refl; bound = omega arith; size = refl }
Reach-IsCounted m (next {s} {t} r a h) = step-IsCounted m a s t (Reach-IsCounted m r) h

-- Whatever streams came in and whichever handlers returned, in any order: there are never more than
-- the limit being handled, one that comes in is reset exactly if there are that many, and a handler
-- that returns never waits for its slot to be given back.
pub Reach-bounded :
    (max_concurrent : ℕ) (s : Streams)
    → Reach max_concurrent s
    → (length s.in_progress ≤ max_concurrent)
      × ((i : ℕ) (t : Streams)
          → step (arrives i) s ≡ some t
          → (t.resets ≡ suc s.resets) ↔ (length s.in_progress ≡ max_concurrent))
      × ((i : ℕ) (rest : List ℕ)
          → without i s.in_progress ≡ some rest
          → (t : Streams) × (step (returns i) s ≡ some t) × (t.in_progress ≡ rest))
Reach-bounded m s r =
    let c = Reach-IsCounted m r in
    (
      omega (arith, c.held, c.bound),
      λ i t h. elim (dec_lt s.limiter.held s.limiter.max_concurrent) [
        | yes free ↦
            let is : record s {
              limiter = record s.limiter { held = s.limiter.held + 1 };
              in_progress = i ∷ s.in_progress;
            }
                ≡ t =
              cc (sym (arrives_free i s free) ∙ h) in
            rw (← is)
              (λ e. absurd (omega (arith, e)), λ e. absurd (omega (arith, e, free, c.held, c.size)))
        | no full ↦
            let is : record s { resets = suc s.resets } ≡ t =
              cc (sym (arrives_full i s full) ∙ h) in
            rw (← is) (λ e. omega (arith, full, c.held, c.size, c.bound), λ e. refl)
      ],
      λ i rest w.
          let count = length-without i s.in_progress rest w in
          (_, returns_held i s rest w (omega (arith, count, c.held)), refl),
    )
