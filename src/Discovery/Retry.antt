-- ===== src/Discovery/Retry.antt =====
-- Which attempt to connect to a peer ends the loop.
use p2p_storage.Base.{
  ℕ, zero, suc, ◌+◌, ◌≤◌, ◌<◌, ◌≡◌, refl, ◌⊎◌, inl, inr, if_neg, true, false, ◌&&◌, some, [], ◌∷◌,
  arith, ℕ_discrete, ltb, Bool-cases, string_key, nat_key, bytes_key, bytes_discrete,
}
use p2p_storage.Base.Bytes.{Bytes}
use p2p_storage.Base.Int.{ℤ}
use p2p_storage.Discovery.Bootstrap.{
  AddrInfo, stopped, connected, ended, one_more, Net, rounds, connect_each, connect_with_retry,
}

module _ (net : Net) where
  -- No attempt from a number on, up to the `k`-th one, connected or was called off.
  abbrev pub FailsUntil : ℕ → ℕ → Type 0
  FailsUntil from k =
      (j : ℕ)
      → from ≤ j
      → j < k
      → (net.done j ≡ false) × (net.connects j ≡ false) × (net.done_waiting j ≡ false)

  -- The `k`-th attempt, of `n` from a number on, is the first one that connects.
  pub record Succeeds (from n k : ℕ) : Type 0 where
    pub after : from ≤ k
    pub within : k < from + n
    pub not_done : net.done k ≡ false
    pub connects : net.connects k ≡ true
    pub fails_before : FailsUntil from k

  -- What a round of the loop comes to.
  data Round (pi : AddrInfo) (n k : ℕ) : Type 0 where
    stops : net.done k ≡ true → connect_each net pi (suc n) k ≡ ended stopped → Round pi n k
    hits :
        net.done k ≡ false
        → net.connects k ≡ true
        → connect_each net pi (suc n) k
          ≡ record { attempts = 1; published = pi ∷ []; end = connected }
        → Round pi n k
    quits :
        net.connects k ≡ false
        → (ltb 0 n && net.done_waiting k) ≡ true
        → connect_each net pi (suc n) k ≡ record { attempts = 1; published = []; end = stopped }
        → Round pi n k
    goes :
        net.done k ≡ false
        → net.connects k ≡ false
        → (ltb 0 n && net.done_waiting k) ≡ false
        → connect_each net pi (suc n) k ≡ one_more (connect_each net pi n (suc k))
        → Round pi n k

  round : (pi : AddrInfo) (n k : ℕ) → Round pi n k
  unfolding connect_each
  round pi n k = elim (Bool-cases (net.done k)) [
    | inl d ↦ stops d (rw d refl)
    | inr d ↦ elim (Bool-cases (net.connects k)) [
      | inl c ↦ hits d c (rw (d, c) refl)
      | inr c ↦ elim (Bool-cases (ltb 0 n && net.done_waiting k)) [
        | inl w ↦ quits c w (rw (d, c, w) refl)
        | inr w ↦ goes d c w (rw (connect_each, d, c, w) refl)
      ]
    ]
  ]

  -- An attempt behind the first one: that one failed.
  Succeeds-later :
      (from n k : ℕ)
      → net.done from ≡ false
      → net.connects from ≡ false
      → net.done_waiting from ≡ false
      → Succeeds (suc from) n k
      → Succeeds from (suc n) k
  Succeeds-later from n k d c w s = record {
    after = omega (arith, s.after);
    within = omega (arith, s.within);
    not_done = s.not_done;
    connects = s.connects;
    fails_before = λ j a b. elim (ℕ_discrete from j) [
      | yes e ↦ rw (← e) (d, c, w)
      | no ne ↦ s.fails_before j (omega (arith, a, ne)) b
    ];
  }

  connect_each-published :
      (pi : AddrInfo) (n from : ℕ)
      → ((connect_each net pi n from).published ≡ pi ∷ [])
        ⊎ ((connect_each net pi n from).published ≡ [])
  unfolding connect_each
  connect_each-published pi zero from = inr refl
  connect_each-published pi (suc n) from = elim (round pi n from) [
    | stops d e ↦ rw e (inr refl)
    | hits d c e ↦ rw e (inl refl)
    | quits c w e ↦ rw e (inr refl)
    | goes d c w e ↦ rw e (connect_each-published pi n (suc from))
  ]

  connect_each-attempts : (pi : AddrInfo) (n from : ℕ) → (connect_each net pi n from).attempts ≤ n
  unfolding connect_each
  connect_each-attempts pi zero from = omega arith
  connect_each-attempts pi (suc n) from = elim (round pi n from) [
    | stops d e ↦ rw e (omega arith)
    | hits d c e ↦ rw e (omega arith)
    | quits c w e ↦ rw e (omega arith)
    | goes d c w e ↦ rw e (omega (arith, connect_each-attempts pi n (suc from)))
  ]

  first-Succeeds :
      (from n : ℕ) → net.done from ≡ false → net.connects from ≡ true → Succeeds from (suc n) from
  first-Succeeds from n d c = record {
    after = omega arith;
    within = omega arith;
    not_done = d;
    connects = c;
    fails_before = λ j a b. absurd (omega (arith, a, b));
  }

  published-Succeeds :
      (pi : AddrInfo) (n from : ℕ)
      → (connect_each net pi n from).published ≡ pi ∷ []
      → (k : ℕ) × Succeeds from n k
  unfolding connect_each
  published-Succeeds pi zero from h = absurd (cc h)
  published-Succeeds pi (suc zero) from h = elim (round pi zero from) [
    | stops d e ↦ absurd (cc (rw e at h))
    | hits d c e ↦ (from, first-Succeeds from zero d c)
    | quits c w e ↦ absurd (cc (rw e at h))
    | goes d c w e ↦ absurd (cc (rw e at h))
  ]
  published-Succeeds pi (suc (suc n)) from h = elim (round pi (suc n) from) [
    | stops d e ↦ absurd (cc (rw e at h))
    | hits d c e ↦ (from, first-Succeeds from (suc n) d c)
    | quits c w e ↦ absurd (cc (rw e at h))
    | goes d c w e ↦
        let (k, s) = published-Succeeds pi (suc n) (suc from) (rw e at h) in
        let waits : net.done_waiting from ≡ false = ground (arith, w) in
        (k, Succeeds-later from (suc n) k d c waits s)
  ]

  Succeeds-published :
      (pi : AddrInfo) (n from k : ℕ)
      → Succeeds from n k
      → ((connect_each net pi n from).published ≡ pi ∷ [])
        × (from + (connect_each net pi n from).attempts ≡ suc k)
  Succeeds-published pi zero from k s = absurd (omega (arith, s.after, s.within))
  Succeeds-published pi (suc n) from k s = elim (ℕ_discrete from k) [
    | yes e ↦ elim (round pi n from) [
      | stops d f ↦ let e' : net.done from ≡ false = rw e s.not_done in absurd (cc (d, e'))
      | hits d c f ↦ rw f (refl, omega (arith, e))
      | quits c w f ↦ let e' : net.connects from ≡ true = rw e s.connects in absurd (cc (c, e'))
      | goes d c w f ↦ let e' : net.connects from ≡ true = rw e s.connects in absurd (cc (c, e'))
    ]
    | no ne ↦
        let (d, c, w) = s.fails_before from (omega arith) (omega (arith, s.after, ne)) in
        let later : Succeeds (suc from) n k = record {
          after = omega (arith, s.after, ne);
          within = omega (arith, s.within);
          not_done = s.not_done;
          connects = s.connects;
          fails_before = λ j a b. s.fails_before j (omega (arith, a)) b;
        } in
        let (published, attempts) = Succeeds-published pi n (suc from) k later in
        elim (round pi n from) [
          | stops d' f ↦ absurd (cc (d, d'))
          | hits d' c' f ↦ absurd (cc (c, c'))
          | quits c' w' f ↦ absurd (ground (arith, w, w'))
          | goes d' c' w' f ↦ rw f (published, omega (arith, attempts))
        ]
  ]

  abbrev pub IsSelf : AddrInfo → Type 0
  IsSelf pi = pi.id ≡ net.self

  -- A bootstrap peer, other than the node itself, is published exactly if one of the attempts
  -- connects before which the context was not done, and then once, and that attempt is the last one.
  -- There is at most one attempt more than `MaxRetries`, and none if that is negative.
  pub connect_with_retry_lem :
      (max_retries : ℤ) (addr maddr : Bytes) (pi : AddrInfo)
      → net.parse_multiaddr addr ≡ some maddr
      → net.peer_info maddr ≡ some pi
      → ¬ IsSelf pi
      → let o = connect_with_retry net max_retries addr in
        (o.attempts ≤ rounds max_retries)
        × ((o.published ≡ pi ∷ []) ⊎ (o.published ≡ []))
        × ((o.published ≡ pi ∷ []) → (k : ℕ) × Succeeds 0 (rounds max_retries) k)
        × ((k : ℕ)
            → Succeeds 0 (rounds max_retries) k
            → (o.published ≡ pi ∷ []) × (o.attempts ≡ suc k))
  unfolding connect_with_retry
  connect_with_retry_lem max_retries addr maddr pi p i other =
      rw (connect_with_retry, p, i, if_neg (bytes_discrete pi.id net.self) other)
        (
          connect_each-attempts pi (rounds max_retries) 0,
          connect_each-published pi (rounds max_retries) 0,
          published-Succeeds pi (rounds max_retries) 0,
          λ k s.
              let (published, attempts) = Succeeds-published pi (rounds max_retries) 0 k s in
              (published, omega (arith, attempts)),
        )
