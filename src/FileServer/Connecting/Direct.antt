-- ===== src/FileServer/Connecting/Direct.antt =====
-- What a connection that is made through a relay has behind it.
use p2p_storage.Base.{
  ℕ, ◌<◌, ◌≡◌, refl, sym, ◌∙◌, inl, inr, Bool, true, false, Option, some, List, [], ◌∷◌, arith,
  ◌==◌, Bool-cases, Option-cases, any, string_key, nat_key, bytes_key,
}
use p2p_storage.Base.Bytes.{Bytes}
use p2p_storage.Discovery.Bootstrap.{AddrInfo}
use p2p_storage.FileServer.Peers.{Connectedness, is_connected}
use p2p_storage.FileServer.Connecting.{
  ConnectError, no_reservation, relay_not_connected, relayed_connection, Outcome, done, failed,
  waits, Wake, context_done, tick, circuit, contains, before, is_direct_connection, wait_connected,
  Round, wait_for_direct_connection, wait_for_address, and_then, or_error, Seen, connect_to_peer,
  punched, through_relay, connect_with_hole_punch,
}

and_then-done :
    {A B : Type 0} (o : Outcome A) (f : A → Outcome B) (b : B)
    → and_then o f ≡ done b
    → (a : A) × (o ≡ done a) × (f a ≡ done b)
and_then-done (done a) f b h = (a, refl, h)
and_then-done (failed e) f b h = absurd (cc h)
and_then-done waits f b h = absurd (cc h)

or_error-done :
    {A : Type 0} (e : ConnectError) (o : Outcome A) (a : A) → or_error e o ≡ done a → o ≡ done a
or_error-done e (done b) a h = h
or_error-done e (failed x) a h = absurd (cc h)
or_error-done e waits a h = absurd (cc h)

-- What a loop saw at a tick.
abbrev pub ticks : {A : Type 0} → (A → Bool) → Wake A → Bool
ticks p context_done = false
ticks p (tick a) = p a

wait_connected_lem :
    (id peer : Bytes) (w : List (Wake Connectedness))
    → wait_connected id w ≡ done peer
    → (id ≡ peer) × (any (ticks is_connected) w ≡ true)
unfolding wait_connected
wait_connected_lem id peer [] h = absurd (cc h)
wait_connected_lem id peer (context_done ∷ w) h = absurd (cc h)
wait_connected_lem id peer (tick c ∷ w) h = elim (Bool-cases (is_connected c)) [
  | inl e ↦ (cc (rw e at h), rw e refl)
  | inr e ↦
      let (same, seen) = wait_connected_lem id peer w (rw (wait_connected, e) at h) in
      (same, rw (e, seen) refl)
]

wait_for_direct_connection_lem :
    (rs : List Round)
    → wait_for_direct_connection rs ≡ done tt
    → any (λ r. is_direct_connection r.addrs) rs ≡ true
unfolding wait_for_direct_connection
wait_for_direct_connection_lem [] h = absurd (cc h)
wait_for_direct_connection_lem (r ∷ rs) h = elim (Bool-cases (is_direct_connection r.addrs)) [
  | inl e ↦ rw e refl
  | inr e ↦ elim (Bool-cases r.in_time) [
    | inr f ↦ absurd (cc (rw (e, f) at h))
    | inl f ↦ elim (Bool-cases r.context_ends) [
      | inl g ↦ absurd (cc (rw (e, f, g) at h))
      | inr g ↦
          rw (e, wait_for_direct_connection_lem rs (rw (wait_for_direct_connection, e, f, g) at h))
            refl
    ]
  ]
]

wait_for_address_lem :
    (e : ConnectError) (sub : Bytes) (w : List (Wake (List Bytes)))
    → wait_for_address e sub w ≡ done tt
    → any (ticks (λ addrs. any (λ a. contains a sub) addrs)) w ≡ true
unfolding wait_for_address
wait_for_address_lem e sub [] h = absurd (cc h)
wait_for_address_lem e sub (context_done ∷ w) h = absurd (cc h)
wait_for_address_lem e sub (tick addrs ∷ w) h =
    elim (Bool-cases (any (λ a. contains a sub) addrs)) [
      | inl f ↦ rw f refl
      | inr f ↦ rw (f, wait_for_address_lem e sub w (rw (wait_for_address, f) at h)) refl
    ]

module _ (parse_multiaddr : Bytes → Option Bytes) (peer_info : Bytes → Option AddrInfo) where
  -- The id in an address.
  abbrev pub IsAddressOf : Bytes → Bytes → Type 0
  IsAddressOf addr peer =
      (maddr : Bytes) × (pi : AddrInfo) × (parse_multiaddr addr ≡ some maddr)
      × (peer_info maddr ≡ some pi)
      × (pi.id ≡ peer)

  connect_to_peer_done :
      (addr maddr : Bytes) (pi : AddrInfo) (w : List (Wake Connectedness))
      → parse_multiaddr addr ≡ some maddr
      → peer_info maddr ≡ some pi
      → (connect_to_peer parse_multiaddr peer_info addr w).1 ≡ wait_connected pi.id w
  unfolding connect_to_peer
  connect_to_peer_done addr maddr pi w e f = rw (connect_to_peer, e, f) refl

  connect_to_peer_lem :
      (addr peer : Bytes) (w : List (Wake Connectedness))
      → (connect_to_peer parse_multiaddr peer_info addr w).1 ≡ done peer
      → IsAddressOf addr peer × (any (ticks is_connected) w ≡ true)
  unfolding connect_to_peer
  connect_to_peer_lem addr peer w h = elim (Option-cases (parse_multiaddr addr)) [
    | inl e ↦ absurd (cc (rw (connect_to_peer, e) at h))
    | inr (maddr, e) ↦ elim (Option-cases (peer_info maddr)) [
      | inl f ↦ absurd (cc (rw (connect_to_peer, e, f) at h))
      | inr (pi, f) ↦
          let (same, seen) =
            wait_connected_lem pi.id peer w (sym (connect_to_peer_done addr maddr pi w e f) ∙ h) in
          ((maddr, pi, e, f, same), seen)
    ]
  ]

  punched-direct :
      (wait : ℕ) (rs : List Round) (peer p : Bytes)
      → 0 < wait
      → punched parse_multiaddr peer_info wait rs peer ≡ done p
      → (peer ≡ p) × (any (λ r. is_direct_connection r.addrs) rs ≡ true)
  punched-direct wait rs peer p some_wait h =
      let positive : (wait == 0) ≡ false = ground (arith, some_wait) in
      let o : Outcome (Unit {0}) = or_error relayed_connection (wait_for_direct_connection rs) in
      let f : Unit {0} → Outcome Bytes = λ _. done peer in
      let (_, direct, same) = and_then-done o f p (rw positive at h) in
      (cc same, wait_for_direct_connection_lem rs (or_error-done relayed_connection _ tt direct))

  -- A peer that is reached over a relay address, with a wait for hole punching, is the one that
  -- the address names: the node was connected to the relay that stands before "/p2p-circuit" in it,
  -- had an address of its own with that relay in it, was connected to the peer, and saw a direct
  -- connection to it.
  pub connect_with_hole_punch-direct :
      (addr peer : Bytes) (hole_punch_wait : ℕ) (s : Seen)
      → contains addr circuit ≡ true
      → 0 < hole_punch_wait
      → connect_with_hole_punch parse_multiaddr peer_info addr hole_punch_wait s ≡ done peer
      → IsAddressOf addr peer
        × (any (ticks is_connected) s.peer ≡ true)
        × (any (λ r. is_direct_connection r.addrs) s.direct ≡ true)
        × ((relay : Bytes) × IsAddressOf (before addr circuit) relay
            × (any (ticks is_connected) s.relay ≡ true)
            × (any (ticks (λ addrs. any (λ a. contains a relay) addrs)) s.reservation ≡ true))
  unfolding connect_with_hole_punch
  connect_with_hole_punch-direct addr peer wait s is_relayed some_wait h =
      let first = (connect_to_peer parse_multiaddr peer_info (before addr circuit) s.relay).1 in
      let (relay, at_relay, h1) =
        and_then-done (or_error relay_not_connected first)
          (through_relay parse_multiaddr peer_info addr wait s) peer (rw is_relayed at h) in
      let second = (connect_to_peer parse_multiaddr peer_info addr s.peer).1 in
      let last : Unit {0} → Outcome Bytes =
        λ _. and_then second (punched parse_multiaddr peer_info wait s.direct) in
      let (_, reserved, h2) =
        and_then-done (wait_for_address no_reservation relay s.reservation) last peer h1 in
      let (found, at_peer, h3) =
        and_then-done second (punched parse_multiaddr peer_info wait s.direct) peer h2 in
      let (same, direct) = punched-direct wait s.direct found peer some_wait h3 in
      let (named, seen) = connect_to_peer_lem addr peer s.peer (rw (← same) at_peer) in
      let (relay_named, relay_seen) =
        connect_to_peer_lem (before addr circuit) relay s.relay
          (or_error-done relay_not_connected first relay at_relay) in
      (
        named,
        seen,
        direct,
        (
          relay,
          relay_named,
          relay_seen,
          wait_for_address_lem no_reservation relay s.reservation reserved,
        ),
      )
