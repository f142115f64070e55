-- ===== src/Discovery/Spacing.antt =====
-- How often the search of the DHT publishes a peer.
use p2p_storage.Base.{
  ℕ, ◌+◌, ◌*◌, ◌≤◌, ◌≡◌, refl, ap, ◌∙◌, ◌≢◌, inl, inr, if_pos, if_neg, ite, Bool, true, false, not,
  ◌&&◌, ◌||◌, Option, none, some, List, [], ◌∷◌, ◌++◌, arith, ◌==◌, Bool-cases, length, string_key,
  nat_key, bytes_key, bytes_discrete,
}
use p2p_storage.Base.Dict.{get, get-put_self, get-put_ne}
use p2p_storage.Base.Bytes.{Bytes}
use p2p_storage.Discovery.Bootstrap.{AddrInfo}
use p2p_storage.Discovery.Lifecycle.{Wake, tick, done, ticks, discovery_loop}
use p2p_storage.Discovery.Dht.{
  Dht, Found, same_id, notify_peer_discovered, is_recent, find_peer, find_peers,
  connect_to_bootstrap_peers,
}

-- When a peer was last published.
unfoldable pub last : Bytes → List (ℕ × AddrInfo) → Option ℕ
last id [] = none
last id ((t, pi) ∷ l) = let rest = last id l in ite (bytes_discrete pi.id id) (some t) rest

-- At least an interval apart.
abbrev pub IsBefore : ℕ → Option ℕ → ℕ → Type 0
IsBefore gap none t = Unit
IsBefore gap (some u) t = u + gap ≤ t

-- Every event comes long enough behind the last one of the same peer, counting those of `old`, is not
-- of the node itself, and has addresses.
abbrev pub IsSpaced : Bytes → ℕ → List (ℕ × AddrInfo) → List (ℕ × AddrInfo) → Type 0
IsSpaced self gap old [] = Unit
IsSpaced self gap old ((t, pi) ∷ l) =
    (IsBefore gap (last pi.id (l ++ old)) t × (pi.id ≢ self) × (pi.addrs ≢ []))
    × IsSpaced self gap old l

-- The times are those of the last events.
abbrev IsTimed : Dht → Type 0
IsTimed d = (id : Bytes) → get id d.seen_peers ≡ last id d.published

-- What was published behind `old` is spaced.
abbrev IsSound : Bytes → ℕ → List (ℕ × AddrInfo) → Dht → Type 0
IsSound self interval old d =
    IsTimed d
    × ((new : List (ℕ × AddrInfo)) × (d.published ≡ new ++ old)
        × IsSpaced self (interval * 2) old new)

notify-last :
    (now : ℕ) (pi : AddrInfo) (d : Dht) → IsTimed d → IsTimed (notify_peer_discovered now pi d)
unfolding notify_peer_discovered last
notify-last now pi d h id = elim (bytes_discrete pi.id id) [
  | yes e ↦ rw (if_pos (bytes_discrete pi.id id) e, ← e) (get-put_self pi.id now d.seen_peers)
  | no ne ↦
      rw (if_neg (bytes_discrete pi.id id) ne) (get-put_ne pi.id id now d.seen_peers ne ∙ h id)
]

notify-published :
    (now : ℕ) (pi : AddrInfo) (d : Dht)
    → (notify_peer_discovered now pi d).published ≡ (now, pi) ∷ d.published
unfolding notify_peer_discovered
notify-published now pi d = refl

start-IsTimed : IsTimed (record { seen_peers = []; published = [] })
unfolding get last
start-IsTimed id = refl

is_recent_lem :
    (interval now : ℕ) (o : Option ℕ)
    → is_recent interval now o ≡ false
    → IsBefore (interval * 2) o now
is_recent_lem interval now none h = tt
is_recent_lem interval now (some u) h = ground (arith, h)

not-false : (b c : Bool) → (b || c) ≡ false → (b ≡ false) × (c ≡ false)
not-false true c h = absurd (cc h)
not-false false c h = (refl, h)

same_id_lem : (a b : Bytes) → same_id a b ≡ false → a ≢ b
same_id_lem a b h e = absurd (cc (rw (if_pos (bytes_discrete a b) e) at h))

no_addrs : (l : List Bytes) → (length l == 0) ≡ false → l ≢ []
no_addrs [] h e = absurd (cc h)
no_addrs (x ∷ l) h e = absurd (cc e)

module _ (self : Bytes) (interval : ℕ) (old : List (ℕ × AddrInfo)) where
  notify-IsSound :
      (f : Found) (d : Dht)
      → (same_id f.info.id self || length f.info.addrs == 0) ≡ false
      → is_recent interval f.now (get f.info.id d.seen_peers) ≡ false
      → IsSound self interval old d
      → IsSound self interval old (notify_peer_discovered f.now f.info d)
  notify-IsSound f d e r (times, (new, is, spaced)) =
      let (other, some_addrs) = not-false _ _ e in
      let before : IsBefore (interval * 2) (last f.info.id (new ++ old)) f.now =
        rw (← is, ← times f.info.id) (is_recent_lem interval f.now _ r) in
      (
        notify-last f.now f.info d times,
        (
          (f.now, f.info) ∷ new,
          notify-published f.now f.info d ∙ ap (◌∷◌ (f.now, f.info)) is,
          ((before, same_id_lem f.info.id self other, no_addrs f.info.addrs some_addrs), spaced),
        ),
      )

  find_peer-IsSound :
      (f : Found) (d : Dht)
      → IsSound self interval old d
      → IsSound self interval old (find_peer self interval f d)
  unfolding find_peer
  find_peer-IsSound f d i = elim (Bool-cases (same_id f.info.id self || length f.info.addrs == 0)) [
    | inl e ↦ rw e i
    | inr e ↦ elim (Bool-cases (is_recent interval f.now (get f.info.id d.seen_peers))) [
      | inl r ↦ rw (e, r) i
      | inr r ↦ elim (Bool-cases f.connects) [
        | inr c ↦ rw (e, r, c) i
        | inl c ↦ rw (e, r, c) (notify-IsSound f d e r i)
      ]
    ]
  ]

  find_peers-IsSound :
      (fs : List Found) (d : Dht)
      → IsSound self interval old d
      → IsSound self interval old (find_peers self interval fs d)
  unfolding find_peers
  find_peers-IsSound [] d i = i
  find_peers-IsSound (f ∷ fs) d i =
      find_peers-IsSound fs (find_peer self interval f d) (find_peer-IsSound f d i)

module _ (self : Bytes) (interval : ℕ) (old : List (ℕ × AddrInfo)) where
  ticks-IsSound :
      (w : List Wake) (d : Dht)
      → IsSound self interval old d
      → IsSound self interval old (ticks self interval w d)
  unfolding ticks
  ticks-IsSound [] d i = i
  ticks-IsSound (tick found ∷ w) d i =
      ticks-IsSound w (find_peers self interval found d)
        (find_peers-IsSound self interval old found d i)
  ticks-IsSound (done ∷ w) d i = i

module _ (self : Bytes) (interval : ℕ) where
  connect_to_bootstrap_peers-IsTimed :
      (fs : List Found) (d : Dht)
      → IsTimed d
      → IsTimed (connect_to_bootstrap_peers self interval fs d)
  unfolding connect_to_bootstrap_peers
  connect_to_bootstrap_peers-IsTimed [] d h = h
  connect_to_bootstrap_peers-IsTimed (f ∷ fs) d h =
      connect_to_bootstrap_peers-IsTimed fs _
        (elim (Bool-cases (not (same_id f.info.id self) && f.connects)) [
          | inl e ↦ rw e (notify-last f.now f.info d h)
          | inr e ↦ rw e h
        ])

  -- What the searches of the loop publish behind the peers of the configuration, at every tick,
  -- whatever is found and whichever connections succeed: an event comes two intervals or more behind
  -- the last one of the same peer, is never of the node itself, and its peer has addresses.
  pub discovery_loop-IsSpaced :
      (configured first : List Found) (w : List Wake)
      → let d =
          connect_to_bootstrap_peers self interval configured
            (record { seen_peers = []; published = [] }) in
        (new : List (ℕ × AddrInfo)) × ((discovery_loop self interval first w d).published
          ≡ new ++ d.published)
        × IsSpaced self (interval * 2) d.published new
  unfolding discovery_loop
  discovery_loop-IsSpaced configured first w =
      let d =
        connect_to_bootstrap_peers self interval configured
          (record { seen_peers = []; published = [] }) in
      let i =
        find_peers-IsSound self interval d.published first d
          (connect_to_bootstrap_peers-IsTimed configured _ start-IsTimed, ([], refl, tt)) in
      (ticks-IsSound self interval d.published w (find_peers self interval first d) i).1
