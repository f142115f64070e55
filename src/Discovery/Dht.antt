-- ===== src/Discovery/Dht.antt =====
-- internal/discovery/dht.go: `findPeers`, `notifyPeerDiscovered` and `connectToBootstrapPeers`, and
-- `HandlePeerFound` of internal/discovery/mdns.go. The routing and the connections are libp2p's: what
-- it finds, when, and whether a connection succeeds are parameters.
use p2p_storage.Base.{
  ℕ, ◌+◌, ◌*◌, ite, Bool, true, false, not, ◌&&◌, ◌||◌, Option, none, some, List, [], ◌∷◌, ltb,
  ◌==◌, if◌then◌else◌, length, string_key, nat_key, bytes_key, bytes_discrete,
}
use p2p_storage.Base.Dict.{Dict, get, put}
use p2p_storage.Base.Bytes.{Bytes}
use p2p_storage.Discovery.Bootstrap.{AddrInfo}

-- When a peer was last notified of, and the events `PeerDiscovered` with the time of each, the last
-- one first.
pub record Dht : Type 0 where
  pub seen_peers : Dict Bytes ℕ
  pub published : List (ℕ × AddrInfo)

-- A peer that the search delivers, the time, and whether `host.Connect` succeeds.
pub record Found : Type 0 where
  pub info : AddrInfo
  pub now : ℕ
  pub connects : Bool

abbrev pub same_id : Bytes → Bytes → Bool
same_id a b = ite (bytes_discrete a b) true false

unfoldable pub notify_peer_discovered : ℕ → AddrInfo → Dht → Dht
notify_peer_discovered now pi d = record {
  seen_peers = put pi.id now d.seen_peers;
  published = (now, pi) ∷ d.published;
}

-- seen && time.Since(lastSeen) < DiscoveryInterval*2
abbrev pub is_recent : ℕ → ℕ → Option ℕ → Bool
is_recent interval now none = false
is_recent interval now (some last_seen) = ltb now (last_seen + interval * 2)

-- `self` is the id of the host, `interval` is `DiscoveryInterval`.
module _ (self : Bytes) (interval : ℕ) where
  unfoldable pub find_peer : Found → Dht → Dht
  find_peer f d =
      if same_id f.info.id self || length f.info.addrs == 0
      then d
      else (if is_recent interval f.now (get f.info.id d.seen_peers)
          then d
          else (if f.connects then notify_peer_discovered f.now f.info d else d))

  -- `findPeers`: the peers of the channel, in order.
  unfoldable pub find_peers : List Found → Dht → Dht
  find_peers [] d = d
  find_peers (f ∷ fs) d = find_peers fs (find_peer f d)

  -- The peers of the configuration, in the order in which their goroutines come to an end.
  unfoldable pub connect_to_bootstrap_peers : List Found → Dht → Dht
  connect_to_bootstrap_peers [] d = d
  connect_to_bootstrap_peers (f ∷ fs) d = connect_to_bootstrap_peers fs (
      if not (same_id f.info.id self) && f.connects
      then notify_peer_discovered f.now f.info d
      else d)

  -- `HandlePeerFound` of mDNS: what it publishes.
  unfoldable pub handle_peer_found : AddrInfo → Option AddrInfo
  handle_peer_found pi = if same_id pi.id self then none else some pi
