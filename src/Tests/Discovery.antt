-- ===== src/Tests/Discovery.antt =====
-- internal/discovery on small data.
use p2p_storage.Base.{
  ℕ, suc, ◌≤◌, ◌≡◌, refl, ◌≢◌, ◌⊎◌, true, false, some, List, [], ◌∷◌, ◌++◌, ◌==◌, string_key,
  nat_key, bytes_key,
}
use p2p_storage.Base.Int.{pos}
use p2p_storage.Config.Types.{DiscoveryMethod, method_mdns, method_dht, method_bootstrap}
use p2p_storage.Discovery.Bootstrap.{AddrInfo, Net, connect_with_retry}
use p2p_storage.Discovery.Retry.{Succeeds, connect_with_retry_lem}
use p2p_storage.Discovery.Manager.{
  Manager, Result, started, failed, dht_failed, new_manager, start, start_each, start_method,
  start_mdns, start_dht, start_bootstrap,
}
use p2p_storage.Discovery.Restart.{starts, stops, calls, start-start-failed}
use p2p_storage.Discovery.Dht.{Found, connect_to_bootstrap_peers}
use p2p_storage.Discovery.Lifecycle.{tick, done, discovery_loop}
use p2p_storage.Discovery.Spacing.{IsSpaced, discovery_loop-IsSpaced}

abbrev peer : AddrInfo
peer = record { id = 2 ∷ []; addrs = (7 ∷ []) ∷ [] }

-- The second attempt connects.
abbrev net : Net
net = record {
  parse_multiaddr = some;
  peer_info = λ m. some peer;
  self = 1 ∷ [];
  done = λ k. false;
  connects = λ k. k == 1;
  done_waiting = λ k. false;
}

connect_with_retry_lem_example :
    let o = connect_with_retry net (pos 3) (7 ∷ []) in
    (o.attempts ≤ 4)
    × ((o.published ≡ peer ∷ []) ⊎ (o.published ≡ []))
    × ((o.published ≡ peer ∷ []) → (k : ℕ) × Succeeds net 0 4 k)
    × ((k : ℕ) → Succeeds net 0 4 k → (o.published ≡ peer ∷ []) × (o.attempts ≡ suc k))
connect_with_retry_lem_example =
    connect_with_retry_lem net (pos 3) (7 ∷ []) (7 ∷ []) peer refl refl (λ e. absurd (cc e))

abbrev methods : List DiscoveryMethod
methods = method_mdns ∷ method_dht ∷ method_bootstrap ∷ []

abbrev up : p2p_storage.Discovery.Manager.Net
up = record { mdns_starts = true; dht_starts = true }

abbrev dht_down : p2p_storage.Discovery.Manager.Net
dht_down = record { mdns_starts = true; dht_starts = false }

start_fails : (start dht_down (new_manager methods)).1 ≡ failed dht_failed
unfolding start new_manager start_each start_method start_mdns start_dht start_bootstrap
start_fails = refl

start-start-failed_example :
    let m = calls (stops ∷ starts up ∷ []) (start dht_down (new_manager methods)).0 in
    ((start up m).0.dht_discovery ≡ some (record { running = false }))
    × ((start up m).1 ≢ failed dht_failed)
start-start-failed_example =
    start-start-failed dht_down up methods (stops ∷ starts up ∷ []) start_fails

abbrev at_time : ℕ → Found
at_time t = record { info = peer; now = t; connects = true }

discovery_loop-IsSpaced_example :
    let d =
      connect_to_bootstrap_peers
        (1 ∷ [])
        10
        (at_time 0 ∷ [])
        (record { seen_peers = []; published = [] }) in
    (new : List (ℕ × AddrInfo)) × ((discovery_loop
        (1 ∷ [])
        10
        (at_time 15 ∷ [])
        (tick (at_time 25 ∷ []) ∷ tick (at_time 40 ∷ []) ∷ done ∷ [])
        d).published
      ≡ new ++ d.published)
    × IsSpaced (1 ∷ []) 20 d.published new
discovery_loop-IsSpaced_example =
    discovery_loop-IsSpaced (1 ∷ []) 10 (at_time 0 ∷ []) (at_time 15 ∷ [])
      (tick (at_time 25 ∷ []) ∷ tick (at_time 40 ∷ []) ∷ done ∷ [])
