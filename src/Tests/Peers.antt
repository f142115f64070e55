-- ===== src/Tests/Peers.antt =====
-- The connections and the peers of a node, on small data.
use p2p_storage.Base.{
  ◌≡◌, refl, true, false, Option, none, some, [], ◌∷◌, arith, any, string_key, nat_key, bytes_key,
}
use p2p_storage.Base.Bytes.{Bytes}
use p2p_storage.Discovery.Bootstrap.{AddrInfo}
use p2p_storage.FileServer.Peers.{
  connected, limited, is_connected, connects, disconnects, not_connected, run,
}
use p2p_storage.FileServer.Peers.Registry.{Agrees, run-Agrees}
use p2p_storage.FileServer.Waiters.{
  Waiters, no_waiters, register_transfer_waiter, notify_transfer_complete, Reach, start, registers,
}
use p2p_storage.FileServer.Waiters.Notified.{IsNotified, notify_transfer_complete-IsNotified}
use p2p_storage.FileServer.Connecting.{
  done, tick, circuit, has_prefix, contains, before, is_direct_connection, wait_connected,
  wait_for_direct_connection, wait_for_address, Seen, connect_to_peer, connect_with_hole_punch,
}
use p2p_storage.FileServer.Connecting.Direct.{ticks, IsAddressOf, connect_with_hole_punch-direct}

run-Agrees_example : Agrees (
    run (
      disconnects not_connected (2 ∷ [])
      ∷ connects connected (some ("/storage/1.0.0" ∷ [])) (2 ∷ []) (7 ∷ [])
      ∷ []))
run-Agrees_example = run-Agrees (
    disconnects not_connected (2 ∷ [])
    ∷ connects connected (some ("/storage/1.0.0" ∷ [])) (2 ∷ []) (7 ∷ [])
    ∷ [])

-- The relay 9, and the peer 2 behind it.
abbrev addr : Bytes
addr = 9 ∷ 47 ∷ 112 ∷ 50 ∷ 112 ∷ 45 ∷ 99 ∷ 105 ∷ 114 ∷ 99 ∷ 117 ∷ 105 ∷ 116 ∷ []

abbrev peer_info : Bytes → Option AddrInfo
peer_info [] = none
peer_info (x ∷ []) = some (record { id = x ∷ []; addrs = [] })
peer_info (x ∷ y ∷ l) = some (record { id = 2 ∷ []; addrs = [] })

abbrev seen : Seen
seen = record {
  relay = tick connected ∷ [];
  reservation = tick ((3 ∷ 9 ∷ []) ∷ []) ∷ [];
  peer = tick not_connected ∷ tick limited ∷ [];
  direct =
      record { in_time = true; addrs = addr ∷ []; context_ends = false }
      ∷ record { in_time = true; addrs = (3 ∷ []) ∷ []; context_ends = false }
      ∷ [];
}

reached : connect_with_hole_punch some peer_info addr 30 seen ≡ done (2 ∷ [])
unfolding connect_with_hole_punch connect_to_peer wait_connected wait_for_direct_connection
    wait_for_address is_direct_connection contains before has_prefix
reached = refl

relayed : contains addr circuit ≡ true
unfolding contains has_prefix
relayed = refl

connect_with_hole_punch-direct_example :
    IsAddressOf some peer_info addr (2 ∷ [])
    × (any (ticks is_connected) seen.peer ≡ true)
    × (any (λ r. is_direct_connection r.addrs) seen.direct ≡ true)
    × ((relay : Bytes) × IsAddressOf some peer_info (before addr circuit) relay
        × (any (ticks is_connected) seen.relay ≡ true)
        × (any (ticks (λ addrs. any (λ a. contains a relay) addrs)) seen.reservation ≡ true))
connect_with_hole_punch-direct_example =
    connect_with_hole_punch-direct some peer_info addr (2 ∷ []) 30 seen relayed (omega arith)
      reached

-- Two wait for one key, and one for another.
abbrev three_waiters : Waiters
three_waiters =
    (register_transfer_waiter (5 ∷ [])
      (register_transfer_waiter (6 ∷ []) (register_transfer_waiter (5 ∷ []) no_waiters).0).0).0

three_reached : Reach three_waiters
three_reached = registers (registers (registers start (5 ∷ [])) (6 ∷ [])) (5 ∷ [])

notify_transfer_complete-IsNotified_example :
    (w' : Waiters) × (notify_transfer_complete (5 ∷ []) none three_waiters ≡ some w')
    × IsNotified (5 ∷ []) none three_waiters w'
notify_transfer_complete-IsNotified_example =
    notify_transfer_complete-IsNotified (5 ∷ []) none three_waiters three_reached
