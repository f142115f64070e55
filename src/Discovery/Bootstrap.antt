-- ===== src/Discovery/Bootstrap.antt =====
-- internal/discovery/bootstrap.go: `connectWithRetry` and what starts it. Addresses are parsed by
-- libraries, and `host.Connect` is a call of one: the outcome of each attempt is a parameter.
use p2p_storage.Base.{
  ℕ, zero, suc, ite, Bool, true, false, ◌&&◌, Option, none, some, List, [], ◌∷◌, map, ltb,
  if◌then◌else◌, string_key, nat_key, bytes_key, bytes_discrete,
}
use p2p_storage.Base.Bytes.{Bytes}
use p2p_storage.Base.Int.{ℤ, pos, negsuc}

pub record AddrInfo : Type 0 where
  pub id : Bytes
  pub addrs : List Bytes

pub data End : Type 0 where
  invalid_multiaddr no_peer_info skipped_self stopped connected exhausted : End

-- How often `host.Connect` was called, what was published as `PeerDiscovered`, and how it ended.
pub record Outcome : Type 0 where
  pub attempts : ℕ
  pub published : List AddrInfo
  pub end : End

abbrev pub ended : End → Outcome
ended e = record { attempts = 0; published = []; end = e }

abbrev pub one_more : Outcome → Outcome
one_more o = record o { attempts = suc o.attempts }

-- `parse_multiaddr` and `peer_info` are `NewMultiaddr` and `AddrInfoFromP2pAddr`, `self` is the id of
-- the host. For an attempt, by its number: is the context done before it, does it connect, and is the
-- context done while it waits behind it?
pub record Net : Type 0 where
  pub parse_multiaddr : Bytes → Option Bytes
  pub peer_info : Bytes → Option AddrInfo
  pub self : Bytes
  pub done : ℕ → Bool
  pub connects : ℕ → Bool
  pub done_waiting : ℕ → Bool

-- attempt := 0; attempt <= MaxRetries
abbrev pub rounds : ℤ → ℕ
rounds (pos n) = suc n
rounds (negsuc n) = 0

module _ (net : Net) where
  -- The loop, with the number of rounds that are left and that of the attempt.
  unfoldable pub connect_each : AddrInfo → ℕ → ℕ → Outcome
  connect_each pi zero attempt = ended exhausted
  connect_each pi (suc n) attempt =
      let rest = connect_each pi n (suc attempt) in
      if net.done attempt
      then ended stopped
      else (if net.connects attempt
          then record { attempts = 1; published = pi ∷ []; end = connected }
          else (if ltb 0 n && net.done_waiting attempt
              then record { attempts = 1; published = []; end = stopped }
              else one_more rest))

  abbrev pub connect_peer : ℤ → Option AddrInfo → Outcome
  connect_peer max_retries none = ended no_peer_info
  connect_peer max_retries (some pi) =
      if ite (bytes_discrete pi.id net.self) true false
      then ended skipped_self
      else connect_each pi (rounds max_retries) 0

  unfoldable pub connect_with_retry : ℤ → Bytes → Outcome
  connect_with_retry max_retries addr = elim (net.parse_multiaddr addr) [
    | none ↦ ended invalid_multiaddr
    | some maddr ↦ connect_peer max_retries (net.peer_info maddr)
  ]

-- Each address has its own goroutine, and its own luck.
unfoldable pub connect_to_bootstrap_peers : (Bytes → Net) → ℤ → List Bytes → List Outcome
connect_to_bootstrap_peers net max_retries addrs =
    map (λ a. connect_with_retry (net a) max_retries a) addrs

-- `AddBootstrapPeer`: does it report an error, and the outcome of the goroutine, if it starts one.
unfoldable pub add_bootstrap_peer : Net → ℤ → Bytes → Bool × Option Outcome
add_bootstrap_peer net max_retries addr = elim (net.parse_multiaddr addr) [
  | none ↦ (true, none)
  | some maddr ↦ elim (net.peer_info maddr) [
    | none ↦ (true, none)
    | some pi ↦
        if ite (bytes_discrete pi.id net.self) true false
        then (false, none)
        else (false, some (connect_with_retry net max_retries addr))
  ]
]
