-- ===== src/FileServer/Connecting.antt =====
-- How a node gets a connection: `ConnectToPeer`, `IsDirectConnection`, `GetConnectionType`,
-- `WaitForDirectConnection`, `WaitForRelayReservation` and `ConnectWithHolePunch` of
-- internal/fileserver/fileserver.go. A loop that waits runs over what it sees whenever it wakes up,
-- in order.
pub mod Direct
use p2p_storage.Base.{
  ℕ, zero, suc, ◌+◌, ◌-◌, ◌*◌, ◌/◌, ◌%◌, ◌^◌, ◌≤◌, ◌<◌, min, String, ◌≡◌, refl, sym, ap, ◌∙◌, ◌≢◌,
  ◌↔◌, ◌⊎◌, inl, inr, if_pos, if_neg, ite, Bool, true, false, not, ◌&&◌, ◌||◌, Option, none, some,
  List, [], ◌∷◌, ◌++◌, map, arith, dec_lt, dec_le, ℕ_discrete, ltb, leb, ◌==◌, if◌then◌else◌,
  ltb→lt, lt→ltb, leb→le, ==_iff, Bool-cases, Option-cases, length, get_elem?, set, take, drop,
  keep, any, length-append, take-append-drop, length-take, length-drop, take_of_length-le,
  take-append_length, drop-append_length, length-keep-le, keep-append, drop-add,
  take-append-drop-length, drop_of_length-le, string_discrete, Key, string_key, nat_key, bytes_key,
  bytes_discrete,
}
use p2p_storage.Base.Dict.{
  Dict, is_some, filter_value, get, put, remove, get-remove, get-put, get-remove_self,
  get-remove_ne, get-put_self, get-put_ne, length-remove-le, length-remove-lt, length-put-le, IsMap,
  remove-IsMap, put-IsMap, keep-IsMap, get-keep,
}
use p2p_storage.Base.Forall.{All, All-append, All-keep}
use p2p_storage.Base.Bytes.{Bytes}
use p2p_storage.Discovery.Bootstrap.{AddrInfo}
use p2p_storage.FileServer.Peers.{Connectedness, is_connected}

pub data ConnectError : Type 0 where
  invalid_multiaddr no_peer_info connect_timeout : ConnectError
  relay_not_connected no_reservation cancelled relayed_connection : ConnectError

-- `waits`: the loop has not come to an end with what it has seen.
pub data Outcome (A : Type 0) : Type 0 where
  done : A → Outcome A
  failed : ConnectError → Outcome A
  waits : Outcome A

-- A loop wakes up because its context is done, or because its ticker ticks, and looks at something.
pub data Wake (A : Type 0) : Type 0 where
  context_done : Wake A
  tick : A → Wake A

-- "/p2p-circuit"
abbrev pub circuit : Bytes
circuit = 47 ∷ 112 ∷ 50 ∷ 112 ∷ 45 ∷ 99 ∷ 105 ∷ 114 ∷ 99 ∷ 117 ∷ 105 ∷ 116 ∷ []

-- strings.HasPrefix
unfoldable pub has_prefix : Bytes → Bytes → Bool
has_prefix s [] = true
has_prefix [] (p ∷ prefix) = false
has_prefix (c ∷ s) (p ∷ prefix) = let rest = has_prefix s prefix in (c == p) && rest

-- strings.Contains
unfoldable pub contains : Bytes → Bytes → Bool
contains [] sub = has_prefix [] sub
contains (c ∷ s) sub = let rest = contains s sub in has_prefix (c ∷ s) sub || rest

-- strings.Split(s, sub)[0]
unfoldable pub before : Bytes → Bytes → Bytes
before [] sub = []
before (c ∷ s) sub = let rest = before s sub in if has_prefix (c ∷ s) sub then [] else c ∷ rest

-- The addresses of the connections to a peer.
unfoldable pub is_direct_connection : List Bytes → Bool
is_direct_connection addrs = any (λ a. not (contains a circuit)) addrs

unfoldable pub get_connection_type : List Bytes → String
get_connection_type addrs = if is_direct_connection addrs then "direct" else "relayed"

unfoldable pub wait_connected : Bytes → List (Wake Connectedness) → Outcome Bytes
wait_connected id [] = waits
wait_connected id (context_done ∷ w) = failed connect_timeout
wait_connected id (tick c ∷ w) =
    let rest = wait_connected id w in if is_connected c then done id else rest

-- A round of the wait for a direct connection: is it before the deadline, what are the addresses, and
-- does the context end before the next tick?
pub record Round : Type 0 where
  pub in_time : Bool
  pub addrs : List Bytes
  pub context_ends : Bool

unfoldable pub wait_for_direct_connection : List Round → Outcome (Unit {0})
wait_for_direct_connection [] = waits
wait_for_direct_connection (r ∷ rs) =
    let rest = wait_for_direct_connection rs in
    if is_direct_connection r.addrs
    then done tt
    else (if not r.in_time
        then failed relayed_connection
        else (if r.context_ends then failed cancelled else rest))

-- Until an address of the node's own contains a text.
unfoldable pub wait_for_address :
    ConnectError → Bytes → List (Wake (List Bytes)) → Outcome (Unit {0})
wait_for_address e sub [] = waits
wait_for_address e sub (context_done ∷ w) = failed e
wait_for_address e sub (tick addrs ∷ w) =
    let rest = wait_for_address e sub w in if any (λ a. contains a sub) addrs then done tt else rest

unfoldable pub wait_for_relay_reservation :
    List Bytes → List (Wake (List Bytes)) → Outcome (Unit {0})
wait_for_relay_reservation relay_servers w =
    if length relay_servers == 0 then done tt else wait_for_address cancelled circuit w

abbrev pub and_then : {A B : Type 0} → Outcome A → (A → Outcome B) → Outcome B
and_then (done a) f = f a
and_then (failed e) f = failed e
and_then waits f = waits

abbrev pub or_error : {A : Type 0} → ConnectError → Outcome A → Outcome A
or_error e (done a) = done a
or_error e (failed _) = failed e
or_error e waits = waits

-- What the loops see, one after the other.
pub record Seen : Type 0 where
  pub relay : List (Wake Connectedness)
  pub reservation : List (Wake (List Bytes))
  pub peer : List (Wake Connectedness)
  pub direct : List Round

-- `NewMultiaddr` and `AddrInfoFromP2pAddr`. An id is the text of it.
module _ (parse_multiaddr : Bytes → Option Bytes) (peer_info : Bytes → Option AddrInfo) where
  -- The event `PeerDiscovered` is published, if the address is one, and the outcome of the wait.
  unfoldable pub connect_to_peer :
      Bytes → List (Wake Connectedness) → Option AddrInfo × Outcome Bytes
  connect_to_peer addr w = elim (parse_multiaddr addr) [
    | none ↦ (none, failed invalid_multiaddr)
    | some maddr ↦ elim (peer_info maddr) [
      | none ↦ (none, failed no_peer_info)
      | some pi ↦ (some pi, wait_connected pi.id w)
    ]
  ]

  -- `HolePunchWait` in nanoseconds; 0 skips the wait for a direct connection.
  abbrev pub punched : ℕ → List Round → Bytes → Outcome Bytes
  punched hole_punch_wait rounds peer =
      if hole_punch_wait == 0
      then done peer
      else and_then (or_error relayed_connection (wait_for_direct_connection rounds))
          (λ _. done peer)

  abbrev pub through_relay : Bytes → ℕ → Seen → Bytes → Outcome Bytes
  through_relay addr hole_punch_wait s relay =
      and_then (wait_for_address no_reservation relay s.reservation)
        (λ _. and_then (connect_to_peer addr s.peer).1 (punched hole_punch_wait s.direct))

  unfoldable pub connect_with_hole_punch : Bytes → ℕ → Seen → Outcome Bytes
  connect_with_hole_punch addr hole_punch_wait s =
      if contains addr circuit
      then and_then (or_error relay_not_connected (connect_to_peer (before addr circuit) s.relay).1)
          (through_relay addr hole_punch_wait s)
      else (connect_to_peer addr s.peer).1
