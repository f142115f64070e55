-- ===== src/Network/Manager.antt =====
-- internal/network/connection.go and notifier.go: the peers that are discovered are connected to, and
-- the connections are published as events.
use p2p_storage.Base.{
  ◌≡◌, refl, inl, inr, ite, Bool, true, false, List, [], ◌∷◌, if◌then◌else◌, Bool-cases, if_pos,
  bytes_key, bytes_discrete,
}
use p2p_storage.Base.Bytes.{Bytes}
use p2p_storage.Discovery.Bootstrap.{AddrInfo}
use p2p_storage.FileServer.Peers.{Connectedness, connected, is_connected}

pub data ConnectionEvent : Type 0 where
  peer_connected peer_disconnected : Bytes → ConnectionEvent

-- What the manager sees of the host: how each peer is connected. `dialled` are the peers that
-- `host.Connect` was called for, and `events` what the notifier publishes, both with the last one
-- first.
pub record Host : Type 0 where
  pub connectedness : Bytes → Connectedness
  pub dialled : List Bytes
  pub events : List ConnectionEvent

abbrev set_connectedness : Bytes → Connectedness → (Bytes → Connectedness) → Bytes → Connectedness
set_connectedness id c f peer = ite (bytes_discrete peer id) c (f peer)

-- The notifier's `Connected` and `Disconnected`, when libp2p calls them, and how the peer is connected
-- then: one connection of several may end.
unfoldable pub notify_connected : Bytes → Connectedness → Host → Host
notify_connected id c h = record {
  connectedness = set_connectedness id c h.connectedness;
  dialled = h.dialled;
  events = peer_connected id ∷ h.events;
}

unfoldable pub notify_disconnected : Bytes → Connectedness → Host → Host
notify_disconnected id c h = record {
  connectedness = set_connectedness id c h.connectedness;
  dialled = h.dialled;
  events = peer_disconnected id ∷ h.events;
}

-- `connect`, and whether `host.Connect` succeeds.
unfoldable pub connect : Bool → AddrInfo → Host → Host
connect succeeds pi h =
    let dialling : Host = record h { dialled = pi.id ∷ h.dialled } in
    if is_connected (h.connectedness pi.id)
    then h
    else (if succeeds then notify_connected pi.id connected dialling else dialling)

-- What happens to the host: a peer is discovered, or a connection ends. The goroutines that `listen`
-- starts run one after the other.
pub data Step : Type 0 where
  discovered : AddrInfo → Bool → Step
  dropped : Bytes → Connectedness → Step

unfoldable pub run : List Step → Host → Host
run [] h = h
run (discovered pi succeeds ∷ l) h = run l (connect succeeds pi h)
run (dropped id c ∷ l) h = run l (notify_disconnected id c h)

-- A peer that is connected is not dialled.
connect_again :
    (succeeds : Bool) (pi : AddrInfo) (h : Host)
    → is_connected (h.connectedness pi.id) ≡ true
    → connect succeeds pi h ≡ h
unfolding connect
connect_again succeeds pi h e = rw e refl

is_self :
    (id : Bytes) (c : Connectedness) (f : Bytes → Connectedness) → set_connectedness id c f id ≡ c
is_self id c f = if_pos (bytes_discrete id id) refl c (f id)

connect_connects :
    (pi : AddrInfo) (h : Host)
    → is_connected (h.connectedness pi.id) ≡ false
    → is_connected ((connect true pi h).connectedness pi.id) ≡ true
unfolding connect notify_connected
connect_connects pi h e = rw (e, is_self pi.id connected h.connectedness) refl

-- Of a peer that is discovered twice in a row the second discovery changes nothing, if the first one
-- led to a connection.
connect-connect :
    (succeeds : Bool) (pi : AddrInfo) (h : Host)
    → connect succeeds pi (connect true pi h) ≡ connect true pi h
connect-connect succeeds pi h = elim (Bool-cases (is_connected (h.connectedness pi.id))) [
  | inl e ↦ rw (connect_again true pi h e) (connect_again succeeds pi h e)
  | inr e ↦ connect_again succeeds pi (connect true pi h) (connect_connects pi h e)
]
