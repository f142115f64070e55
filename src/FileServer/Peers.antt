-- ===== src/FileServer/Peers.antt =====
-- The peers of a node: `OnPeerConnect`, `OnPeerDisconnect`, `ListPeers` and `GetConnectedPeers` of
-- internal/fileserver/fileserver.go. What libp2p tells of a connection and of a peer's protocols is
-- a parameter of each call.
pub mod Registry
use p2p_storage.Base.{
  ℕ, zero, suc, ◌+◌, ◌-◌, ◌*◌, ◌/◌, ◌%◌, ◌^◌, ◌≤◌, ◌<◌, min, String, ◌≡◌, refl, sym, ap, ◌∙◌, ◌≢◌,
  ◌↔◌, ◌⊎◌, inl, inr, if_pos, if_neg, ite, Bool, true, false, not, ◌&&◌, ◌||◌, Option, none, some,
  List, [], ◌∷◌, ◌++◌, map, arith, dec_lt, dec_le, ℕ_discrete, ltb, leb, ◌==◌, if◌then◌else◌,
  ltb→lt, lt→ltb, leb→le, ==_iff, Bool-cases, Option-cases, length, get_elem?, set, take, drop,
  keep, any, length-append, take-append-drop, length-take, length-drop, take_of_length-le,
  take-append_length, drop-append_length, length-keep-le, keep-append, drop-add,
  take-append-drop-length, drop_of_length-le, string_discrete, Key, string_key, nat_key, bytes_key,
  bytes_discrete,
}
use p2p_storage.Base.Dict.{
  Dict, is_some, filter_value, get, put, remove, get-remove, get-put, get-remove_self,
  get-remove_ne, get-put_self, get-put_ne, length-remove-le, length-remove-lt, length-put-le, IsMap,
  remove-IsMap, put-IsMap, keep-IsMap, get-keep,
}
use p2p_storage.Base.Forall.{All, All-append, All-keep}
use p2p_storage.Base.Bytes.{Bytes}

pub data Connectedness : Type 0 where
  not_connected connected can_connect cannot_connect limited : Connectedness

pub data PeerEvent : Type 0 where
  storage_peer_registered storage_peer_unregistered : Bytes → PeerEvent

-- The connection of each storage peer, the peers that are tagged for the connection manager, and
-- what was published, the last event first.
pub record Peers : Type 0 where
  pub peers : Dict Bytes Bytes
  pub tags : Dict Bytes (Unit {0})
  pub events : List PeerEvent

abbrev pub is_connected : Connectedness → Bool
is_connected connected = true
is_connected limited = true
is_connected _ = false

abbrev pub storage_protocol_id : String
storage_protocol_id = "/storage/1.0.0"

abbrev pub is_storage : String → Bool
is_storage p = ite (string_discrete p storage_protocol_id) true false

unfoldable pub register_peer : Bytes → Bytes → Peers → Peers
register_peer peer conn s = if is_some (get peer s.peers) then s else (record {
  peers = put peer conn s.peers;
  tags = put peer tt s.tags;
  events = storage_peer_registered peer ∷ s.events;
})

-- The part behind the wait of half a second; `protocols` is what the peer store knows, if it does.
unfoldable pub on_peer_connect :
    Connectedness → Option (List String) → Bytes → Bytes → Peers → Peers
on_peer_connect c none peer conn s = s
on_peer_connect c (some protocols) peer conn s =
    if is_connected c && any is_storage protocols then register_peer peer conn s else s

unfoldable pub on_peer_disconnect : Connectedness → Bytes → Peers → Peers
on_peer_disconnect c peer s =
    if is_connected c
    then s
    else (if is_some (get peer s.peers)
        then record {
          peers = remove peer s.peers;
          tags = remove peer s.tags;
          events = storage_peer_unregistered peer ∷ s.events;
        }
        else s)

unfoldable pub list_peers : Peers → List Bytes
list_peers s = map (λ p. p.0) s.peers

unfoldable pub get_connected_peers : Peers → ℕ
get_connected_peers s = length s.peers

unfoldable pub get_peer : Bytes → Peers → Option Bytes
get_peer peer s = get peer s.peers

pub data Call : Type 0 where
  connects : Connectedness → Option (List String) → Bytes → Bytes → Call
  disconnects : Connectedness → Bytes → Call

unfoldable pub call : Call → Peers → Peers
call (connects c protocols peer conn) s = on_peer_connect c protocols peer conn s
call (disconnects c peer) s = on_peer_disconnect c peer s

-- The calls, the last one first.
unfoldable pub run : List Call → Peers
run [] = record { peers = []; tags = []; events = [] }
run (c ∷ cs) = call c (run cs)
