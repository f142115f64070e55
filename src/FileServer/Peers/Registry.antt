-- ===== src/FileServer/Peers/Registry.antt =====
-- What the map of peers, the tags and the events have in common.
use p2p_storage.Base.{
  String, ◌≡◌, refl, inl, inr, if_pos, if_neg, ite, Bool, true, false, ◌&&◌, Option, none, some,
  List, [], ◌∷◌, Bool-cases, any, string_key, nat_key, bytes_key, bytes_discrete,
}
use p2p_storage.Base.Dict.{
  is_some, get, get-remove_self, get-remove_ne, get-put_self, get-put_ne, IsMap, remove-IsMap,
  put-IsMap,
}
use p2p_storage.Base.Bytes.{Bytes}
use p2p_storage.FileServer.Peers.{
  Connectedness, PeerEvent, storage_peer_registered, storage_peer_unregistered, Peers, is_connected,
  is_storage, register_peer, on_peer_connect, on_peer_disconnect, Call, connects, disconnects, call,
  run,
}

-- Being registered and not being registered take turns.
abbrev pub turn : Bool → Option Bool → Option Bool
turn now none = none
turn true (some false) = some true
turn true (some true) = none
turn false (some true) = some false
turn false (some false) = none

-- Whether a peer is registered by the events alone; none if it is registered twice in a row, or
-- unregistered when it is not registered.
unfoldable pub replay : Bytes → List PeerEvent → Option Bool
replay p [] = some false
replay p (storage_peer_registered q ∷ es) =
    let before = replay p es in ite (bytes_discrete q p) (turn true before) before
replay p (storage_peer_unregistered q ∷ es) =
    let before = replay p es in ite (bytes_discrete q p) (turn false before) before

-- The events, the tags and the map agree on every peer, and no peer is in the map twice.
pub record Agrees (s : Peers) : Type 0 where
  pub events : (p : Bytes) → replay p s.events ≡ some (is_some (get p s.peers))
  pub tags : (p : Bytes) → is_some (get p s.tags) ≡ is_some (get p s.peers)
  pub once : IsMap s.peers

replay_registered :
    (q p : Bytes) (es : List PeerEvent)
    → replay p (storage_peer_registered q ∷ es)
      ≡ ite (bytes_discrete q p) (turn true (replay p es)) (replay p es)
unfolding replay
replay_registered q p es = refl

replay_unregistered :
    (q p : Bytes) (es : List PeerEvent)
    → replay p (storage_peer_unregistered q ∷ es)
      ≡ ite (bytes_discrete q p) (turn false (replay p es)) (replay p es)
unfolding replay
replay_unregistered q p es = refl

register_peer-Agrees :
    (peer conn : Bytes) (s : Peers) → Agrees s → Agrees (register_peer peer conn s)
unfolding register_peer
register_peer-Agrees peer conn s a = elim (Bool-cases (is_some (get peer s.peers))) [
  | inl e ↦ rw (register_peer, e) a
  | inr e ↦
      rw (register_peer, e)
        (record {
          events = λ p. elim (bytes_discrete peer p) [
            | yes same ↦
                rw
                  (
                    replay_registered peer p s.events,
                    if_pos (bytes_discrete peer p) same,
                    a.events p,
                    ← same,
                    e,
                    get-put_self peer conn s.peers,
                  )
                  refl
            | no ne ↦
                rw
                  (
                    replay_registered peer p s.events,
                    if_neg (bytes_discrete peer p) ne,
                    a.events p,
                    get-put_ne peer p conn s.peers ne,
                  )
                  refl
          ];
          tags = λ p. elim (bytes_discrete peer p) [
            | yes same ↦
                rw (← same, get-put_self peer conn s.peers, get-put_self peer tt s.tags) refl
            | no ne ↦
                rw (get-put_ne peer p conn s.peers ne, get-put_ne peer p tt s.tags ne) (a.tags p)
          ];
          once = put-IsMap peer conn s.peers a.once;
        })
]

on_peer_disconnect-Agrees :
    (c : Connectedness) (peer : Bytes) (s : Peers) → Agrees s → Agrees (on_peer_disconnect c peer s)
unfolding on_peer_disconnect
on_peer_disconnect-Agrees c peer s a = elim (Bool-cases (is_connected c)) [
  | inl f ↦ rw f a
  | inr f ↦ elim (Bool-cases (is_some (get peer s.peers))) [
    | inr e ↦ rw (on_peer_disconnect, f, e) a
    | inl e ↦
        rw (on_peer_disconnect, f, e)
          (record {
            events = λ p. elim (bytes_discrete peer p) [
              | yes same ↦
                  rw
                    (
                      replay_unregistered peer p s.events,
                      if_pos (bytes_discrete peer p) same,
                      a.events p,
                      ← same,
                      e,
                      get-remove_self peer s.peers,
                    )
                    refl
              | no ne ↦
                  rw
                    (
                      replay_unregistered peer p s.events,
                      if_neg (bytes_discrete peer p) ne,
                      a.events p,
                      get-remove_ne peer p s.peers ne,
                    )
                    refl
            ];
            tags = λ p. elim (bytes_discrete peer p) [
              | yes same ↦
                  rw (← same, get-remove_self peer s.peers, get-remove_self peer s.tags) refl
              | no ne ↦
                  rw (get-remove_ne peer p s.peers ne, get-remove_ne peer p s.tags ne) (a.tags p)
            ];
            once = remove-IsMap peer s.peers a.once;
          })
  ]
]

on_peer_connect-Agrees :
    (c : Connectedness) (o : Option (List String)) (peer conn : Bytes) (s : Peers)
    → Agrees s
    → Agrees (on_peer_connect c o peer conn s)
unfolding on_peer_connect
on_peer_connect-Agrees c none peer conn s a = a
on_peer_connect-Agrees c (some ps) peer conn s a =
    elim (Bool-cases (is_connected c && any is_storage ps)) [
      | inl e ↦ rw e (register_peer-Agrees peer conn s a)
      | inr e ↦ rw e a
    ]

call-Agrees : (c : Call) (s : Peers) → Agrees s → Agrees (call c s)
unfolding call
call-Agrees (connects c o peer conn) s a = on_peer_connect-Agrees c o peer conn s a
call-Agrees (disconnects c peer) s a = on_peer_disconnect-Agrees c peer s a

-- After any calls, in any order: the events `StoragePeerRegistered` and `StoragePeerUnregistered` of a
-- peer take turns and end with the one that tells whether the node has the peer, the peers that the
-- connection manager is told to protect are those of the node, and no peer is listed twice.
pub run-Agrees : (cs : List Call) → Agrees (run cs)
unfolding run replay get
run-Agrees [] = record { events = λ p. refl; tags = λ p. refl; once = tt }
run-Agrees (c ∷ cs) = call-Agrees c (run cs) (run-Agrees cs)
