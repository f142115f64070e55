-- ===== src/FileServer/Sending.antt =====
-- How a node sends its files: `StoreFileToPeer`, `StoreFileToPeerDirect`, `StoreFileToNetwork` and
-- `StoreFile` of internal/fileserver/fileserver.go, and `deliverToRequester` of
-- internal/fileserver/get.go. What the network does with a request is a parameter.
pub mod Replicas
pub mod Delivery
pub mod Local
use p2p_storage.Base.{
  ℕ, zero, suc, ◌+◌, ◌-◌, ◌*◌, ◌/◌, ◌%◌, ◌^◌, ◌≤◌, ◌<◌, min, String, ◌≡◌, refl, sym, ap, ◌∙◌, ◌≢◌,
  ◌↔◌, ◌⊎◌, inl, inr, if_pos, if_neg, ite, Bool, true, false, not, ◌&&◌, ◌||◌, Option, none, some,
  List, [], ◌∷◌, ◌++◌, map, arith, dec_lt, dec_le, ℕ_discrete, ltb, leb, ◌==◌, if◌then◌else◌,
  ltb→lt, lt→ltb, leb→le, ==_iff, Bool-cases, Option-cases, length, get_elem?, set, take, drop,
  keep, any, length-append, take-append-drop, length-take, length-drop, take_of_length-le,
  take-append_length, drop-append_length, length-keep-le, keep-append, drop-add,
  take-append-drop-length, drop_of_length-le, string_discrete, Key, string_key, nat_key, bytes_key,
  bytes_discrete,
}
use p2p_storage.Base.Dict.{
  Dict, is_some, filter_value, get, put, remove, get-remove, get-put, get-remove_self,
  get-remove_ne, get-put_self, get-put_ne, length-remove-le, length-remove-lt, length-put-le, IsMap,
  remove-IsMap, put-IsMap, keep-IsMap, get-keep,
}
use p2p_storage.Base.Forall.{All, All-append, All-keep}
use p2p_storage.Base.Bytes.{Bytes}
use p2p_storage.Base.Int.{ℤ, to_ℕ}
use p2p_storage.Store.Encryption.{Error, Result, ok, err, Source}
use p2p_storage.Store.Disk.{Disk}
use p2p_storage.Store.Files.{Store, Env, has, read, write}
use p2p_storage.FileServer.Messages.{
  Status, success, session_rejected, already_exists, GetFilePayload, Node,
}

-- What comes of the negotiation: no answer, one that does not decode, or the status of the answer.
pub data Reply : Type 0 where
  send_failed undecodable : Reply
  ack : Status → Reply

pub data PeerError : Type 0 where
  negotiation_failed bad_response session_refused file_already_exists peer_rejected : PeerError
  read_failed transfer_failed relayed_connection : PeerError

-- The network: the answer of a peer to a store request for a key under a session, whether
-- `SendFile` succeeds with a content of a size, whether there is a direct connection, and whether an
-- address can be connected to. `decode` is `peer.Decode`.
pub record Net : Type 0 where
  pub ask : Bytes → Bytes → Bytes → Reply
  pub send_file : Bytes → Bytes → Bytes → ℕ → Bool
  pub is_direct_connection : Bytes → Bool
  pub connect_with_hole_punch : Bytes → Bool
  pub decode : Bytes → Option Bytes

-- The error, and the content and the size that were handed to `SendFile`.
pub record Sending : Type 0 where
  pub error : Option PeerError
  pub sent : Option (Bytes × ℕ)

abbrev refused : PeerError → Sending
refused e = record { error = some e; sent = none }

-- `switch ack.Status`
abbrev pub negotiated : Reply → Option PeerError
negotiated send_failed = some negotiation_failed
negotiated undecodable = some bad_response
negotiated (ack session_rejected) = some session_refused
negotiated (ack already_exists) = some file_already_exists
negotiated (ack success) = none
negotiated (ack _) = some peer_rejected

-- The content of the file. That the fuel of the read runs out counts as an error; it never does.
abbrev pub read_content : Option (Result (Bytes × ℕ)) → Option (Bytes × ℕ)
read_content none = none
read_content (some (err e)) = none
read_content (some (ok c)) = some c

pub data NetworkResult : Type 0 where
  stored_to : ℕ → NetworkResult
  no_connected_peers : NetworkResult
  stored_nowhere : Option PeerError → NetworkResult
  not_stored_locally : Error → NetworkResult

abbrev pub counted : Option PeerError → ℕ × Option PeerError → ℕ × Option PeerError
counted none (success_count, last_err) = (success_count + 1, last_err)
counted (some e) (success_count, last_err) = (success_count, some e)

module _ (env : Env) (net : Net) where
  abbrev pub transferred : Bytes → Bytes → Option (Bytes × ℕ) → Sending
  transferred peer key none = refused read_failed
  transferred peer key (some (content, size)) = record {
    error = if net.send_file peer key content size then none else some transfer_failed;
    sent = some (content, size);
  }

  abbrev pub after_negotiation : Node → Bytes → Bytes → Option PeerError → Sending
  after_negotiation n peer key (some e) = refused e
  after_negotiation n peer key none =
      transferred peer key (read_content (read env n.store key n.disk))

  unfoldable pub store_file_to_peer : Node → Bytes → Bytes → Bytes → Sending
  store_file_to_peer n peer key session =
      after_negotiation n peer key (negotiated (net.ask peer key session))

  unfoldable pub store_file_to_peer_direct : Node → Bytes → Bytes → Bytes → Sending
  store_file_to_peer_direct n peer key session =
      if net.is_direct_connection peer
      then store_file_to_peer n peer key session
      else refused relayed_connection

  -- The loop over the peers, with the successes and the last error so far.
  unfoldable pub store_each :
      Node → Bytes → List Bytes → ℕ × Option PeerError → ℕ × Option PeerError
  store_each n key [] acc = acc
  store_each n key (p ∷ ps) acc =
      store_each n key ps (counted (store_file_to_peer n p key []).error acc)

  unfoldable pub store_file_to_network : Node → Bytes → ℤ → NetworkResult
  store_file_to_network n key replication_factor =
      let factor = min (to_ℕ replication_factor) (length n.peers) in
      let (success_count, last_err) = store_each n key (take factor n.peers) (0, none) in
      if length n.peers == 0
      then no_connected_peers
      else (if success_count == 0 then stored_nowhere last_err else stored_to success_count)

  abbrev propagated : Node → Bytes → ℤ → Disk × Result ℕ → Node × NetworkResult
  propagated n key factor (d, err e) = (record n { disk = d }, not_stored_locally e)
  propagated n key factor (d, ok size) =
      let n' : Node = record n { disk = d } in
      (n', if length n.peers == 0 then stored_to 0 else store_file_to_network n' key factor)

  -- `source` is the file that is opened; that it cannot be opened is an error of its own.
  unfoldable pub store_file : Node → Bytes → Result Source → ℤ → Node × NetworkResult
  store_file n key (err e) factor =
      if has env n.store key n.disk
      then propagated n key factor (n.disk, ok 0)
      else (n, not_stored_locally e)
  store_file n key (ok source) factor =
      if has env n.store key n.disk
      then propagated n key factor (n.disk, ok 0)
      else propagated n key factor (write env n.store key source n.disk)

  -- Is the delivery reported by the event `GetDelivered`?
  abbrev is_delivered : Option PeerError → Bool
  is_delivered none = true
  is_delivered (some file_already_exists) = true
  is_delivered (some _) = false

  abbrev delivered : Node → GetFilePayload → Option Bytes → Bool
  delivered n p none = false
  delivered n p (some requester) =
      if any net.connect_with_hole_punch p.requester_addrs
      then is_delivered (store_file_to_peer_direct n requester p.key []).error
      else false

  unfoldable pub deliver_to_requester : Node → GetFilePayload → Bool
  deliver_to_requester n p = delivered n p (net.decode p.requester_id)
