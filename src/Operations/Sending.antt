-- ===== src/Operations/Sending.antt =====
-- When a file of the user reaches a peer.
use p2p_storage.Base.{
  ℕ, ◌≡◌, refl, ap, ◌∙◌, ◌⊎◌, inl, inr, true, Option, none, some, ◌==◌, Bool-cases, length,
  string_key, nat_key, bytes_key,
}
use p2p_storage.Base.Bytes.{Bytes}
use p2p_storage.Store.Encryption.{ok}
use p2p_storage.Store.Files.{Env, has}
use p2p_storage.FileServer.Messages.{Node}
use p2p_storage.FileServer.Sending.{Net, PeerError, store_file_to_peer_direct}
use p2p_storage.Store.Files.{read}
use p2p_storage.FileServer.Sending.{
  ack, transferred, read_content, negotiated, after_negotiation, store_file_to_peer,
}
use p2p_storage.FileServer.Messages.{success}
use p2p_storage.FileServer.Sending.Local.{store_file_zero}
use p2p_storage.FileServer.Sending.Delivery.{negotiated-success, read_content_lem}
use p2p_storage.Operations.{
  Local, KeyError, SendResult, StoreOutcome, get_file_key, store_key, send_result, send_connected,
  after_store, send_key, send_file,
}
use p2p_storage.Operations.Storing.{store_key_stored}

module _ (env : Env) (net : Net) where
  transferred_ok :
      (peer key : Bytes) (o : Option (Bytes × ℕ))
      → (transferred env net peer key o).error ≡ none
      → (c : Bytes × ℕ) × (o ≡ some c) × (net.send_file peer key c.0 c.1 ≡ true)
  transferred_ok peer key none h = absurd (cc h)
  transferred_ok peer key (some c) h = elim (Bool-cases (net.send_file peer key c.0 c.1)) [
    | inl e ↦ (c, refl, e)
    | inr e ↦ absurd (cc (rw e at h))
  ]

  after_negotiation_ok :
      (n : Node) (peer key : Bytes) (o : Option PeerError)
      → (after_negotiation env net n peer key o).error ≡ none
      → (o ≡ none)
        × ((c : Bytes × ℕ) × (read env n.store key n.disk ≡ some (ok c))
            × (net.send_file peer key c.0 c.1 ≡ true))
  after_negotiation_ok n peer key (some e) h = absurd (cc h)
  after_negotiation_ok n peer key none h =
      let (c, content, taken) =
        transferred_ok peer key (read_content (read env n.store key n.disk)) h in
      (refl, (c, read_content_lem _ c content, taken))

  store_file_to_peer_direct_ok :
      (n : Node) (peer key session : Bytes)
      → (store_file_to_peer_direct env net n peer key session).error ≡ none
      → (net.is_direct_connection peer ≡ true)
        × (net.ask peer key session ≡ ack success)
        × ((c : Bytes × ℕ) × (read env n.store key n.disk ≡ some (ok c))
            × (net.send_file peer key c.0 c.1 ≡ true))
  unfolding store_file_to_peer_direct store_file_to_peer
  store_file_to_peer_direct_ok n peer key session h =
      elim (Bool-cases (net.is_direct_connection peer)) [
        | inr e ↦ absurd (cc (rw e at h))
        | inl e ↦
            let (agreed, content) =
              after_negotiation_ok n peer key (negotiated (net.ask peer key session)) (rw e at h) in
            (e, negotiated-success (net.ask peer key session) agreed, content)
      ]

module _ (local : Local) (env : Env) (net : Net) where
  send_result_sent :
      (key peer : Bytes) (e : Option PeerError) (r : SendResult)
      → send_result local env net key peer e ≡ inr r
      → (e ≡ none) × (record { key = key; peer = peer } ≡ r)
  send_result_sent key peer none r h = (refl, cc h)
  send_result_sent key peer (some e) r h = absurd (cc h)

  send_connected_sent :
      (n : Node) (key session : Bytes) (o : Option Bytes) (r : SendResult)
      → (send_connected local env net n key session o).1 ≡ inr r
      → (o ≡ some r.peer)
        × (key ≡ r.key)
        × ((store_file_to_peer_direct env net n r.peer r.key session).error ≡ none)
        × ((send_connected local env net n key session o).0 ≡ n)
  send_connected_sent n key session none r h = absurd (cc h)
  send_connected_sent n key session (some q) r h =
      let (no_error, same) =
        send_result_sent key q (store_file_to_peer_direct env net n q key session).error r h in
      rw (← same) (refl, refl, no_error, refl)

  -- What a file that is sent was before: stored, or stored by the operation itself.
  record IsSent (n n' : Node) (key session : Bytes) (o : Option Bytes) (r : SendResult)
      : Type 0 where
    pub peer : o ≡ some r.peer
    pub key_is : key ≡ r.key
    pub no_error : (store_file_to_peer_direct env net n' r.peer r.key session).error ≡ none
    pub local_copy : (has env n.store key n.disk ≡ true) ⊎ ((length n.peers == 0) ≡ true)

  after_store_sent :
      (key session : Bytes) (o : Option Bytes) (s : Node × StoreOutcome) (r : SendResult)
      → (after_store local env net key session o s).1 ≡ inr r
      → ((k : Bytes) × (s.1 ≡ inr k))
        × ((send_connected local env net s.0 key session o).1 ≡ inr r)
        × ((after_store local env net key session o s).0
            ≡ (send_connected local env net s.0 key session o).0)
  after_store_sent key session o (n, inr k) r h = ((k, refl), h, refl)
  after_store_sent key session o (n, inl e) r h = absurd (cc h)

  stored_alone :
      (n : Node) (path key k : Bytes)
      → (store_key local env net n path (inr key)).1 ≡ inr k
      → (length n.peers == 0) ≡ true
  stored_alone n path key k h = elim (Bool-cases (length n.peers == 0)) [
    | inl e ↦ e
    | inr e ↦
        let (_, (j, done), _) = store_key_stored local env net n path k (inr key) h in
        absurd (store_file_zero env net n k (local.open_file path) j e done)
  ]

  send_key-IsSent :
      (connect : Bytes → Option Bytes) (n : Node) (path addr session key : Bytes) (r : SendResult)
      → (send_key local env net connect n path addr session (inr key)).1 ≡ inr r
      → IsSent n
          (send_key local env net connect n path addr session (inr key)).0
          key
          session
          (connect addr)
          r
  send_key-IsSent connect n path addr session key r h =
      elim (Bool-cases (has env n.store key n.disk)) [
        | inl there ↦
            let (peer, same, no_error, node) =
              send_connected_sent n key session (connect addr) r (rw there at h) in
            record {
              peer = peer;
              key_is = same;
              no_error = rw (there, node) no_error;
              local_copy = inl there;
            }
        | inr fresh ↦
            let s = store_key local env net n path (inr key) in
            let ((k, done), result, moved) =
              after_store_sent key session (connect addr) s r (rw fresh at h) in
            let (peer, same, no_error, node) =
              send_connected_sent s.0 key session (connect addr) r result in
            record {
              peer = peer;
              key_is = same;
              no_error = rw (fresh, moved, node) no_error;
              local_copy = inr (stored_alone n path key k done);
            }
      ]

  no_key :
      (connect : Bytes → Option Bytes) (n : Node) (path addr session : Bytes) (o : KeyError ⊎ Bytes)
      (r : SendResult)
      → (send_key local env net connect n path addr session o).1 ≡ inr r
      → (key : Bytes) × (o ≡ inr key)
  no_key connect n path addr session (inl e) r h = absurd (cc h)
  no_key connect n path addr session (inr key) r h = (key, refl)

  -- A file that `SendFile` reports as sent went over a direct connection to the peer that the address
  -- led to, which agreed to take it under the session; what went is what the node's store reads under
  -- the file's key, and the peer acknowledged it. The node had the key already, or no peer was
  -- connected when the operation began.
  pub send_file-sent :
      (connect : Bytes → Option Bytes) (n : Node) (path addr session : Bytes) (r : SendResult)
      → (send_file local env net connect n path addr session).1 ≡ inr r
      → let n' = (send_file local env net connect n path addr session).0 in
        (get_file_key local path ≡ inr r.key)
        × (connect addr ≡ some r.peer)
        × (net.is_direct_connection r.peer ≡ true)
        × (net.ask r.peer r.key session ≡ ack success)
        × ((c : Bytes × ℕ) × (read env n'.store r.key n'.disk ≡ some (ok c))
            × (net.send_file r.peer r.key c.0 c.1 ≡ true))
        × ((has env n.store r.key n.disk ≡ true) ⊎ ((length n.peers == 0) ≡ true))
  unfolding send_file
  send_file-sent connect n path addr session r h =
      let (key, is_key) = no_key connect n path addr session (get_file_key local path) r h in
      let i = send_key-IsSent connect n path addr session key r (rw is_key at h) in
      let n' = (send_file local env net connect n path addr session).0 in
      let e : (store_file_to_peer_direct env net n' r.peer r.key session).error ≡ none =
        rw (send_file, is_key) i.no_error in
      let (direct, agreed, content) =
        store_file_to_peer_direct_ok env net n' r.peer r.key session e in
      (is_key ∙ ap inr i.key_is, i.peer, direct, agreed, content, rw (← i.key_is) i.local_copy)
