-- ===== src/FileServer/Sending/Delivery.antt =====
-- When a node hands the content of a file out.
use p2p_storage.Base.{
  ℕ, ◌≡◌, refl, inl, inr, true, Option, none, some, Bool-cases, string_key, nat_key, bytes_key,
}
use p2p_storage.Base.Bytes.{Bytes}
use p2p_storage.Store.Encryption.{Result, ok, err}
use p2p_storage.Store.Files.{Env, read}
use p2p_storage.FileServer.Messages.{
  success, session_rejected, already_exists, empty_key, invalid_msg, unknown_type, Node,
}
use p2p_storage.FileServer.Sending.{
  Net, Reply, ack, send_failed, undecodable, negotiated, read_content, transferred,
  after_negotiation, PeerError, store_file_to_peer, store_file_to_peer_direct,
}

pub negotiated-success : (r : Reply) → negotiated r ≡ none → r ≡ ack success
negotiated-success send_failed h = absurd (cc h)
negotiated-success undecodable h = absurd (cc h)
negotiated-success (ack success) h = refl
negotiated-success (ack empty_key) h = absurd (cc h)
negotiated-success (ack invalid_msg) h = absurd (cc h)
negotiated-success (ack unknown_type) h = absurd (cc h)
negotiated-success (ack session_rejected) h = absurd (cc h)
negotiated-success (ack already_exists) h = absurd (cc h)

pub read_content_lem :
    (r : Option (Result (Bytes × ℕ))) (c : Bytes × ℕ) → read_content r ≡ some c → r ≡ some (ok c)
read_content_lem none c h = absurd (cc h)
read_content_lem (some (err e)) c h = absurd (cc h)
read_content_lem (some (ok b)) c h = let same : b ≡ c = cc h in rw same refl

module _ (env : Env) (net : Net) where
  sent_content :
      (peer key : Bytes) (o : Option (Bytes × ℕ)) (c : Bytes × ℕ)
      → (transferred env net peer key o).sent ≡ some c
      → o ≡ some c
  sent_content peer key none c h = absurd (cc h)
  sent_content peer key (some b) c h = h

  sent_after :
      (n : Node) (peer key : Bytes) (o : Option PeerError) (c : Bytes × ℕ)
      → (after_negotiation env net n peer key o).sent ≡ some c
      → (o ≡ none) × (read env n.store key n.disk ≡ some (ok c))
  sent_after n peer key none c h = (
    refl,
    read_content_lem _ c (sent_content peer key (read_content (read env n.store key n.disk)) c h),
  )
  sent_after n peer key (some e) c h = absurd (cc h)

  -- What StoreFileToPeerDirect hands to a transfer goes over a direct connection, to a peer that agreed
  -- to take the file, and is the content that the store reads under that key, with its size.
  store_file_to_peer_direct-sent :
      (n : Node) (peer key session : Bytes) (c : Bytes × ℕ)
      → (store_file_to_peer_direct env net n peer key session).sent ≡ some c
      → (net.is_direct_connection peer ≡ true)
        × (net.ask peer key session ≡ ack success)
        × (read env n.store key n.disk ≡ some (ok c))
  unfolding store_file_to_peer_direct store_file_to_peer
  store_file_to_peer_direct-sent n peer key session c h =
      elim (Bool-cases (net.is_direct_connection peer)) [
        | inr e ↦ absurd (cc (rw e at h))
        | inl e ↦
            let s = sent_after n peer key (negotiated (net.ask peer key session)) c (rw e at h) in
            (e, negotiated-success _ s.0, s.1)
      ]
