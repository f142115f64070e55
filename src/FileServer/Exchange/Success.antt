-- ===== src/FileServer/Exchange/Success.antt =====
-- When a file is sent without an error.
use p2p_storage.Base.{
  ℕ, ◌^◌, ◌≤◌, ◌<◌, ◌≡◌, refl, ap, ◌∙◌, ◌≢◌, ◌↔◌, ◌⊎◌, true, false, Option, none, some, List, [],
  arith, ltb, length, string_key, nat_key, bytes_key,
}
use p2p_storage.Base.Dict.{is_some, get}
use p2p_storage.Base.Bytes.{Bytes}
use p2p_storage.Base.Int.{pos}
use p2p_storage.Store.Encryption.{Error, ok}
use p2p_storage.Store.Files.{Env, has, read, write}
use p2p_storage.Store.Files.Contents.{Accepts}
use p2p_storage.Store.Files.Sizes.{read_size}
use p2p_storage.Store.Files.Success.{IsSteady, HasGoodKey, write_succeeds}
use p2p_storage.FileServer.Messages.{success, Node, store_file_resp}
use p2p_storage.FileServer.Messages.Accepts.{handle_store_file_message_accepts}
use p2p_storage.FileServer.Transfer.{max_key_length, limit_reader, response_error, Outcome}
use p2p_storage.FileServer.Transfer.RoundTrip.{received, handle-send_file, after_write_ok}
use p2p_storage.FileServer.Sending.{negotiated, after_negotiation, store_file_to_peer}
use p2p_storage.FileServer.Sending.Delivery.{negotiated-success}
use p2p_storage.FileServer.Exchange.{Link, Receiver, transfer, between, exchange}
use p2p_storage.FileServer.Exchange.Arrival.{
  IsJson, GetsThrough, asks, ask_accepted, after_negotiation-none, length_positive,
}

received-whole :
    (pieces : Bytes → List Bytes) (key content : Bytes) (n : ℕ) (failure : Option Error)
    → n ≡ length content
    → (received pieces key content n failure).failure ≡ none
unfolding limit_reader
received-whole pieces key content n failure same =
    let met : ltb (length content) n ≡ false = ground arith in rw met refl

-- The receiver takes the key: there is one, someone waits for it or the session is right, and it is
-- not in the store.
abbrev pub Takes : Env → Node → Bytes → Bytes → Type 0
Takes env to key session =
    (key ≢ [])
    × ((is_some (get key to.waiters) ≡ true) ⊎ (to.session_name ≡ []) ⊎ (session ≡ to.session_name))
    × (has env to.store key to.disk ≡ false)

module _ (env to_env : Env) (pieces : Bytes → List Bytes) (failure : Option Error)
    (steady : IsSteady to_env) where
  transfer_succeeds :
      (to : Node) (key content : Bytes) (n : ℕ)
      → Accepts to_env to.store key to.disk
      → HasGoodKey to_env to.store
      → key ≢ []
      → length key ≤ max_key_length
      → n < 2 ^ 63
      → n ≡ length content
      → (transfer env to_env pieces failure to key (content, n)).response ≡ some 1
  unfolding transfer
  transfer_succeeds to key content n a good some_key short small same =
      let src = received pieces key content n failure in
      let (m, e) =
        write_succeeds to_env steady to.store key src to.disk a good
          (received-whole pieces key content n failure same) in
      let w = write to_env to.store key src to.disk in
      ap (λ (o : Outcome). o.response)
        (handle-send_file to_env pieces to.store key content n failure to.disk
          (length_positive key some_key) short small)
      ∙ (after_write_ok to_env pieces key (pos n) w m e).1

  module _ (link : Link) where
    taken :
        (to : Receiver) (peer key session : Bytes)
        → IsJson link.codec
        → GetsThrough link to key session (store_file_resp key success)
        → Takes to_env to.node key session
        → negotiated ((between env to_env pieces failure link to).ask peer key session) ≡ none
    taken to peer key session is_json through t = ap negotiated (
        asks env to_env pieces failure link is_json to peer key session through (
          (handle_store_file_message_accepts to_env to.node
              (record { key = key; session = session })).1
            t))

    sent_well :
        (from : Node) (to : Receiver) (peer key : Bytes) (c : Bytes × ℕ)
        → read env from.store key from.disk ≡ some (ok c)
        → link.opens_transfer ≡ true
        → (transfer env to_env pieces failure to.node key c).response ≡ some 1
        → (after_negotiation env
            (between env to_env pieces failure link to)
            from
            peer
            key
            none).error
          ≡ none
    unfolding between response_error
    sent_well from to peer key (content, size) r o t = rw (r, o, t) refl

    -- A file that the sender can read is sent without an error exactly if the request and the yes get
    -- through, the stream of the transfer opens, and the receiver takes the key. A request gets through
    -- if its stream opens, the receiver has a slot for it, its rate limiter lets the sender in, and
    -- neither message is larger than the limit. The key has at most 1024 bytes, the size fits an
    -- `int64`, the receiver's file system refuses no call for the key, its random source and its writes
    -- do not fail, its encryption key, if it has one, is a key of the cipher, and the messages are
    -- JSON. An error at the end of the transfer's stream does no harm.
    pub exchange_lem :
        (from : Node) (to : Receiver) (peer key session : Bytes) (c : Bytes × ℕ)
        → IsJson link.codec
        → Accepts to_env to.node.store key to.node.disk
        → HasGoodKey to_env to.node.store
        → length key ≤ max_key_length
        → c.1 < 2 ^ 63
        → read env from.store key from.disk ≡ some (ok c)
        → ((exchange env to_env pieces failure link from to peer key session).0 ≡ none) ↔ (
            GetsThrough link to key session (store_file_resp key success)
            × (link.opens_transfer ≡ true)
            × Takes to_env to.node key session)
    unfolding exchange store_file_to_peer
    exchange_lem from to peer key session c is_json a good short small r =
        let net = between env to_env pieces failure link to in
        (
          λ h.
              let (agreed, _, opened, _) =
                after_negotiation-none env to_env pieces failure link from to peer key
                  (negotiated (net.ask peer key session)) c r h in
              let (through, accepted) =
                ask_accepted env to_env pieces failure link is_json to peer key session
                  (negotiated-success (net.ask peer key session) agreed) in
              (
                through,
                opened,
                (handle_store_file_message_accepts to_env to.node
                      (record { key = key; session = session })).0
                    accepted,
              ),
          λ h.
              let (through, opened, t) = h in
              let (content, size) = c in
              let goes =
                transfer_succeeds to.node key content size a good t.0 short small
                  (read_size env from.store key from.disk c r) in
              ap (λ o. (after_negotiation env net from peer key o).error)
                (taken to peer key session is_json through t)
              ∙ sent_well from to peer key c r opened goes,
        )
