-- ===== src/FileServer/Exchange/Arrival.antt =====
-- What arrives at the receiver of a file.
use p2p_storage.Base.{
  ℕ, ◌+◌, ◌^◌, ◌≤◌, ◌<◌, min, ◌≡◌, refl, sym, ap, ◌∙◌, ◌≢◌, ◌⊎◌, ◌↔◌, ◌++◌, inl, inr, Bool, true,
  false, Option, none, some, List, [], ◌∷◌, arith, ◌==◌, if◌then◌else◌, ==_iff, Bool-cases, length,
  take, take_of_length-le, string_key, nat_key, bytes_key,
}
use p2p_storage.Base.Dict.{is_some, get}
use p2p_storage.Base.Bytes.{Bytes}
use p2p_storage.Store.Encryption.{Error, ok}
use p2p_storage.Store.Files.{Env, has, read}
use p2p_storage.Store.Files.Contents.{Accepts}
use p2p_storage.FileServer.Messages.{
  Status, success, empty_key, session_rejected, already_exists, Node, Response, store_file_resp,
  handle_store_file_message,
}
use p2p_storage.FileServer.Messages.Accepts.{handle_store_file_message_accepts}
use p2p_storage.FileServer.Transfer.{max_key_length, response_error}
use p2p_storage.FileServer.Transfer.RoundTrip.{handle_incoming_stream-acknowledged}
use p2p_storage.FileServer.Sending.{
  ack, negotiated, transferred, after_negotiation, PeerError, store_file_to_peer,
}
use p2p_storage.FileServer.Sending.Delivery.{negotiated-success}
use p2p_storage.Store.Encryption.CopyIn.{concat}
use p2p_storage.Store.Files.Sizes.{read_size}
use mathlib.Core.Path.{subst}
use p2p_storage.Middleware.RateLimit.{allow, wrap}
use p2p_storage.Protocol as Protocol
use p2p_storage.Protocol.{Codec, Handled, reply}
use p2p_storage.Middleware.Limiter.{Limiter}
use p2p_storage.Protocol.Exchange.{Fits, send_lem}
use p2p_storage.FileServer.Exchange.{
  Wire, request, response, Link, Receiver, answer, reply_of, transfer, handler, between, exchange,
}

-- The sender takes only one answer of the handler for a yes, whatever the conditions in it are.
agreed_key :
    (empty refused stored : Bool) (key : Bytes)
    → answer (
        if empty
        then store_file_resp [] empty_key
        else (if refused
            then store_file_resp key session_rejected
            else (if stored
                then store_file_resp key already_exists
                else store_file_resp key success)))
      ≡ ack success
    → (if empty
        then store_file_resp [] empty_key
        else (if refused
            then store_file_resp key session_rejected
            else (if stored
                then store_file_resp key already_exists
                else store_file_resp key success)))
      ≡ store_file_resp key success
agreed_key true refused stored key h = absurd (cc h)
agreed_key false true stored key h = absurd (cc h)
agreed_key false false true key h = absurd (cc h)
agreed_key false false false key h = refl

response_error_none : (o : Option ℕ) → is_some (response_error o) ≡ false → o ≡ some 1
unfolding response_error
response_error_none none h = absurd (cc h)
response_error_none (some b) h = elim (Bool-cases (b == 1)) [
  | inl e ↦ ap some ((==_iff b 1).0 e)
  | inr e ↦ absurd (cc (rw e at h))
]

-- What `encoding/json` promises of a message: the decoder reads the first value of a stream, and fails
-- on less than a value.
pub record IsJson (codec : Codec Wire) : Type 0 where
  pub decode_json : (m : Wire) (rest : Bytes) → codec.decode (codec.json m ++ rest) ≡ some m
  pub decode_cut :
      (m : Wire) (k : ℕ) → k < length (codec.json m) → codec.decode (take k (codec.json m)) ≡ none
  pub decode_nothing : codec.decode [] ≡ none

-- The request to store a key under a session.
abbrev pub store_request : Bytes → Bytes → Wire
store_request key session = request (record { key = key; session = session })

-- A request gets through to the handler, and so does its answer to the sender: a stream opens, there
-- is a slot at the receiver, the rate limiter lets the sender in, and neither message is too large.
pub record GetsThrough (link : Link) (to : Receiver) (key session : Bytes) (r : Response)
    : Type 0 where
  pub opens : link.opens ≡ true
  pub free : to.limiter.held < to.limiter.max_concurrent
  pub allowed : (allow link.now link.sender to.rate_limiter).1 ≡ true
  pub request_fits : Fits link.codec link.max_message_size (store_request key session)
  pub response_fits : Fits link.codec link.max_message_size (response r)

module _ (env to_env : Env) (pieces : Bytes → List Bytes) (failure : Option Error)
    (link : Link) where
  -- The handler replies what `handleStoreFileMessage` answers, if the rate limiter lets it.
  handler_lem :
      (to : Receiver) (key session : Bytes) (r : Response)
      → (handler env to_env pieces failure link to (store_request key session) ≡ reply (response r))
        ↔ (((allow link.now link.sender to.rate_limiter).1 ≡ true)
            × (handle_store_file_message to_env to.node
                  (some (record { key = key; session = session }))
                ≡ r))
  unfolding handler wrap
  handler_lem to key session r = elim (Bool-cases (allow link.now link.sender to.rate_limiter).1) [
    | inl e ↦ rw e (λ h. (refl, cc h), λ h. ap (λ x. reply (response x)) h.1)
    | inr e ↦ rw e (λ h. absurd (cc h), λ h. absurd (cc h.0))
  ]

  reply_cases :
      (x : Protocol.SendError ⊎ Wire) (s : Status)
      → reply_of x ≡ ack s
      → (r : Response) × (x ≡ inr (response r)) × (answer r ≡ ack s)
  reply_cases (inl e) s h = absurd (cc h)
  reply_cases (inr (request p)) s h = absurd (cc h)
  reply_cases (inr (response r)) s h = (r, refl, h)

  -- Without a stream there is no response.
  opened_send :
      (opens : Bool) (handles : Wire → Handled Wire) (l : Limiter) (m x : Wire)
      → ((Protocol.send link.codec link.max_message_size opens handles l m).1 ≡ inr x) ↔ (
          (opens ≡ true)
          × ((Protocol.send link.codec link.max_message_size true handles l m).1 ≡ inr x))
  unfolding Protocol.send
  opened_send true handles l m x = (λ h. (refl, h), λ h. h.1)
  opened_send false handles l m x = (λ h. absurd (cc h), λ h. absurd (cc h.0))

  module _ (is_json : IsJson link.codec) where
    sends :
        (to : Receiver) (key session : Bytes) (r : Response)
        → ((Protocol.send link.codec link.max_message_size link.opens
              (handler env to_env pieces failure link to)
              to.limiter
              (store_request key session)).1
            ≡ inr (response r))
          ↔ (GetsThrough link to key session r
              × (handle_store_file_message to_env to.node
                    (some (record { key = key; session = session }))
                  ≡ r))
    sends to key session r =
        let handles = handler env to_env pieces failure link to in
        let m = store_request key session in
        let o = opened_send link.opens handles to.limiter m (response r) in
        let l =
          (send_lem link.codec link.max_message_size is_json.decode_json is_json.decode_cut
            is_json.decode_nothing handles to.limiter m (response r)).0 in
        let hl = handler_lem to key session r in
        (
          λ h.
              let (opens, sent) = o.0 h in
              let (free, fits, replies, back) = l.0 sent in
              let (allowed, same) = hl.0 replies in
              (
                record {
                  opens = opens;
                  free = free;
                  allowed = allowed;
                  request_fits = fits;
                  response_fits = back;
                },
                same,
              ),
          λ h.
              let (t, same) = h in
              o.1 (t.opens, l.1 (t.free, t.request_fits, hl.1 (t.allowed, same), t.response_fits)),
        )

    pub ask_accepted :
        (to : Receiver) (peer key session : Bytes)
        → (between env to_env pieces failure link to).ask peer key session ≡ ack success
        → GetsThrough link to key session (store_file_resp key success)
          × (handle_store_file_message to_env to.node
                (some (record { key = key; session = session }))
              ≡ store_file_resp key success)
    unfolding between handle_store_file_message
    ask_accepted to peer key session h =
        let (r, sent, agrees) = reply_cases _ success h in
        let (through, same) = (sends to key session r).0 sent in
        let agreed = agreed_key _ _ _ key (ap answer same ∙ agrees) in
        (subst (GetsThrough link to key session) (sym same ∙ agreed) through, agreed)

    pub asks :
        (to : Receiver) (peer key session : Bytes)
        → GetsThrough link to key session (store_file_resp key success)
        → handle_store_file_message to_env to.node (some (record { key = key; session = session }))
          ≡ store_file_resp key success
        → (between env to_env pieces failure link to).ask peer key session ≡ ack success
    unfolding between
    asks to peer key session through same =
        ap reply_of ((sends to key session (store_file_resp key success)).1 (through, same))

  transferred-none :
      (to : Receiver) (peer key : Bytes) (c : Bytes × ℕ)
      → (transferred env (between env to_env pieces failure link to) peer key (some c)).error ≡ none
      → (link.opens_transfer ≡ true)
        × ((transfer env to_env pieces failure to.node key c).response ≡ some 1)
  unfolding between
  transferred-none to peer key c h =
      let t = transfer env to_env pieces failure to.node key c in
      elim (Bool-cases link.opens_transfer) [
        | inr o ↦ absurd (cc (rw o at h))
        | inl o ↦ elim (Bool-cases (is_some (response_error t.response))) [
          | inl e ↦ absurd (cc (rw (o, e) at h))
          | inr e ↦ (o, response_error_none t.response e)
        ]
      ]

  -- A negotiation that goes well, and a transfer that goes well: what was sent, and the byte that
  -- was answered.
  pub after_negotiation-none :
      (from : Node) (to : Receiver) (peer key : Bytes) (o : Option PeerError) (c : Bytes × ℕ)
      → read env from.store key from.disk ≡ some (ok c)
      → let net = between env to_env pieces failure link to in
        (after_negotiation env net from peer key o).error ≡ none
        → (o ≡ none)
          × ((after_negotiation env net from peer key o).sent ≡ some c)
          × (link.opens_transfer ≡ true)
          × ((transfer env to_env pieces failure to.node key c).response ≡ some 1)
  after_negotiation-none from to peer key (some e) c r h = absurd (cc h)
  after_negotiation-none from to peer key none c r h =
      let e = transferred-none to peer key c (rw r at h) in
      (refl, rw (after_negotiation, r) refl, e.0, e.1)

pub length_positive : (b : Bytes) → b ≢ [] → 0 < length b
length_positive [] h = absurd (h refl)
length_positive (x ∷ b) h = ground arith

module _ (env to_env : Env) (pieces : Bytes → List Bytes) (failure : Option Error)
    (fits : to_env.chunk + 2048 < 2 ^ 32) (positive : 0 < to_env.chunk)
    (has_room : (k : ℕ) → 0 < to_env.room k)
    (nonce_bytes : (k : ℕ) (nonce : Bytes)
      → to_env.nonces k ≡ some nonce
      → length nonce ≡ to_env.gcm.nonce_size)
    (whole : (b : Bytes) → concat (pieces b) ≡ b) where
  arrived :
      (to : Node) (key content : Bytes) (n : ℕ)
      → Accepts to_env to.store key to.disk
      → key ≢ []
      → length key ≤ max_key_length
      → n < 2 ^ 63
      → n ≡ length content
      → (transfer env to_env pieces failure to key (content, n)).response ≡ some 1
      → read to_env to.store key (transfer env to_env pieces failure to key (content, n)).disk
        ≡ some (ok (content, n))
  unfolding transfer
  arrived to key content n a some_key short small same h =
      let (reads, _) =
        handle_incoming_stream-acknowledged to_env pieces fits positive has_room nonce_bytes whole
          to.store key content n failure to.disk a (length_positive key some_key) short small h in
      let all : take n content ≡ content = take_of_length-le n content (omega arith) in
      let size : min n (length content) ≡ n = omega arith in reads ∙ rw (all, size) refl

  -- A sender that is told of no error has its file at the receiver: the receiver had a slot for the
  -- request and its rate limiter let it in; it did not have the key and agreed to take it because
  -- someone waits for it or the session is right; and its store now reads under the key what the
  -- sender's store reads, of the same size. The key has at most 1024 bytes, the size fits an `int64`,
  -- the receiver's file system refuses no call for the key, the length of a chunk fits 32 bits, every
  -- read there is given room for a byte, the random source gives nonces of the right size, and the
  -- messages are JSON.
  pub exchange-received :
      (link : Link) (from : Node) (to : Receiver) (peer key session : Bytes) (c : Bytes × ℕ)
      → IsJson link.codec
      → Accepts to_env to.node.store key to.node.disk
      → length key ≤ max_key_length
      → c.1 < 2 ^ 63
      → read env from.store key from.disk ≡ some (ok c)
      → let (error, to') = exchange env to_env pieces failure link from to peer key session in
        error ≡ none
        → (to.limiter.held < to.limiter.max_concurrent)
          × ((allow link.now link.sender to.rate_limiter).1 ≡ true)
          × (has to_env to.node.store key to.node.disk ≡ false)
          × ((is_some (get key to.node.waiters) ≡ true)
              ⊎ (to.node.session_name ≡ [])
              ⊎ (session ≡ to.node.session_name))
          × (read to_env to'.store key to'.disk ≡ some (ok c))
  unfolding exchange store_file_to_peer
  exchange-received link from to peer key session c is_json a short small r h =
      let net = between env to_env pieces failure link to in
      let (content, size) = c in
      let whole_size : size ≡ length content = read_size env from.store key from.disk c r in
      let (agreed, sent, opened, answered) =
        after_negotiation-none env to_env pieces failure link from to peer key
          (negotiated (net.ask peer key session)) c r h in
      let (through, accepted) =
        ask_accepted env to_env pieces failure link is_json to peer key session
          (negotiated-success (net.ask peer key session) agreed) in
      let (some_key, welcome, fresh) =
        (handle_store_file_message_accepts to_env to.node
            (record { key = key; session = session })).0
          accepted in
      let reads = arrived to.node key content size a some_key short small whole_size answered in
      rw (store_file_to_peer, sent, opened) (through.free, through.allowed, fresh, welcome, reads)
