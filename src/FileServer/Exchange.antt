-- ===== src/FileServer/Exchange.antt =====
-- A node that sends a file to another one: `StoreFileToPeer` of internal/fileserver/fileserver.go at
-- the sender; `handleStream` of internal/protocol/protocol.go, the rate limiter in front of
-- `handleStoreFileMessage`, and `handleIncomingStream` of internal/fileserver/transfer.go at the
-- receiver, in one run.
pub mod Arrival
pub mod Success
pub mod Get
use p2p_storage.Base.{
  ℕ, String, ◌⊎◌, inl, inr, Bool, not, ◌&&◌, Option, none, some, List, if◌then◌else◌, bytes_key,
}
use p2p_storage.Base.Dict.{is_some}
use p2p_storage.Base.Bytes.{Bytes}
use p2p_storage.Base.Int.{ℤ, pos}
use p2p_storage.Store.Encryption.{Error}
use p2p_storage.Store.Files.{Env}
use p2p_storage.Middleware.Limiter.{Limiter}
use p2p_storage.Middleware.RateLimit.{RateLimiter, Wrapped, handled, rate_limit_exceeded, wrap}
use p2p_storage.Protocol as Protocol
use p2p_storage.Protocol.{Codec, Handled, handler_error, reply}
use p2p_storage.FileServer.Messages.{
  success, invalid_msg, unknown_type, Node, Response, store_file_resp, StoreFilePayload,
  handle_store_file_message,
}
use p2p_storage.FileServer.Transfer.{send_file, response_error, Outcome, handle_incoming_stream}
use p2p_storage.FileServer.Sending.{
  Net, Reply, send_failed, undecodable, ack, PeerError, store_file_to_peer,
}

-- The messages of a negotiation, as they travel.
pub data Wire : Type 0 where
  request : StoreFilePayload → Wire
  response : Response → Wire

-- What lies between the two nodes: the JSON of the messages, their largest size, the receiver's clock
-- when the request is handled, the id under which it knows the sender, whether `NewStream` succeeds
-- for the request and for the transfer, and what libp2p says of connections and ids.
pub record Link : Type 0 where
  pub codec : Codec Wire
  pub max_message_size : ℤ
  pub now : ℕ
  pub sender : String
  pub opens : Bool
  pub opens_transfer : Bool
  pub is_direct_connection : Bytes → Bool
  pub connect_with_hole_punch : Bytes → Bool
  pub decode : Bytes → Option Bytes

-- The node that receives, with what stands before its handler.
pub record Receiver : Type 0 where
  pub node : Node
  pub rate_limiter : RateLimiter
  pub limiter : Limiter

-- The answer as the sender decodes it: an error message has no status that it knows.
abbrev pub answer : Response → Reply
answer (Response.error s) = ack invalid_msg
answer (store_file_resp key s) = ack s

abbrev pub reply_of : Protocol.SendError ⊎ Wire → Reply
reply_of (inl e) = send_failed
reply_of (inr (request p)) = undecodable
reply_of (inr (response r)) = answer r

-- What `Handle` returns behind the rate limiter.
abbrev pub handled_as : Wrapped Response → Handled Wire
handled_as (handled r) = reply (response r)
handled_as rate_limit_exceeded = handler_error

-- `env` and `to_env` are what the two nodes run on, `pieces` is how the stream hands out bytes, and
-- `failure` is the error that the receiver meets at the end of the stream, if it gets there.
module _ (env to_env : Env) (pieces : Bytes → List Bytes) (failure : Option Error) where
  -- What the receiver makes of the bytes of a transfer.
  unfoldable pub transfer : Node → Bytes → Bytes × ℕ → Outcome
  transfer to key (content, size) =
      handle_incoming_stream to_env pieces to.store
        (record { bytes = send_file key content (pos size); failure = failure }) to.disk

  module _ (link : Link) where
    -- `handleMessage` at a request to store: it leaves the node as it is.
    abbrev pub store_handler : String → Wire → Node → Node × Response
    store_handler id (request p) n = (n, handle_store_file_message to_env n (some p))
    store_handler id (response r) n = (n, Response.error unknown_type)

    -- The handler of the receiver's streams, with the rate limiter. What the limiter notes of the
    -- request is not followed further.
    unfoldable pub handler : Receiver → Wire → Handled Wire
    handler to m =
        let (_, _, w) = wrap store_handler link.now link.sender m to.rate_limiter to.node in
        handled_as w

    -- The network between a sender and the node that it sends to.
    unfoldable pub between : Receiver → Net
    between to = record {
      ask = λ peer key session.
          let m = request (record { key = key; session = session }) in
          reply_of
            (Protocol.send link.codec link.max_message_size link.opens (handler to) to.limiter m).1;
      send_file = λ peer key content size.
          link.opens_transfer
          && not (is_some (response_error (transfer to.node key (content, size)).response));
      is_direct_connection = link.is_direct_connection;
      connect_with_hole_punch = link.connect_with_hole_punch;
      decode = link.decode;
    }

    abbrev after_transfer : Node → Bytes → Option (Bytes × ℕ) → Node
    after_transfer to key none = to
    after_transfer to key (some c) =
        if link.opens_transfer then record to { disk = (transfer to key c).disk } else to

    -- What the sender is told, and the receiving node as it is afterwards.
    unfoldable pub exchange : Node → Receiver → Bytes → Bytes → Bytes → Option PeerError × Node
    exchange from to peer key session =
        let s = store_file_to_peer env (between to) from peer key session in
        (s.error, after_transfer to.node key s.sent)
