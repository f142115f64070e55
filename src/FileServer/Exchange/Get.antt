-- ===== src/FileServer/Exchange/Get.antt =====
-- A GET_FILE request at a node that has the file: `processGet` and `deliverToRequester` there, with
-- what the requester does.
use p2p_storage.Base.{
  ℕ, ◌+◌, ◌^◌, ◌≤◌, ◌<◌, ◌≡◌, refl, ◌≢◌, inl, inr, true, false, Option, none, some, List, [], ◌∷◌,
  Bool-cases, length, any, string_key, nat_key, bytes_key,
}
use p2p_storage.Base.Dict.{is_some, get}
use p2p_storage.Base.Bytes.{Bytes}
use p2p_storage.Store.Encryption.{Error, ok}
use p2p_storage.Store.Encryption.CopyIn.{concat}
use p2p_storage.Store.Files.{Env, Store, has, read}
use p2p_storage.Store.Disk.{Disk}
use p2p_storage.Store.Files.Contents.{Accepts}
use p2p_storage.Store.Files.Success.{IsSteady, HasGoodKey}
use p2p_storage.FileServer.Seen.{see}
use p2p_storage.FileServer.Messages.{
  success, Node, GetFilePayload, store_file_resp, get_delivering, process_get,
}
use p2p_storage.FileServer.Transfer.{max_key_length}
use p2p_storage.FileServer.Sending.{store_file_to_peer_direct, deliver_to_requester}
use p2p_storage.FileServer.Exchange.{Link, Receiver, between, exchange}
use p2p_storage.FileServer.Exchange.Arrival.{IsJson, GetsThrough, exchange-received}
use p2p_storage.FileServer.Exchange.Success.{exchange_lem}

read-has :
    (env : Env) (s : Store) (key : Bytes) (d : Disk) (c : Bytes × ℕ)
    → read env s key d ≡ some (ok c)
    → has env s key d ≡ true
unfolding read
read-has env s key d c h = elim (Bool-cases (has env s key d)) [
  | inl e ↦ e
  | inr e ↦ absurd (cc (rw e at h))
]

process_get_holder :
    (env : Env) (intn : ℕ → ℕ → ℕ) (now : ℕ) (sender : Bytes) (p : GetFilePayload) (n : Node)
    → (see now p.msg_id n.seen).1 ≡ true
    → has env n.store p.key n.disk ≡ true
    → process_get env intn now sender p n ≡ (
      record n { seen = (see now p.msg_id n.seen).0 },
      record {
        events = get_delivering p.msg_id p.key p.requester_id ∷ [];
        deliver = some p;
        forward = [];
      },
    )
unfolding process_get
process_get_holder env intn now sender p n e f = rw (e, f) refl

module _ (env to_env : Env) (pieces : Bytes → List Bytes) (failure : Option Error)
    (link : Link) where
  delivers :
      (n : Node) (to : Receiver) (p : GetFilePayload) (requester : Bytes)
      → link.decode p.requester_id ≡ some requester
      → any link.connect_with_hole_punch p.requester_addrs ≡ true
      → link.is_direct_connection requester ≡ true
      → (exchange env to_env pieces failure link n to requester p.key []).0 ≡ none
      → deliver_to_requester env (between env to_env pieces failure link to) n p ≡ true
  unfolding deliver_to_requester between store_file_to_peer_direct exchange
  delivers n to p requester id connects direct h = rw (id, connects, direct, h) refl

  module _ (fits : to_env.chunk + 2048 < 2 ^ 32) (positive : 0 < to_env.chunk)
      (has_room : (k : ℕ) → 0 < to_env.room k)
      (nonce_bytes : (k : ℕ) (nonce : Bytes)
        → to_env.nonces k ≡ some nonce
        → length nonce ≡ to_env.gcm.nonce_size)
      (whole : (b : Bytes) → concat (pieces b) ≡ b) (steady : IsSteady to_env)
      (is_json : IsJson link.codec) where
    -- A request that reaches a node for the first time, for a file that the node can read, is not
    -- forwarded but delivered: the node reports the delivery, and the requester's store then reads
    -- what the node's store reads. The requester waits for the key and does not have it; its session
    -- does not matter. Its id decodes, one of its addresses can be connected to, and the connection is
    -- then a direct one. The request to store and the yes get through: the stream opens, the requester
    -- has a slot, its rate limiter lets the node in, and neither message is too large; the stream of
    -- the transfer opens. The key has 1 to 1024 bytes, the size fits an `int64`, the messages are
    -- JSON, and at the requester nothing fails: the file system refuses no call for the key, the random
    -- source gives nonces of the right size, no write fails, the encryption key is one of the cipher,
    -- the length of a chunk fits 32 bits, and every read is given room for a byte.
    pub process_get-delivers :
        (intn : ℕ → ℕ → ℕ) (now : ℕ) (sender : Bytes) (p : GetFilePayload) (n : Node)
        (to : Receiver) (requester : Bytes) (c : Bytes × ℕ)
        → (see now p.msg_id n.seen).1 ≡ true
        → read env n.store p.key n.disk ≡ some (ok c)
        → is_some (get p.key to.node.waiters) ≡ true
        → has to_env to.node.store p.key to.node.disk ≡ false
        → link.decode p.requester_id ≡ some requester
        → any link.connect_with_hole_punch p.requester_addrs ≡ true
        → link.is_direct_connection requester ≡ true
        → GetsThrough link to p.key [] (store_file_resp p.key success)
        → link.opens_transfer ≡ true
        → p.key ≢ []
        → length p.key ≤ max_key_length
        → c.1 < 2 ^ 63
        → Accepts to_env to.node.store p.key to.node.disk
        → HasGoodKey to_env to.node.store
        → let (n', actions) = process_get env intn now sender p n in
          let to' = (exchange env to_env pieces failure link n' to requester p.key []).1 in
          (actions.deliver ≡ some p)
          × (actions.forward ≡ [])
          × (deliver_to_requester env (between env to_env pieces failure link to) n' p ≡ true)
          × (read to_env to'.store p.key to'.disk ≡ some (ok c))
    process_get-delivers intn now sender p n to requester c new r waits fresh id connects direct
          through opened some_key short small a good =
        let n' : Node = record n { seen = (see now p.msg_id n.seen).0 } in
        let done =
          (exchange_lem env to_env pieces failure steady link n' to requester p.key [] c is_json a
              good short small r).1
            (through, opened, (some_key, inl waits, fresh)) in
        let (_, _, _, _, arrives) =
          exchange-received env to_env pieces failure fits positive has_room nonce_bytes whole link
            n' to requester p.key [] c is_json a short small r done in
        rw (process_get_holder env intn now sender p n new (read-has env n.store p.key n.disk c r))
          (refl, refl, delivers n' to p requester id connects direct done, arrives)
