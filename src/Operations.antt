-- ===== src/Operations.antt =====
-- pkg/operations: what the command line asks a node for. `GetFileKey` of filekey.go, which calls
-- `GenerateFileKey` of internal/store/store.go, `StoreLocally` of store.go, `SendFile` of send.go and
-- `WaitForGet` of get.go.
pub mod Storing
pub mod Waiting
pub mod Sending
use p2p_storage.Base.{
  ℕ, zero, suc, ◌+◌, ◌-◌, ◌*◌, ◌/◌, ◌%◌, ◌^◌, ◌≤◌, ◌<◌, min, String, ◌≡◌, refl, sym, ap, ◌∙◌, ◌≢◌,
  ◌↔◌, ◌⊎◌, inl, inr, if_pos, if_neg, ite, Bool, true, false, not, ◌&&◌, ◌||◌, Option, none, some,
  List, [], ◌∷◌, ◌++◌, map, arith, dec_lt, dec_le, ℕ_discrete, ltb, leb, ◌==◌, if◌then◌else◌,
  ltb→lt, lt→ltb, leb→le, ==_iff, Bool-cases, Option-cases, length, get_elem?, set, take, drop,
  keep, any, length-append, take-append-drop, length-take, length-drop, take_of_length-le,
  take-append_length, drop-append_length, length-keep-le, keep-append, drop-add,
  take-append-drop-length, drop_of_length-le, string_discrete, Key, string_key, nat_key, bytes_key,
  bytes_discrete,
}
use p2p_storage.Base.Dict.{
  Dict, is_some, filter_value, get, put, remove, get-remove, get-put, get-remove_self,
  get-remove_ne, get-put_self, get-put_ne, length-remove-le, length-remove-lt, length-put-le, IsMap,
  remove-IsMap, put-IsMap, keep-IsMap, get-keep,
}
use p2p_storage.Base.Forall.{All, All-append, All-keep}
use p2p_storage.Base.Bytes.{Bytes}
use p2p_storage.Base.Int.{ℤ, pos}
use p2p_storage.Store.Encryption.{Error, Result, ok, err, Source}
use p2p_storage.Store.Encryption.CopyIn.{concat}
use p2p_storage.Store.Disk.{Disk}
use p2p_storage.Store.Files.{Store, Env, has}
use p2p_storage.FileServer.Messages.{Node}
use p2p_storage.FileServer.Sending.{
  Net, PeerError, relayed_connection, NetworkResult, stored_to, store_file,
  store_file_to_peer_direct,
}

-- What `os.Stat` tells of a path.
pub data Stat : Type 0 where
  missing stat_failed directory file : Stat

-- The files of the user, outside the store: what `os.Stat` and `os.Open` give. `sha256` is the hash,
-- of `crypto/sha256`.
pub record Local : Type 0 where
  pub stat : Bytes → Stat
  pub open_file : Bytes → Result Source
  pub sha256 : Bytes → Bytes

pub data KeyError : Type 0 where
  does_not_exist not_examined is_directory : KeyError
  not_hashed : Error → KeyError

-- A digit of `hex.EncodeToString`
abbrev pub hex_digit : ℕ → ℕ
hex_digit n = if ltb n 10 then 48 + n else 87 + n

unfoldable pub hex_encode : Bytes → Bytes
hex_encode [] = []
hex_encode (b ∷ bs) = hex_digit (b / 16) ∷ hex_digit (b % 16) ∷ hex_encode bs

pub data OperationError : Type 0 where
  key_failed : KeyError → OperationError
  store_failed : NetworkResult → OperationError
  connect_failed : OperationError
  no_direct_connection : OperationError
  send_failed : PeerError → OperationError

-- `StoreResult` and `SendResult`, or the error.
abbrev pub StoreOutcome : Type 0
StoreOutcome = OperationError ⊎ Bytes

pub record SendResult : Type 0 where
  pub key : Bytes
  pub peer : Bytes

abbrev pub SendOutcome : Type 0
SendOutcome = OperationError ⊎ SendResult

-- What `WaitForGet` wakes up for: the end of the context, and the events. An event of a channel that
-- was closed has no data.
pub data Wake : Type 0 where
  cancelled : Wake
  complete : Option Bytes → Wake
  failure : Option (Bytes × Error) → Wake

pub data Waited : Type 0 where
  received : Bytes → Waited
  not_received : Error → Waited
  timed_out : Waited
  waiting : Waited

-- The loop of `WaitForGet`, over what comes, in order.
unfoldable pub wait_for_get : Bytes → List Wake → Waited
wait_for_get key [] = waiting
wait_for_get key (cancelled ∷ w) = timed_out
wait_for_get key (complete none ∷ w) = wait_for_get key w
wait_for_get key (complete (some k) ∷ w) =
    let rest = wait_for_get key w in ite (bytes_discrete k key) (received k) rest
wait_for_get key (failure none ∷ w) = wait_for_get key w
wait_for_get key (failure (some (k, e)) ∷ w) =
    let rest = wait_for_get key w in ite (bytes_discrete k key) (not_received e) rest

-- `WaitForPeers`: how many peers are connected at each tick before the deadline, and at the end.
unfoldable pub wait_for_peers : List ℕ → ℕ → ℕ
wait_for_peers [] at_end = at_end
wait_for_peers (count ∷ counts) at_end =
    let rest = wait_for_peers counts at_end in if ltb 0 count then count else rest

module _ (local : Local) where
  abbrev pub hashed : Result Source → Result Bytes
  hashed (err e) = err e
  hashed (ok src) = elim src.failure [
    | none ↦ ok (hex_encode (local.sha256 (concat src.pieces)))
    | some e ↦ err e
  ]

  unfoldable pub generate_file_key : Bytes → Result Bytes
  generate_file_key path = hashed (local.open_file path)

  abbrev pub key_of : Result Bytes → KeyError ⊎ Bytes
  key_of (ok key) = inr key
  key_of (err e) = inl (not_hashed e)

  abbrev pub key_if : Stat → Bytes → KeyError ⊎ Bytes
  key_if missing path = inl does_not_exist
  key_if stat_failed path = inl not_examined
  key_if directory path = inl is_directory
  key_if file path = key_of (generate_file_key path)

  unfoldable pub get_file_key : Bytes → KeyError ⊎ Bytes
  get_file_key path = key_if (local.stat path) path

  module _ (env : Env) (net : Net) where
    -- `StoreFile` with the replication factor 0
    abbrev pub answered : Bytes → Node × NetworkResult → Node × StoreOutcome
    answered key (n, stored_to k) = (n, inr key)
    answered key (n, r) = (n, inl (store_failed r))

    abbrev pub store_key : Node → Bytes → KeyError ⊎ Bytes → Node × StoreOutcome
    store_key n path (inl e) = (n, inl (key_failed e))
    store_key n path (inr key) =
        answered key (store_file env net n key (local.open_file path) (pos 0))

    -- `StoreLocally` looks at the file as `GetFileKey` does before it calls it.
    unfoldable pub store_locally : Node → Bytes → Node × StoreOutcome
    store_locally n path = store_key n path (get_file_key path)

    abbrev send_error : PeerError → OperationError
    send_error relayed_connection = no_direct_connection
    send_error e = send_failed e

    abbrev pub send_result : Bytes → Bytes → Option PeerError → SendOutcome
    send_result key peer none = inr (record { key = key; peer = peer })
    send_result key peer (some e) = inl (send_error e)

    -- `connect` is `ConnectWithHolePunch`.
    abbrev pub send_connected : Node → Bytes → Bytes → Option Bytes → Node × SendOutcome
    send_connected n key session none = (n, inl connect_failed)
    send_connected n key session (some peer) =
        (n, send_result key peer (store_file_to_peer_direct env net n peer key session).error)

    abbrev pub after_store : Bytes → Bytes → Option Bytes → Node × StoreOutcome → Node × SendOutcome
    after_store key session peer (n, inr k) = send_connected n key session peer
    after_store key session peer (n, inl e) = (n, inl e)

    abbrev pub send_key :
        (Bytes → Option Bytes)
        → Node
        → Bytes
        → Bytes
        → Bytes
        → KeyError ⊎ Bytes
        → Node × SendOutcome
    send_key connect n path addr session (inl e) = (n, inl (key_failed e))
    send_key connect n path addr session (inr key) =
        if has env n.store key n.disk
        then send_connected n key session (connect addr)
        else after_store key session (connect addr) (store_key n path (inr key))

    unfoldable pub send_file :
        (Bytes → Option Bytes) → Node → Bytes → Bytes → Bytes → Node × SendOutcome
    send_file connect n path addr session = send_key connect n path addr session (get_file_key path)
