-- ===== src/Tests/Operations.antt =====
-- pkg/operations on small data.
use p2p_storage.Base.{
  ℕ, ◌≡◌, refl, ◌↔◌, ◌⊎◌, inr, true, Option, none, some, [], ◌∷◌, ℕ_discrete, ◌==◌, length,
  string_key, nat_key, bytes_key, bytes_discrete,
}
use p2p_storage.Base.Dict.{get, put, remove}
use p2p_storage.Base.Bytes.{Bytes}
use p2p_storage.Store.Encryption.{ok, Error, Source}
use p2p_storage.Store.Encryption.CopyIn.{concat}
use p2p_storage.Store.Disk.{
  exists_or_unknown, mkdir_fails, mkdir_all, create_fails, create, file_on_way, add_dirs, parent,
  open_file,
}
use p2p_storage.Store.Paths.{default_path_transform_func, get_file_path, split, join}
use p2p_storage.Store.Files.{
  write, write_raw, write_through, copy, read, read_stream, has, file_path, get_absolute_path,
}
use p2p_storage.Store.Files.Contents.{Accepts}
use p2p_storage.FileServer.Messages.{Node, success}
use p2p_storage.FileServer.Transfer.{Stream, handle_incoming_stream}
use p2p_storage.FileServer.Sending.{
  Net, ack, store_file, store_file_to_peer, store_file_to_peer_direct,
}
use p2p_storage.Operations.{
  Local, file, get_file_key, generate_file_key, hex_encode, store_locally, SendResult, send_file,
  complete, received, not_received, wait_for_get,
}
use p2p_storage.Operations.Storing.{store_locally-stored}
use p2p_storage.Operations.Sending.{send_file-sent}
use p2p_storage.Operations.Waiting.{wakes, wait_for_get-handle_incoming_stream}
use p2p_storage.Tests.Data.{env, nonces-size, fits, positive, has_room, empty_disk, plain}

-- A file of one byte, and a hash that is the content itself.
abbrev source : Source
source = record { pieces = (9 ∷ []) ∷ []; failure = none }

abbrev local : Local
local = record { stat = λ p. file; open_file = λ p. ok source; sha256 = λ b. b }

abbrev net : Net
net = record {
  ask = λ p k s. ack success;
  send_file = λ p k c n. true;
  is_direct_connection = λ p. true;
  connect_with_hole_punch = λ a. true;
  decode = λ b. some b;
}

-- "09"
abbrev key : Bytes
key = 48 ∷ 57 ∷ []

accepts : Accepts env plain key empty_disk
unfolding mkdir_fails create_fails file_on_way mkdir_all add_dirs parent split join get put remove
    bytes_discrete ℕ_discrete file_path get_absolute_path get_file_path default_path_transform_func
accepts = record { stat = refl; open_file = refl; create = refl; mkdir = refl; remove_file = refl }

abbrev alone : Node
alone = record {
  peers = [];
  waiters = [];
  session_name = [];
  seen = record { entries = []; max_size = 3; window = 60 };
  store = plain;
  disk = empty_disk;
}

abbrev connected : Node
connected = record alone { peers = (2 ∷ []) ∷ [] }

has_key : get_file_key local (112 ∷ []) ≡ inr key
unfolding get_file_key generate_file_key hex_encode concat
has_key = refl

stores : (store_locally local env net alone (112 ∷ [])).1 ≡ inr key
unfolding store_locally get_file_key generate_file_key hex_encode concat store_file has
    exists_or_unknown get bytes_discrete ℕ_discrete write write_raw copy write_through mkdir_all
    create mkdir_fails create_fails file_on_way add_dirs parent split join put remove file_path
    get_absolute_path get_file_path default_path_transform_func
stores = refl

store_locally-stored_example :
    (src : Source) × (local.open_file (112 ∷ []) ≡ ok src)
    × (key ≡ hex_encode (local.sha256 (concat src.pieces)))
    × ((has env plain key empty_disk ≡ true)
        ⊎ (let n' = (store_locally local env net alone (112 ∷ [])).0 in
            read env n'.store key n'.disk
            ≡ some (ok (concat src.pieces, length (concat src.pieces)))))
store_locally-stored_example =
    store_locally-stored local env net fits positive has_room nonces-size alone (112 ∷ []) key
      stores accepts

abbrev peer_at : Bytes → Option Bytes
peer_at addr = some (2 ∷ [])

abbrev result : SendResult
result = record { key = key; peer = 2 ∷ [] }

sends : (send_file local env net peer_at alone (112 ∷ []) (3 ∷ []) (4 ∷ [])).1 ≡ inr result
unfolding send_file get_file_key generate_file_key hex_encode concat store_file has
    exists_or_unknown get put remove bytes_discrete ℕ_discrete write write_raw copy write_through
    mkdir_all create mkdir_fails create_fails file_on_way add_dirs parent split join
    store_file_to_peer_direct store_file_to_peer read read_stream open_file file_path
    get_absolute_path get_file_path default_path_transform_func
sends = refl

send_file-sent_example :
    let n' = (send_file local env net peer_at alone (112 ∷ []) (3 ∷ []) (4 ∷ [])).0 in
    (get_file_key local (112 ∷ []) ≡ inr key)
    × (peer_at (3 ∷ []) ≡ some (2 ∷ []))
    × (net.is_direct_connection (2 ∷ []) ≡ true)
    × (net.ask (2 ∷ []) key (4 ∷ []) ≡ ack success)
    × ((c : Bytes × ℕ) × (read env n'.store key n'.disk ≡ some (ok c))
        × (net.send_file (2 ∷ []) key c.0 c.1 ≡ true))
    × ((has env plain key empty_disk ≡ true) ⊎ ((length alone.peers == 0) ≡ true))
send_file-sent_example =
    send_file-sent local env net peer_at alone (112 ∷ []) (3 ∷ []) (4 ∷ []) result sends

-- A transfer of one byte under the key, behind an event of another key.
abbrev stream : Stream
stream = record { bytes = 0 ∷ 2 ∷ 48 ∷ 57 ∷ 0 ∷ 0 ∷ 0 ∷ 0 ∷ 0 ∷ 0 ∷ 0 ∷ 1 ∷ 9 ∷ []; failure = none }

wait_for_get-handle_incoming_stream_example :
    let o = handle_incoming_stream env (λ b. b ∷ []) plain stream empty_disk in
    let result = wait_for_get key (complete (some (1 ∷ [])) ∷ wakes o.events) in
    ((result ≡ received key) ↔ (o.notified ≡ some (key, none)))
    × ((e : Error) → (result ≡ not_received e) ↔ (o.notified ≡ some (key, some e)))
wait_for_get-handle_incoming_stream_example =
    wait_for_get-handle_incoming_stream env (λ b. b ∷ []) key (complete (some (1 ∷ [])) ∷ []) plain
      stream empty_disk ((λ e. absurd (cc e)), tt)
