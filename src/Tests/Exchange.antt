-- ===== src/Tests/Exchange.antt =====
-- A node that sends a file to another one, on small data.
use p2p_storage.Base.{
  ◌<◌, ◌≡◌, ◌≢◌, ◌↔◌, inr, refl, ◌⊎◌, true, false, none, some, List, [], ◌∷◌, arith, ℕ_discrete,
  string_key, nat_key, bytes_key, bytes_discrete,
}
use p2p_storage.Base.Dict.{is_some, get}
use p2p_storage.Base.Bytes.{Bytes}
use p2p_storage.Base.Int.{pos}
use p2p_storage.Store.Encryption.{ok}
use p2p_storage.Store.Encryption.CopyIn.{concat}
use p2p_storage.Store.Disk.{exists_or_unknown}
use p2p_storage.Store.Paths.{default_path_transform_func, get_file_path}
use p2p_storage.Store.Files.{read, has, file_path, get_absolute_path}
use p2p_storage.Store.Files.Contents.{read_plain}
use p2p_storage.FileServer.Messages.{Node, success, store_file_resp}
use p2p_storage.Middleware.Limiter.{new_limiter}
use p2p_storage.Middleware.RateLimit.{new_rate_limiter, allow}
use p2p_storage.FileServer.Exchange.{Receiver, between, exchange}
use p2p_storage.FileServer.Exchange.Arrival.{GetsThrough, exchange-received}
use p2p_storage.FileServer.Exchange.Success.{Takes, exchange_lem}
use p2p_storage.FileServer.Exchange.Get.{process_get-delivers}
use p2p_storage.Store.Files.Success.{IsSteady, HasGoodKey}
use p2p_storage.FileServer.Seen.{see, make_room}
use p2p_storage.FileServer.Messages.{GetFilePayload, process_get}
use p2p_storage.FileServer.Sending.{deliver_to_requester}
use p2p_storage.Tests.Data.{
  env, key, nonce, nonces-size, fits, positive, has_room, encrypted, empty_disk, one_file, name,
  plain, accepts, plain-Accepts,
}
use p2p_storage.Tests.Link.{link, codec-IsJson}
use mathlib.Core.List.{append-nil}

-- The stream hands out all that is there at once.
abbrev pieces : Bytes → List Bytes
pieces b = b ∷ []

pieces-whole : (b : Bytes) → concat (pieces b) ≡ b
unfolding concat
pieces-whole b = append-nil b

abbrev sender : Node
sender = record {
  peers = (2 ∷ []) ∷ [];
  waiters = [];
  session_name = [];
  seen = record { entries = []; max_size = 3; window = 60 };
  store = plain;
  disk = one_file;
}

-- In a session, and with nothing on its disk.
abbrev receiving : Node
receiving = record {
  peers = [];
  waiters = [];
  session_name = 5 ∷ [];
  seen = record { entries = []; max_size = 3; window = 60 };
  store = encrypted;
  disk = empty_disk;
}

stored : get (file_path plain name) one_file.files ≡ some (9 ∷ [])
unfolding get file_path get_absolute_path get_file_path default_path_transform_func bytes_discrete
    ℕ_discrete
stored = refl

reads : read env plain name one_file ≡ some (ok (9 ∷ [], 1))
reads = read_plain env plain name (9 ∷ []) one_file plain-Accepts refl stored

abbrev receiver : Receiver
receiver = record {
  node = receiving;
  rate_limiter = new_rate_limiter (pos 5) 1000 1000;
  limiter = new_limiter 2;
}

steady : IsSteady env
steady = record { nonces = λ k. (nonce, refl); writes = λ k. refl }

good_key : HasGoodKey env encrypted
good_key = inr (key, refl, refl)

name-is_some : name ≢ []
name-is_some e = cc e

absent : has env encrypted name empty_disk ≡ false
unfolding has exists_or_unknown get
absent = refl

allowed : (allow 7 "sender" (new_rate_limiter (pos 5) 1000 1000)).1 ≡ true
unfolding allow new_rate_limiter get
allowed = refl

through : GetsThrough link receiver name (5 ∷ []) (store_file_resp name success)
unfolding new_limiter
through = record {
  opens = refl;
  free = omega arith;
  allowed = allowed;
  request_fits = omega arith;
  response_fits = omega arith;
}

exchange_lem_example :
    ((exchange env env pieces none link sender receiver (2 ∷ []) name (5 ∷ [])).0 ≡ none) ↔ (
      GetsThrough link receiver name (5 ∷ []) (store_file_resp name success)
      × (link.opens_transfer ≡ true)
      × Takes env receiving name (5 ∷ []))
exchange_lem_example =
    exchange_lem env env pieces none steady link sender receiver (2 ∷ []) name (5 ∷ []) (9 ∷ [], 1)
      codec-IsJson accepts good_key (omega arith) (omega arith) reads

no_error : (exchange env env pieces none link sender receiver (2 ∷ []) name (5 ∷ [])).0 ≡ none
no_error =
    (exchange_lem env env pieces none steady link sender receiver (2 ∷ []) name (5 ∷ []) (9 ∷ [], 1)
        codec-IsJson accepts good_key (omega arith) (omega arith) reads).1
      (through, refl, (name-is_some, inr (inr refl), absent))

exchange-received_example :
    (receiver.limiter.held < receiver.limiter.max_concurrent)
    × ((allow 7 "sender" receiver.rate_limiter).1 ≡ true)
    × (has env encrypted name empty_disk ≡ false)
    × ((is_some (get name receiving.waiters) ≡ true)
        ⊎ (receiving.session_name ≡ [])
        ⊎ (5 ∷ [] ≡ receiving.session_name))
    × (let to' = (exchange env env pieces none link sender receiver (2 ∷ []) name (5 ∷ [])).1 in
        read env to'.store name to'.disk ≡ some (ok (9 ∷ [], 1)))
exchange-received_example =
    exchange-received env env pieces none fits positive has_room nonces-size pieces-whole link
      sender receiver (2 ∷ []) name (5 ∷ []) (9 ∷ [], 1) codec-IsJson accepts (omega arith)
      (omega arith) reads no_error

-- Waits for the file that the sender has.
abbrev requesting : Node
requesting = record receiving { waiters = (name, 0 ∷ []) ∷ [] }

abbrev requester : Receiver
requester = record receiver { node = requesting }

abbrev to_deliver : GetFilePayload
to_deliver = record {
  key = name;
  msg_id = "m";
  ttl = pos 7;
  requester_id = 3 ∷ [];
  requester_addrs = (4 ∷ []) ∷ [];
}

seen_first : (see 50 "m" sender.seen).1 ≡ true
unfolding see get make_room
seen_first = refl

waits : is_some (get name requesting.waiters) ≡ true
unfolding get bytes_discrete ℕ_discrete
waits = refl

goes_through : GetsThrough link requester name [] (store_file_resp name success)
unfolding new_limiter
goes_through = record {
  opens = refl;
  free = omega arith;
  allowed = allowed;
  request_fits = omega arith;
  response_fits = omega arith;
}

process_get-delivers_example :
    let (n', actions) = process_get env (λ k n. 0) 50 (2 ∷ []) to_deliver sender in
    let to' = (exchange env env pieces none link n' requester (3 ∷ []) name []).1 in
    (actions.deliver ≡ some to_deliver)
    × (actions.forward ≡ [])
    × (deliver_to_requester env (between env env pieces none link requester) n' to_deliver ≡ true)
    × (read env to'.store name to'.disk ≡ some (ok (9 ∷ [], 1)))
process_get-delivers_example =
    process_get-delivers env env pieces none link fits positive has_room nonces-size pieces-whole
      steady codec-IsJson (λ k n. 0) 50 (2 ∷ []) to_deliver sender requester (3 ∷ []) (9 ∷ [], 1)
      seen_first reads waits absent refl refl refl goes_through refl name-is_some (omega arith)
      (omega arith) accepts good_key
