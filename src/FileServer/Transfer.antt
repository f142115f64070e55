-- ===== src/FileServer/Transfer.antt =====
-- internal/fileserver/transfer.go: the stream that carries one file, as its sender writes it and as
-- its receiver reads it.
-- The stream below is the bytes that arrive and how reading ends behind them. The events that report
-- progress are not in what a transfer publishes.
pub mod RoundTrip
pub mod Progress
pub mod Pending
use p2p_storage.Base.{
  ℕ, zero, suc, ◌+◌, ◌-◌, ◌*◌, ◌/◌, ◌%◌, ◌^◌, ◌≤◌, ◌<◌, min, String, ◌≡◌, refl, sym, ap, ◌∙◌, ◌≢◌,
  ◌↔◌, ◌⊎◌, inl, inr, if_pos, if_neg, ite, Bool, true, false, not, ◌&&◌, ◌||◌, Option, none, some,
  List, [], ◌∷◌, ◌++◌, map, arith, dec_lt, dec_le, ℕ_discrete, ltb, leb, ◌==◌, if◌then◌else◌,
  ltb→lt, lt→ltb, leb→le, ==_iff, Bool-cases, Option-cases, length, get_elem?, set, take, drop,
  keep, any, length-append, take-append-drop, length-take, length-drop, take_of_length-le,
  take-append_length, drop-append_length, length-keep-le, keep-append, drop-add,
  take-append-drop-length, drop_of_length-le, string_discrete, Key, string_key, nat_key, bytes_key,
  bytes_discrete,
}
use p2p_storage.Base.Dict.{
  Dict, is_some, filter_value, get, put, remove, get-remove, get-put, get-remove_self,
  get-remove_ne, get-put_self, get-put_ne, length-remove-le, length-remove-lt, length-put-le, IsMap,
  remove-IsMap, put-IsMap, keep-IsMap, get-keep,
}
use p2p_storage.Base.Forall.{All, All-append, All-keep}
use p2p_storage.Base.Bytes.{Bytes, put_uint16, put_uint64, uint16, uint64}
use p2p_storage.Base.Int.{ℤ, pos, negsuc, to_ℕ}
use p2p_storage.Store.Encryption.{Error, eof, Result, ok, err, ◌>>=◌, read_full, Source}
use p2p_storage.Store.Disk.{Disk}
use p2p_storage.Store.Files.{Store, Env, write}

abbrev pub max_key_length : ℕ
max_key_length = 1024

-- `int64(v)` of a `uint64`
unfoldable pub int64 : ℕ → ℤ
int64 v = if ltb v (2 ^ 63) then pos v else negsuc (2 ^ 64 - v - 1)

-- `uint64(size)` of an `int64`
unfoldable pub to_uint64 : ℤ → ℕ
to_uint64 (pos n) = n % 2 ^ 64
to_uint64 (negsuc n) = (2 ^ 64 - suc n) % 2 ^ 64

-- What `SendFile` writes when no write fails: `uint16(len(keyBytes))` drops the high bits.
unfoldable pub send_file : Bytes → Bytes → ℤ → Bytes
send_file key content size =
    put_uint16 (length key % 2 ^ 16) ++ (key ++ (put_uint64 (to_uint64 size) ++ content))

-- What `SendFile` returns for the byte that the peer answered, if any.
pub data SendError : Type 0 where
  no_response transfer_failure : SendError

unfoldable pub response_error : Option ℕ → Option SendError
response_error none = some no_response
response_error (some b) = if b == 1 then none else some transfer_failure

pub record Stream : Type 0 where
  pub bytes : Bytes
  pub failure : Option Error

pub data Event : Type 0 where
  receive_started : Bytes → ℤ → Event
  receive_complete : Bytes → ℕ → Event
  receive_failed : Bytes → Error → Event

-- The key, the size and what follows.
pub record Header : Type 0 where
  pub key : Bytes
  pub file_size : ℤ
  pub body : Bytes

-- What a transfer leaves: the byte answered to the sender, the events, and what
-- `notifyTransferComplete` is called with.
pub record Outcome : Type 0 where
  pub disk : Disk
  pub response : Option ℕ
  pub events : List Event
  pub notified : Option (Bytes × Option Error)

-- The header, or none for a stream that is dropped without an answer.
abbrev to_option {ℓ} : {A : Type ℓ} → Result A → Option A
to_option (ok a) = some a
to_option (err e) = none

unfoldable pub read_header : Bytes → Option Header
read_header src = elim (read_full 2 src) [
  | err e ↦ none
  | ok (key_len_buf, rest) ↦
      let key_len = uint16 key_len_buf in
      if (key_len == 0) || ltb max_key_length key_len
      then none
      else to_option (do
        (key, rest1) ← read_full key_len rest
        (size_buf, rest2) ← read_full 8 rest1
        ok (record { key = key; file_size = int64 (uint64 size_buf); body = rest2 }))
]

-- `io.LimitReader(s, fileSize)`, as the store's copy reads it: no more than the size, and the
-- stream's own failure only if it is met before that. `pieces` is how the stream hands out bytes.
unfoldable pub limit_reader : (Bytes → List Bytes) → Option Error → Header → Source
limit_reader pieces failure h = record {
  pieces = pieces (take (to_ℕ h.file_size) h.body);
  failure = if ltb (length h.body) (to_ℕ h.file_size) then failure else none;
}

unfoldable pub after_write : Bytes → ℤ → Disk × Result ℕ → Outcome
after_write key size (d, ok written) = record {
  disk = d;
  response = some 1;
  events = receive_started key size ∷ receive_complete key written ∷ [];
  notified = some (key, none);
}
after_write key size (d, err e) = record {
  disk = d;
  response = some 0;
  events = receive_started key size ∷ receive_failed key e ∷ [];
  notified = some (key, some e);
}

module _ (env : Env) (pieces : Bytes → List Bytes) where
  unfoldable pub handle_incoming_stream : Store → Stream → Disk → Outcome
  handle_incoming_stream s stream d = elim (read_header stream.bytes) [
    | none ↦ record { disk = d; response = none; events = []; notified = none }
    | some h ↦
        after_write h.key h.file_size (write env s h.key (limit_reader pieces stream.failure h) d)
  ]
