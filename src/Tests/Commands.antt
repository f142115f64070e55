-- ===== src/Tests/Commands.antt =====
-- The commands, on small data.
use p2p_storage.Base.{
  String, ◌<◌, ◌≡◌, ◌↔◌, refl, true, false, some, List, [], ◌∷◌, length, keep, ℕ_discrete,
  bytes_discrete, string_key, nat_key, bytes_key,
}
use p2p_storage.Base.Dict.{get}
use p2p_storage.Base.Bytes.{Bytes}
use p2p_storage.Base.Int.{pos}
use p2p_storage.Store.Disk.{exists_or_unknown}
use p2p_storage.Store.Files.{has}
use p2p_storage.FileServer.Seen.{see, make_room}
use p2p_storage.FileServer.Messages.{Node, GetFilePayload, process_get}
use p2p_storage.Command.Get.{Wake, started, progress, complete, get_loop, run_get, panics, writes}
use p2p_storage.Command.Get.Bars.{is_open}
use p2p_storage.Command.Daemon.{crashed, daemon_loop}
use p2p_storage.Command.Daemon.Crash.{told, process_get-crashed}
use p2p_storage.Tests.Data.{env, encrypted, empty_disk, name}

-- Two nodes start to send the file, and one of them finishes.
abbrev wakes : List Wake
wakes =
    started (some (name, pos 4))
    ∷ started (some (name, pos 4))
    ∷ progress (some (name, pos 4))
    ∷ complete (some (name, pos 4))
    ∷ []

one_open : length (keep is_open (get_loop name wakes []).0) ≡ 1
unfolding get_loop bytes_discrete ℕ_discrete
one_open = refl

short_key :
    run_get env (λ p. writes) encrypted empty_disk empty_disk true 1 [] name (some (1 ∷ []))
    ≡ panics
unfolding run_get
short_key = refl

-- Every text is one byte.
abbrev bytes : String → Bytes
bytes t = 109 ∷ []

abbrev daemon : Node
daemon = record {
  peers = [];
  waiters = [];
  session_name = [];
  seen = record { entries = []; max_size = 3; window = 60 };
  store = encrypted;
  disk = empty_disk;
}

abbrev request : GetFilePayload
request = record {
  key = name;
  msg_id = "m";
  ttl = pos 7;
  requester_id = 3 ∷ [];
  requester_addrs = (4 ∷ []) ∷ [];
}

seen_first : (see 50 "m" daemon.seen).1 ≡ true
unfolding see get make_room
seen_first = refl

absent : has env encrypted name empty_disk ≡ false
unfolding has exists_or_unknown get
absent = refl

process_get-crashed_example :
    ((daemon_loop bytes (told (process_get env (λ k n. 0) 50 (2 ∷ []) request daemon).1.events)).1
      ≡ crashed)
    ↔ (length (bytes request.msg_id) < 8)
process_get-crashed_example =
    process_get-crashed bytes env (λ k n. 0) 50 (2 ∷ []) request daemon seen_first absent
