-- ===== src/Command/Get.antt =====
-- `runGet` of cmd/node/main.go, with `WriteFileTo` of internal/fileserver/fileserver.go. The progress
-- bars are those of a library: the model has the calls that each of them gets.
pub mod Bars
use p2p_storage.Base.{
  ℕ, ◌+◌, ite, Bool, true, false, Option, none, some, List, [], ◌∷◌, ◌++◌, ltb, if◌then◌else◌, ◌==◌,
  length, take, any, bytes_key, bytes_discrete,
}
use p2p_storage.Base.Bytes.{Bytes}
use p2p_storage.Base.Int.{ℤ}
use p2p_storage.Store.Encryption.{Error, Result, ok, err}
use p2p_storage.Store.Disk.{Disk}
use p2p_storage.Store.Files.{Env, Store, has, read}

-- What a bar is told.
pub data BarCall : Type 0 where
  set_current : ℤ → BarCall
  set_total : ℤ → BarCall
  abort : BarCall

-- The total a bar starts with, and the calls, the last one first. `set_total` is SetTotal with the
-- request to complete the bar; what the bar makes of the calls is the library's.
pub record Bar : Type 0 where
  pub total : ℤ
  pub calls : List BarCall

-- What the loop wakes up for. An event of a channel that was closed has no data.
pub data Wake : Type 0 where
  cancelled : Wake
  started : Option (Bytes × ℤ) → Wake
  progress : Option (Bytes × ℤ) → Wake
  complete : Option (Bytes × ℤ) → Wake
  failure : Option (Bytes × Error) → Wake

-- Why the loop ends, if it does.
pub data Ended : Type 0 where
  received : Ended
  not_received : Error → Ended
  interrupted : Ended
  waiting : Ended

abbrev pub is_key : Bytes → Bytes → Bool
is_key key k = ite (bytes_discrete k key) true false

-- `if bar != nil`: the bar that was added last, at the head of the list, is told something.
abbrev pub tell : List BarCall → List Bar → List Bar
tell calls [] = []
tell calls (b ∷ bars) = record b { calls = calls ++ b.calls } ∷ bars

-- The loop over what comes, in order, with the bars so far.
unfoldable pub get_loop : Bytes → List Wake → List Bar → List Bar × Ended
get_loop key [] bars = (bars, waiting)
get_loop key (cancelled ∷ w) bars = (bars, interrupted)
get_loop key (started none ∷ w) bars = get_loop key w bars
get_loop key (started (some (k, size)) ∷ w) bars =
    get_loop key w (if is_key key k then record { total = size; calls = [] } ∷ bars else bars)
get_loop key (progress none ∷ w) bars = get_loop key w bars
get_loop key (progress (some (k, n)) ∷ w) bars =
    get_loop key w (if is_key key k then tell (set_current n ∷ []) bars else bars)
get_loop key (complete none ∷ w) bars = get_loop key w bars
get_loop key (complete (some (k, size)) ∷ w) bars =
    let rest = get_loop key w bars in
    if is_key key k then (tell (set_total size ∷ set_current size ∷ []) bars, received) else rest
get_loop key (failure none ∷ w) bars = get_loop key w bars
get_loop key (failure (some (k, e)) ∷ w) bars =
    let rest = get_loop key w bars in
    if is_key key k then (tell (abort ∷ []) bars, not_received e) else rest

pub data SaveError : Type 0 where
  not_read not_created not_copied : SaveError

-- The file that is written, by its path, and its content.
pub data Saved : Type 0 where
  saved : Bytes → Bytes → Saved
  not_saved : SaveError → Saved

-- What the system makes of a file outside the store.
pub data Output : Type 0 where
  writes create_fails write_fails : Output

abbrev written_out : Output → Bytes → Bytes → Saved
written_out writes path content = saved path content
written_out create_fails path content = not_saved not_created
written_out write_fails path content = not_saved not_copied

module _ (env : Env) (output : Bytes → Output) where
  abbrev copied_out : Bytes → Option (Result (Bytes × ℕ)) → Saved
  copied_out path none = not_saved not_read
  copied_out path (some (err e)) = not_saved not_read
  copied_out path (some (ok (content, size))) = written_out (output path) path content

  -- An error of the decryption, which the code meets while it copies, counts as one of the read.
  unfoldable pub write_file_to : Store → Disk → Bytes → Bytes → Saved
  write_file_to s d key path = copied_out path (read env s key d)

  pub data GetOutcome : Type 0 where
    panics server_failed no_peers get_interrupted still_waiting : GetOutcome
    get_failed : Error → GetOutcome
    done : Saved → GetOutcome

  abbrev ended : Store → Disk → Bytes → Bytes → Ended → GetOutcome
  ended s d key path received = done (write_file_to s d key path)
  ended s d key path (not_received e) = get_failed e
  ended s d key path interrupted = get_interrupted
  ended s d key path waiting = still_waiting

  -- ".dat"
  abbrev dat : Bytes
  dat = 46 ∷ 100 ∷ 97 ∷ 116 ∷ []

  abbrev output_path : Bytes → Option Bytes → Bytes
  output_path key none = take 16 key ++ dat
  output_path key (some path) = path

  -- The command with a key and a path, if one is given. `server` tells whether the server starts,
  -- `peers` is how many peers there are after the wait, `wakes` is what comes, and `later` is the disk
  -- when it has come. The name of the output is cut from the key also if a path is given.
  unfoldable pub run_get :
      Store → Disk → Disk → Bool → ℕ → List Wake → Bytes → Option Bytes → GetOutcome
  run_get s d later server peers wakes key out =
      let path = output_path key out in
      let loop = get_loop key wakes [] in
      if ltb (length key) 16
      then panics
      else (if server
          then (if has env s key d
              then done (write_file_to s d key path)
              else (if peers == 0 then no_peers else ended s later key path loop.1))
          else server_failed)
