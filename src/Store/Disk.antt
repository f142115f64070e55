-- ===== src/Store/Disk.antt =====
-- The part of package `os` that the store calls: files by path, and the directories there are.
-- What the system refuses, it refuses by path. That is a parameter.
use p2p_storage.Base.{
  ℕ, zero, suc, ◌+◌, ◌-◌, ite, Bool, true, false, not, ◌||◌, none, some, List, [], if◌then◌else◌,
  length, take, keep, string_key, nat_key, bytes_key, bytes_discrete,
}
use p2p_storage.Base.Dict.{Dict, is_some, get, put, remove}
use p2p_storage.Base.Bytes.{Bytes}
use p2p_storage.Store.Encryption.{
  mkdir_refused, create_refused, open_refused, remove_refused, not_found, Result, ok, err,
}
use p2p_storage.Store.Paths.{join, split}

pub record Disk : Type 0 where
  pub files : Dict Bytes Bytes
  pub dirs : Dict Bytes (Unit {0})

-- Which calls fail whatever is on the disk, by path.
pub record Refusals : Type 0 where
  pub stat : Bytes → Bool
  pub mkdir : Bytes → Bool
  pub create : Bytes → Bool
  pub open_file : Bytes → Bool
  pub remove_file : Bytes → Bool

unfoldable pub parent : Bytes → Bytes
parent path = let parts = split path in join (take (length parts - 1) parts)

-- The directories on the way to the first `n` parts.
unfoldable pub add_dirs : ℕ → List Bytes → Dict Bytes (Unit {0}) → Dict Bytes (Unit {0})
add_dirs zero parts dirs = dirs
add_dirs (suc n) parts dirs = put (join (take (suc n) parts)) tt (add_dirs n parts dirs)

-- Is one of the first `n` parts on the way a file?
unfoldable pub file_on_way : ℕ → List Bytes → Dict Bytes Bytes → Bool
file_on_way zero parts files = false
file_on_way (suc n) parts files =
    let rest = file_on_way n parts files in
    if is_some (get (join (take (suc n) parts)) files) then true else rest

module _ (os : Refusals) where
  -- A file on the way stands in the way of a directory.
  unfoldable pub mkdir_fails : Bytes → Disk → Bool
  mkdir_fails path d = os.mkdir path || file_on_way (length (split path)) (split path) d.files

  unfoldable pub mkdir_all : Bytes → Disk → Disk × Result (Unit {0})
  mkdir_all path d =
      if mkdir_fails path d
      then (d, err mkdir_refused)
      else (record d { dirs = add_dirs (length (split path)) (split path) d.dirs }, ok tt)

  -- A directory stands in the way of a file, and a file is in a directory.
  unfoldable pub create_fails : Bytes → Disk → Bool
  create_fails path d =
      os.create path || is_some (get path d.dirs) || not (is_some (get (parent path) d.dirs))

  -- `os.Create` empties a file that is there.
  unfoldable pub create : Bytes → Disk → Disk × Result (Unit {0})
  create path d =
      if create_fails path d
      then (d, err create_refused)
      else (record d { files = put path [] d.files }, ok tt)

  unfoldable pub open_file : Bytes → Disk → Result Bytes
  open_file path d =
      if os.open_file path
      then err open_refused
      else elim (get path d.files) [ none ↦ err not_found | some bytes ↦ ok bytes ]

  -- `!os.IsNotExist` of the error of `os.Stat`
  unfoldable pub exists_or_unknown : Bytes → Disk → Bool
  exists_or_unknown path d = os.stat path || is_some (get path d.files) || is_some (get path d.dirs)

  unfoldable pub remove_file : Bytes → Disk → Disk × Result (Unit {0})
  remove_file path d =
      if os.remove_file path
      then (d, err remove_refused)
      else (if is_some (get path d.files)
          then (record d { files = remove path d.files }, ok tt)
          else (d, err not_found))

  -- `os.Remove` of a directory that is empty
  unfoldable pub remove_dir : Bytes → Disk → Disk × Result (Unit {0})
  remove_dir path d =
      if os.remove_file path
      then (d, err remove_refused)
      else (if is_some (get path d.dirs)
          then (record d { dirs = remove path d.dirs }, ok tt)
          else (d, err not_found))

abbrev is_in {ℓ} : {V : Type ℓ} → Bytes → Bytes × V → Bool
is_in path (p, _) = ite (bytes_discrete (parent p) path) true false

-- How many entries `os.ReadDir` lists: none if it fails.
unfoldable pub read_dir : Bytes → Disk → ℕ
read_dir path d = length (keep (is_in path) d.files) + length (keep (is_in path) d.dirs)
