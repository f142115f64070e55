-- ===== src/Store/Files.antt =====
-- `Store` of internal/store/store.go: a node's files, encrypted or as they are.
-- What a read of an open file returns is all of it: a disk that fails in the middle of a read is
-- not modelled. The file system's refusals, the random source and AES-GCM are parameters.
pub mod Contents
pub mod Sizes
pub mod Success
pub mod RoundTrip
pub mod Clear
pub mod Delete
use p2p_storage.Base.{
  ℕ, zero, suc, ◌+◌, ◌-◌, ◌*◌, ◌/◌, ◌%◌, ◌^◌, ◌≤◌, ◌<◌, min, String, ◌≡◌, refl, sym, ap, ◌∙◌, ◌≢◌,
  ◌↔◌, ◌⊎◌, inl, inr, if_pos, if_neg, ite, Bool, true, false, not, ◌&&◌, ◌||◌, Option, none, some,
  List, [], ◌∷◌, ◌++◌, map, arith, dec_lt, dec_le, ℕ_discrete, ltb, leb, ◌==◌, if◌then◌else◌,
  ltb→lt, lt→ltb, leb→le, ==_iff, Bool-cases, Option-cases, length, get_elem?, set, take, drop,
  keep, any, length-append, take-append-drop, length-take, length-drop, take_of_length-le,
  take-append_length, drop-append_length, length-keep-le, keep-append, drop-add,
  take-append-drop-length, drop_of_length-le, string_discrete, Key, string_key, nat_key, bytes_key,
  bytes_discrete,
}
use p2p_storage.Base.Dict.{
  Dict, is_some, filter_value, get, put, remove, get-remove, get-put, get-remove_self,
  get-remove_ne, get-put_self, get-put_ne, length-remove-le, length-remove-lt, length-put-le, IsMap,
  remove-IsMap, put-IsMap, keep-IsMap, get-keep,
}
use p2p_storage.Base.Forall.{All, All-append, All-keep}
use p2p_storage.Base.Bytes.{Bytes}
use p2p_storage.Store.Encryption.{
  Gcm, Error, not_found, no_nonce, write_failed, key_file_size, key_not_saved, Result, ok, err,
  ◌>>=◌, Source,
}
use p2p_storage.Store.Encryption.Writer.{encrypt_file}
use p2p_storage.Store.Encryption.Reader.{decrypt_file}
use mathlib.Core.Option
use p2p_storage.Store.Paths.{
  PathKey, get_file_path, split, join, slash, default_path_transform_func,
}
use p2p_storage.Store.Disk.{
  Disk, Refusals, mkdir_all, create, open_file, exists_or_unknown, remove_file, remove_dir,
  read_dir,
}

pub record EncryptionConfig : Type 0 where
  pub enabled : Bool
  pub key_path : Bytes

pub record StoreOpts : Type 0 where
  pub root : Bytes
  pub path_transform_func : Option (Bytes → PathKey)
  pub encryption : EncryptionConfig

-- `NewStore` leaves no path transform out.
pub record Store : Type 0 where
  pub root : Bytes
  pub path_transform_func : Bytes → PathKey
  pub encryption_key : Option Bytes

-- What the store calls. `dir` and `join_path` are of `path/filepath`. `fresh` is what the random
-- source gives for a new key, `write_key` tells whether `os.WriteFile` succeeds. `nonces` and
-- `write_fails` are the random source and the writes to the file of one operation, by number.
-- `room` is how much a round of `io.Copy` asks the reader for.
pub record Env : Type 0 where
  pub os : Refusals
  pub gcm : Gcm
  pub chunk : ℕ
  pub dir : Bytes → Bytes
  pub join_path : Bytes → Bytes → Bytes
  pub fresh : Option Bytes
  pub write_key : Bytes → Bool
  pub nonces : ℕ → Option Bytes
  pub write_fails : ℕ → Bool
  pub room : ℕ → ℕ

-- What an operation on the disk leaves and returns.
abbrev pub continue {ℓ} :
    {A : Type 0} {B : Type ℓ} → Disk × Result A → (A → Disk → Disk × Result B) → Disk × Result B
continue (d, ok a) f = f a d
continue (d, err e) f = (d, err e)

-- ".encryption_key"
abbrev key_name : Bytes
key_name = 46 ∷ 101 ∷ 110 ∷ 99 ∷ 114 ∷ 121 ∷ 112 ∷ 116 ∷ 105 ∷ 111 ∷ 110 ∷ 95 ∷ 107 ∷ 101 ∷ 121 ∷ []

unfoldable pub is_encryption_enabled : Store → Bool
is_encryption_enabled s = is_some s.encryption_key

unfoldable pub get_absolute_path : Store → Bytes → Bytes
get_absolute_path s path = s.root ++ slash ∷ path

unfoldable pub file_path : Store → Bytes → Bytes
unfolding get_absolute_path get_file_path
file_path s key = get_absolute_path s (get_file_path (s.path_transform_func key))

module _ (env : Env) where
  -- `generateEncryptionKey`, `os.MkdirAll` and `os.WriteFile`
  unfoldable pub create_encryption_key : Bytes → Disk → Disk × Result Bytes
  create_encryption_key key_path d = elim env.fresh [
    | none ↦ (d, err no_nonce)
    | some key ↦ continue (mkdir_all env.os (env.dir key_path) d) (λ _ d'.
        if env.write_key key_path
        then (record d' { files = put key_path key d'.files }, ok key)
        else (d', err key_not_saved))
  ]

  unfoldable pub load_or_create_encryption_key : Bytes → Disk → Disk × Result Bytes
  load_or_create_encryption_key key_path d = elim (open_file env.os key_path d) [
    | ok key ↦ if length key == 32 then (d, ok key) else (d, err key_file_size)
    | err _ ↦ create_encryption_key key_path d
  ]

  abbrev transform_or_default : Option (Bytes → PathKey) → Bytes → PathKey
  transform_or_default none = default_path_transform_func
  transform_or_default (some f) = f

  unfoldable pub new_store : StoreOpts → Disk → Disk × Result Store
  new_store opts d =
      let s : Store = record {
        root = opts.root;
        path_transform_func = transform_or_default opts.path_transform_func;
        encryption_key = none;
      } in
      let key_path =
        (if length opts.encryption.key_path == 0
          then env.join_path opts.root key_name
          else opts.encryption.key_path) in
      if opts.encryption.enabled
      then continue (load_or_create_encryption_key key_path d)
          (λ key d'. (d', ok (record s { encryption_key = some key })))
      else (d, ok s)

  -- Any error of `os.Stat` but that there is no such file counts as a file.
  unfoldable pub has : Store → Bytes → Disk → Bool
  has s key d = exists_or_unknown env.os (file_path s key) d

  -- Empty directories go, the deepest first, up to the first one with an entry.
  unfoldable pub remove_empty : ℕ → List Bytes → Disk → Disk × Result (Unit {0})
  remove_empty zero sub_folders d = (d, ok tt)
  remove_empty (suc i) sub_folders d =
      let path = join (take (suc i) sub_folders) in
      let (d', r) = remove_dir env.os path d in
      let rest = remove_empty i sub_folders d' in
      if read_dir path d == 0 then continue (d', r) (λ _ _. rest) else (d, ok tt)

  unfoldable pub delete : Store → Bytes → Disk → Disk × Result (Unit {0})
  delete s key d = continue (remove_file env.os (file_path s key) d) (λ _.
      let sub_folders = split (get_absolute_path s (s.path_transform_func key).path) in
      remove_empty (length sub_folders) sub_folders)

  unfoldable pub read_stream : Store → Bytes → Disk → Result Bytes
  read_stream s key d =
      if env.os.stat (file_path s key) then err not_found else open_file env.os (file_path s key) d

  -- The content and its size; `none` if the fuel of the copy runs out.
  abbrev with_size : Result Bytes → Result (Bytes × ℕ)
  with_size (ok p) = ok (p, length p)
  with_size (err e) = err e

  abbrev decrypted : Option Bytes → Bytes → Option (Result Bytes)
  decrypted none file = some (ok file)
  decrypted (some key) file = decrypt_file env.gcm env.chunk env.room key file

  abbrev read_opened : Option Bytes → Result Bytes → Option (Result (Bytes × ℕ))
  read_opened key (err e) = some (err e)
  read_opened key (ok file) = Option.map with_size (decrypted key file)

  unfoldable pub read : Store → Bytes → Disk → Option (Result (Bytes × ℕ))
  read s key d =
      if has s key d
      then read_opened s.encryption_key (read_stream s key d)
      else some (err not_found)

  unfoldable pub read_raw : Store → Bytes → Disk → Result (Bytes × ℕ)
  read_raw s key d = if has s key d then with_size (read_stream s key d) else err not_found

  -- `io.Copy` from a source into the file itself: what was written, and the size or an error.
  abbrev copied : Option Error → Bytes × Result ℕ
  copied none = ([], ok 0)
  copied (some e) = ([], err e)

  abbrev plus : ℕ → Result ℕ → Result ℕ
  plus n (ok m) = ok (n + m)
  plus n (err e) = err e

  unfoldable pub copy : ℕ → List Bytes → Option Error → Bytes × Result ℕ
  copy k [] failure = copied failure
  copy k (p ∷ ps) failure =
      let (bytes, r) = copy (suc k) ps failure in
      if env.write_fails k then ([], err write_failed) else (p ++ bytes, plus (length p) r)

  -- `writeStream` and `writeStreamEncrypted` up to the copy, and what the copy left in the file.
  unfoldable pub write_through : Store → Bytes → Bytes × Result ℕ → Disk → Disk × Result ℕ
  write_through s key (bytes, r) d =
      continue (mkdir_all env.os (get_absolute_path s (s.path_transform_func key).path) d) (λ _ d1.
        continue (create env.os (file_path s key) d1)
          (λ _ d2. (record d2 { files = put (file_path s key) bytes d2.files }, r)))

  unfoldable pub write_raw : Store → Bytes → Source → Disk → Disk × Result ℕ
  write_raw s key src = write_through s key (copy 0 src.pieces src.failure)

  unfoldable pub write : Store → Bytes → Source → Disk → Disk × Result ℕ
  write s key src = elim s.encryption_key [
    | none ↦ write_raw s key src
    | some k ↦ write_through s key (encrypt_file env.gcm env.chunk env.nonces env.write_fails k src)
  ]
