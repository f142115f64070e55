-- ===== src/Store/Files/Contents.antt =====
-- What the operations leave at a key's file, and what they read there.
use p2p_storage.Base.{
  ℕ, ◌≡◌, refl, ap, ◌∙◌, ◌≢◌, inl, inr, true, false, none, some, [], arith, Bool-cases, length,
  string_key, nat_key, bytes_key,
}
use p2p_storage.Base.Dict.{get, put, get-put_self, get-put_ne}
use p2p_storage.Base.Bytes.{Bytes}
use p2p_storage.Store.Encryption.{mkdir_refused, create_refused, Result, ok, err, Source}
use p2p_storage.Store.Encryption.Writer.{encrypt_file}
use p2p_storage.Store.Encryption.Reader.{decrypt_file}
use p2p_storage.Store.Disk.{
  Disk, mkdir_fails, mkdir_all, create_fails, create, open_file, exists_or_unknown,
}
use p2p_storage.Store.Files.{
  Store, Env, get_absolute_path, file_path, has, read_stream, read, read_raw, copy, write_through,
  write_raw, write,
}

module _ (env : Env) where
  -- The file system refuses no call for the file of a key, with this on the disk.
  pub record Accepts (s : Store) (key : Bytes) (d : Disk) : Type 0 where
    pub stat : env.os.stat (file_path s key) ≡ false
    pub open_file : env.os.open_file (file_path s key) ≡ false
    pub create :
        create_fails env.os
          (file_path s key)
          (mkdir_all env.os (get_absolute_path s (s.path_transform_func key).path) d).0
        ≡ false
    pub mkdir : mkdir_fails env.os (get_absolute_path s (s.path_transform_func key).path) d ≡ false
    pub remove_file : env.os.remove_file (file_path s key) ≡ false

  -- A call that is refused leaves the disk as it is.
  mkdir_all_cases : (path : Bytes) (d : Disk) → (mkdir_all env.os path d).0.files ≡ d.files
  unfolding mkdir_all
  mkdir_all_cases path d = elim (Bool-cases (mkdir_fails env.os path d)) [
    | inl e ↦ rw e refl
    | inr e ↦ rw e refl
  ]

  mkdir_done :
      (path : Bytes) (d : Disk)
      → mkdir_fails env.os path d ≡ false
      → mkdir_all env.os path d ≡ ((mkdir_all env.os path d).0, ok tt)
  unfolding mkdir_all
  mkdir_done path d e = rw e refl

  mkdir_stopped :
      (path : Bytes) (d : Disk)
      → mkdir_fails env.os path d ≡ true
      → mkdir_all env.os path d ≡ (d, err mkdir_refused)
  unfolding mkdir_all
  mkdir_stopped path d e = rw e refl

  create_done :
      (path : Bytes) (d : Disk)
      → create_fails env.os path d ≡ false
      → create env.os path d ≡ (record d { files = put path [] d.files }, ok tt)
  unfolding create
  create_done path d e = rw e refl

  create_stopped :
      (path : Bytes) (d : Disk)
      → create_fails env.os path d ≡ true
      → create env.os path d ≡ (d, err create_refused)
  unfolding create
  create_stopped path d e = rw e refl

  pub write_through_done :
      (s : Store) (key bytes : Bytes) (r : Result ℕ) (d : Disk)
      → mkdir_fails env.os (get_absolute_path s (s.path_transform_func key).path) d ≡ false
      → create_fails env.os
          (file_path s key)
          (mkdir_all env.os (get_absolute_path s (s.path_transform_func key).path) d).0
        ≡ false
      → let d1 = (mkdir_all env.os (get_absolute_path s (s.path_transform_func key).path) d).0 in
        write_through env s key (bytes, r) d
        ≡ (record d1 { files = put (file_path s key) bytes (put (file_path s key) [] d1.files) }, r)
  unfolding write_through
  write_through_done s key bytes r d m c =
      let dir = get_absolute_path s (s.path_transform_func key).path in
      rw (mkdir_done dir d m, create_done (file_path s key) (mkdir_all env.os dir d).0 c) refl

  -- What is at the key's file after a write that the file system accepts.
  pub get-write_through :
      (s : Store) (key bytes : Bytes) (r : Result ℕ) (d : Disk)
      → Accepts s key d
      → (get (file_path s key) (write_through env s key (bytes, r) d).0.files ≡ some bytes)
        × ((write_through env s key (bytes, r) d).1 ≡ r)
  get-write_through s key bytes r d a =
      rw (write_through_done s key bytes r d a.mkdir a.create)
        (get-put_self (file_path s key) bytes _, refl)

  pub write_through_no_dir :
      (s : Store) (key bytes : Bytes) (r : Result ℕ) (d : Disk)
      → mkdir_fails env.os (get_absolute_path s (s.path_transform_func key).path) d ≡ true
      → write_through env s key (bytes, r) d ≡ (d, err mkdir_refused)
  unfolding write_through
  write_through_no_dir s key bytes r d m =
      rw (write_through, mkdir_stopped (get_absolute_path s (s.path_transform_func key).path) d m)
        refl

  pub write_through_no_file :
      (s : Store) (key bytes : Bytes) (r : Result ℕ) (d : Disk)
      → mkdir_fails env.os (get_absolute_path s (s.path_transform_func key).path) d ≡ false
      → create_fails env.os
          (file_path s key)
          (mkdir_all env.os (get_absolute_path s (s.path_transform_func key).path) d).0
        ≡ true
      → write_through env s key (bytes, r) d ≡ (
        (mkdir_all env.os (get_absolute_path s (s.path_transform_func key).path) d).0,
        err create_refused,
      )
  unfolding write_through
  write_through_no_file s key bytes r d m c =
      let dir = get_absolute_path s (s.path_transform_func key).path in
      rw (mkdir_done dir d m, create_stopped (file_path s key) (mkdir_all env.os dir d).0 c) refl

  -- A write leaves the file at every other path as it was, whatever fails.
  get-write_through_other :
      (s : Store) (key : Bytes) (b : Bytes × Result ℕ) (path : Bytes) (d : Disk)
      → file_path s key ≢ path
      → get path (write_through env s key b d).0.files ≡ get path d.files
  get-write_through_other s key (bytes, r) path d ne =
      let dir = get_absolute_path s (s.path_transform_func key).path in
      elim (Bool-cases (mkdir_fails env.os dir d)) [
        | inl m ↦ rw (write_through_no_dir s key bytes r d m) refl
        | inr m ↦
            elim (Bool-cases (create_fails env.os (file_path s key) (mkdir_all env.os dir d).0)) [
              | inl c ↦
                  rw (write_through_no_file s key bytes r d m c)
                    (ap (get path) (mkdir_all_cases dir d))
              | inr c ↦ rw (write_through_done s key bytes r d m c) (
                  get-put_ne (file_path s key) path bytes _ ne
                  ∙ get-put_ne (file_path s key) path [] _ ne
                  ∙ ap (get path) (mkdir_all_cases dir d))
            ]
      ]

  pub has_file :
      (s : Store) (key file : Bytes) (d : Disk)
      → get (file_path s key) d.files ≡ some file
      → has env s key d ≡ true
  unfolding has exists_or_unknown
  has_file s key file d h = ground (arith, h)

  stream_file :
      {d0 : Disk} (s : Store) (key file : Bytes) (d : Disk)
      → Accepts s key d0
      → get (file_path s key) d.files ≡ some file
      → read_stream env s key d ≡ ok file
  unfolding read_stream open_file
  stream_file s key file d a h = rw (a.stat, a.open_file, h) refl

  -- A file that is there is read as it stands.
  pub read_raw_lem :
      {d0 : Disk} (s : Store) (key file : Bytes) (d : Disk)
      → Accepts s key d0
      → get (file_path s key) d.files ≡ some file
      → read_raw env s key d ≡ ok (file, length file)
  unfolding read_raw
  read_raw_lem s key file d a h = rw (has_file s key file d h, stream_file s key file d a h) refl

  -- A read of a file that is there depends on its bytes and on the store's key alone.
  pub read_same :
      {d0 e0 : Disk} (s t : Store) (key file : Bytes) (d e : Disk)
      → Accepts s key d0
      → Accepts t key e0
      → s.encryption_key ≡ t.encryption_key
      → get (file_path s key) d.files ≡ some file
      → get (file_path t key) e.files ≡ some file
      → read env t key e ≡ read env s key d
  unfolding read
  read_same s t key file d e a b same h i =
      rw
        (
          has_file s key file d h,
          has_file t key file e i,
          stream_file s key file d a h,
          stream_file t key file e b i,
          same,
        )
        refl

  pub read_encrypted :
      {d0 : Disk} (s : Store) (key k file content : Bytes) (d : Disk)
      → Accepts s key d0
      → s.encryption_key ≡ some k
      → get (file_path s key) d.files ≡ some file
      → decrypt_file env.gcm env.chunk env.room k file ≡ some (ok content)
      → read env s key d ≡ some (ok (content, length content))
  unfolding read
  read_encrypted s key k file content d a e h dec =
      rw (has_file s key file d h, stream_file s key file d a h, e, dec) refl

  pub read_plain :
      {d0 : Disk} (s : Store) (key file : Bytes) (d : Disk)
      → Accepts s key d0
      → s.encryption_key ≡ none
      → get (file_path s key) d.files ≡ some file
      → read env s key d ≡ some (ok (file, length file))
  unfolding read
  read_plain s key file d a e h = rw (has_file s key file d h, stream_file s key file d a h, e) refl

  -- The write by itself, of an encrypting store and of one that does not encrypt.
  pub write_encrypted :
      (s : Store) (key k : Bytes) (src : Source) (d : Disk)
      → s.encryption_key ≡ some k
      → write env s key src d
        ≡ write_through env s key
            (encrypt_file env.gcm env.chunk env.nonces env.write_fails k src)
            d
  unfolding write
  write_encrypted s key k src d e = rw e refl

  pub write_plain :
      (s : Store) (key : Bytes) (src : Source) (d : Disk)
      → s.encryption_key ≡ none
      → write env s key src d ≡ write_through env s key (copy env 0 src.pieces src.failure) d
  unfolding write write_raw
  write_plain s key src d e = rw e refl
