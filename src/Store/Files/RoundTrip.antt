-- ===== src/Store/Files/RoundTrip.antt =====
-- What goes into the store comes out of it, and of the store that the raw bytes are copied to.
use p2p_storage.Base.{
  ℕ, suc, ◌+◌, ◌^◌, ◌<◌, ◌≡◌, refl, sym, ap, ◌∙◌, inl, inr, true, false, Option, none, some, List,
  [], ◌∷◌, ◌++◌, arith, Bool-cases, length, length-append, string_key, nat_key, bytes_key,
}
use p2p_storage.Base.Dict.{get}
use p2p_storage.Base.Bytes.{Bytes}
use p2p_storage.Store.Encryption.{Error, write_failed, Result, ok, err, Source}
use p2p_storage.Store.Encryption.Sealing.{Result-cases}
use p2p_storage.Store.Encryption.Writer.{encrypt_file}
use p2p_storage.Store.Encryption.CopyIn.{concat}
use p2p_storage.Store.Encryption.RoundTrip.{decrypt-encrypt}
use p2p_storage.Store.Disk.{Disk}
use p2p_storage.Store.Files.{
  Store, Env, file_path, has, read, read_raw, copy, write_through, write_raw, write,
}
use p2p_storage.Store.Files.Contents.{
  Accepts, get-write_through, has_file, read_raw_lem, read_same, read_encrypted, read_plain,
  write_encrypted, write_plain,
}

module _ (env : Env) where
  copy_stopped :
      (k : ℕ) (p : Bytes) (ps : List Bytes) (failure : Option Error)
      → env.write_fails k ≡ true
      → (copy env k (p ∷ ps) failure).1 ≡ err write_failed
  unfolding copy
  copy_stopped k p ps failure e = ground (arith, e)

  copy_failed :
      (k : ℕ) (p : Bytes) (ps : List Bytes) (failure : Option Error) (x : Error)
      → env.write_fails k ≡ false
      → (copy env (suc k) ps failure).1 ≡ err x
      → (copy env k (p ∷ ps) failure).1 ≡ err x
  unfolding copy
  copy_failed k p ps failure x e f = rw (e, f) refl

  copy_more :
      (k : ℕ) (p : Bytes) (ps : List Bytes) (failure : Option Error) (m : ℕ)
      → env.write_fails k ≡ false
      → (copy env (suc k) ps failure).1 ≡ ok m
      → copy env k (p ∷ ps) failure ≡ (p ++ (copy env (suc k) ps failure).0, ok (length p + m))
  unfolding copy
  copy_more k p ps failure m e f = rw (e, f) refl

  -- What `io.Copy` leaves in an unencrypted file when it returns no error.
  copy-concat :
      (k : ℕ) (ps : List Bytes) (failure : Option Error) (n : ℕ)
      → (copy env k ps failure).1 ≡ ok n
      → ((copy env k ps failure).0 ≡ concat ps) × (n ≡ length (concat ps)) × (failure ≡ none)
  unfolding copy concat
  copy-concat k [] none n h = (refl, ground arith, refl)
  copy-concat k [] (some e) n h = absurd (ground arith)
  copy-concat k (p ∷ ps) failure n h = elim (Bool-cases (env.write_fails k)) [
    | inl e ↦ absurd (ground (arith, copy_stopped k p ps failure e))
    | inr e ↦ elim (Result-cases (copy env (suc k) ps failure).1) [
      | inr (x, f) ↦ absurd (ground (arith, copy_failed k p ps failure x e f))
      | inl (m, f) ↦
          let (bytes, size, whole) = copy-concat (suc k) ps failure m f in
          let more = copy_more k p ps failure m e f in
          rw (more, bytes)
            (
              refl,
              ground (arith, length-append p (concat ps), ap (λ (r : Bytes × Result ℕ). r.1) more),
              whole,
            )
    ]
  ]

  -- Whatever a write returns, `has` finds the key afterwards, when the file system refuses no call
  -- for it: also when the source failed.
  pub has-write :
      (s : Store) (key : Bytes) (src : Source) (d : Disk)
      → Accepts env s key d
      → has env s key (write env s key src d).0 ≡ true
  has-write s key src d a = by_key s.encryption_key refl
    where
      by_key :
          (k : Option Bytes) → s.encryption_key ≡ k → has env s key (write env s key src d).0 ≡ true
      by_key none e =
          rw (write_plain env s key src d e)
            (has_file env s key _ _ (get-write_through env s key _ _ d a).0)
      by_key (some k) e =
          rw (write_encrypted env s key k src d e)
            (has_file env s key _ _ (get-write_through env s key _ _ d a).0)

module _ (env : Env) (fits : env.chunk + 2048 < 2 ^ 32) (positive : 0 < env.chunk)
    (has_room : (k : ℕ) → 0 < env.room k)
    (nonce_bytes : (k : ℕ) (nonce : Bytes)
      → env.nonces k ≡ some nonce
      → length nonce ≡ env.gcm.nonce_size) where
  -- A write that returns no error is read back from the same store, encrypted or not: the content
  -- and its size. Its source ended without an error. The file system refuses no call for the key,
  -- the length of a chunk fits 32 bits, and the random source gives nonces of the right size.
  pub read-write :
      (s : Store) (key : Bytes) (src : Source) (d : Disk) (n : ℕ)
      → Accepts env s key d
      → (write env s key src d).1 ≡ ok n
      → (read env s key (write env s key src d).0 ≡ some (ok (concat src.pieces, n)))
        × (n ≡ length (concat src.pieces))
        × (src.failure ≡ none)
  read-write s key src d n a = by_key s.encryption_key refl
    where
      by_key :
          (k : Option Bytes)
          → s.encryption_key ≡ k
          → (write env s key src d).1 ≡ ok n
          → (read env s key (write env s key src d).0 ≡ some (ok (concat src.pieces, n)))
            × (n ≡ length (concat src.pieces))
            × (src.failure ≡ none)
      by_key none e h =
          let c = copy-concat env 0 src.pieces src.failure n (
            sym (get-write_through env s key _ _ d a).1
            ∙ rw (write_plain env s key src d e) at h) in
          (
            rw (write_plain env s key src d e, c.1, ← c.0)
                (read_plain env s key _ _ a e (get-write_through env s key _ _ d a).0),
            c.1,
            c.2,
          )
      by_key (some k) e h =
          let file = encrypt_file env.gcm env.chunk env.nonces env.write_fails k src in
          let stored : (get (file_path s key) (write_through env s key file d).0.files
                ≡ some file.0)
              × ((write_through env s key file d).1 ≡ file.1) =
            get-write_through env s key file.0 file.1 d a in
          let c =
            decrypt-encrypt env.gcm env.chunk fits k env.room has_room env.nonces env.write_fails
              positive nonce_bytes src n
              (sym stored.1 ∙ rw (write_encrypted env s key k src d e) at h) in
          (
            rw (write_encrypted env s key k src d e, c.1)
                (read_encrypted env s key k file.0 (concat src.pieces)
                  (write_through env s key file d).0 a e stored.0 c.0),
            c.1,
            c.2,
          )

  write_stores :
      (s : Store) (key : Bytes) (src : Source) (d : Disk)
      → Accepts env s key d
      → (file : Bytes) × (get (file_path s key) (write env s key src d).0.files ≡ some file)
  write_stores s key src d a = by_key s.encryption_key refl
    where
      by_key :
          (k : Option Bytes)
          → s.encryption_key ≡ k
          → (file : Bytes) × (get (file_path s key) (write env s key src d).0.files ≡ some file)
      by_key none e =
          rw (write_plain env s key src d e) (_, (get-write_through env s key _ _ d a).0)
      by_key (some k) e =
          rw (write_encrypted env s key k src d e) (_, (get-write_through env s key _ _ d a).0)

  same_file :
      {raw file : Bytes} {size : ℕ}
      → ◌≡◌ {A = Result (Bytes × ℕ)} (ok (raw, size)) (ok (file, length file))
      → (raw ≡ file) × (size ≡ length file)
  same_file e = (cc e, cc e)

  -- Two stores that share a key, or do not encrypt: the raw bytes that one reads of a file it
  -- wrote, written raw into the other in any pieces without an error, are read there as the
  -- content that the first was given, and the sizes agree. The file systems refuse no call for the
  -- key, the length of a chunk fits 32 bits, and the random source gives nonces of the right size.
  read-write_raw-read_raw-write :
      (from_store to_store : Store) (key : Bytes) (src : Source) (from_disk to_disk : Disk)
      (n m : ℕ)
      → from_store.encryption_key ≡ to_store.encryption_key
      → Accepts env from_store key from_disk
      → Accepts env to_store key to_disk
      → (write env from_store key src from_disk).1 ≡ ok n
      → (moved : Source) → (raw : Bytes) (size : ℕ)
      → read_raw env from_store key (write env from_store key src from_disk).0 ≡ ok (raw, size)
      → concat moved.pieces ≡ raw
      → (write_raw env to_store key moved to_disk).1 ≡ ok m
      → (read env to_store key (write_raw env to_store key moved to_disk).0
          ≡ some (ok (concat src.pieces, n)))
        × (m ≡ size)
  unfolding write_through write_raw
  read-write_raw-read_raw-write from_store to_store key src from_disk to_disk n m same a b h moved
        raw size r pieces w =
      let (file, stored) = write_stores from_store key src from_disk a in
      let raw_is : (raw ≡ file) × (size ≡ length file) =
        same_file (sym r ∙ read_raw_lem env from_store key file _ a stored) in
      let received =
        get-write_through env to_store key _ (copy env 0 moved.pieces moved.failure).1 to_disk b in
      let c = copy-concat env 0 moved.pieces moved.failure m (sym received.1 ∙ w) in
      let bytes : (copy env 0 moved.pieces moved.failure).0 ≡ file = c.0 ∙ pieces ∙ raw_is.0 in
      (
        read_same env from_store to_store key file _ _ a b same stored (received.0 ∙ ap some bytes)
            ∙ (read-write from_store key src from_disk n a h).0,
        c.1 ∙ ap length (pieces ∙ raw_is.0) ∙ sym raw_is.1,
      )
