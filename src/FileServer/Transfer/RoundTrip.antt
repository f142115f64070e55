-- ===== src/FileServer/Transfer/RoundTrip.antt =====
-- What the receiver of a transfer makes of what its sender wrote.
use p2p_storage.Base.{
  ℕ, ◌+◌, ◌%◌, ◌^◌, ◌≤◌, ◌<◌, min, ◌≡◌, refl, sym, ap, ◌∙◌, inl, inr, true, false, Option, none,
  some, List, ◌++◌, arith, ltb, ◌==◌, length, take, length-take, take_of_length-le, string_key,
  nat_key, bytes_key,
}
use p2p_storage.Base.Bytes.{
  Bytes, put_uint16, put_uint64, uint16, length-put_uint16, length-put_uint64, uint16-put_uint16,
  uint64-put_uint64,
}
use p2p_storage.Base.Int.{ℤ, pos}
use p2p_storage.Store.Encryption.{Error, Result, ok, err, read_full, Source}
use p2p_storage.Store.Encryption.Frames.{read_full-append}
use p2p_storage.Store.Encryption.Sealing.{Result-cases}
use p2p_storage.Store.Encryption.CopyIn.{concat}
use p2p_storage.Store.Disk.{Disk}
use p2p_storage.Store.Files.{Store, Env, write, read}
use p2p_storage.Store.Files.Contents.{Accepts}
use p2p_storage.Store.Files.RoundTrip.{read-write}
use p2p_storage.FileServer.Transfer.{
  Outcome, max_key_length, int64, to_uint64, send_file, read_header, limit_reader, after_write,
  handle_incoming_stream,
}

int64-to_uint64 : (n : ℕ) → n < 2 ^ 63 → int64 (to_uint64 (pos n)) ≡ pos n
unfolding int64 to_uint64
int64-to_uint64 n h =
    let small : n % 2 ^ 64 ≡ n = omega arith in
    let low : ltb n (2 ^ 63) ≡ true = ground arith in rw (small, low) refl

-- For a key of 1 to 1024 bytes and a size that fits an `int64`, the receiver reads the key and the
-- size that the sender wrote, and the content is what follows.
read_header-send_file :
    (key content : Bytes) (n : ℕ)
    → 0 < length key
    → length key ≤ max_key_length
    → n < 2 ^ 63
    → read_header (send_file key content (pos n))
      ≡ some (record { key = key; file_size = pos n; body = content })
unfolding read_header send_file read_full
read_header-send_file key content n some_key short small =
    let size = to_uint64 (pos n) in
    let key_len : uint16 (put_uint16 (length key % 2 ^ 16)) ≡ length key =
      uint16-put_uint16 (length key % 2 ^ 16) ∙ omega arith in
    let not_empty : (length key == 0) ≡ false = ground arith in
    let in_range : ltb 1024 (length key) ≡ false = ground arith in
    let in_uint64 : size < 2 ^ 64 = (unfold to_uint64 in omega arith) in
    rw
      (
        read_header,
        send_file,
        read_full-append (put_uint16 (length key % 2 ^ 16)) (key ++ (put_uint64 size ++ content)) 2
            (length-put_uint16 _),
        key_len,
        not_empty,
        in_range,
        read_full-append key (put_uint64 size ++ content) (length key) refl,
        read_full-append (put_uint64 size) content 8 (length-put_uint64 size),
        uint64-put_uint64 size in_uint64,
        int64-to_uint64 n small,
      )
      refl

-- The source that the store is given for a transfer of `n` bytes.
abbrev pub received : (Bytes → List Bytes) → Bytes → Bytes → ℕ → Option Error → Source
received pieces key content n failure =
    limit_reader pieces failure (record { key = key; file_size = pos n; body = content })

received-pieces :
    (pieces : Bytes → List Bytes) (key content : Bytes) (n : ℕ) (failure : Option Error)
    → (received pieces key content n failure).pieces ≡ pieces (take n content)
unfolding limit_reader
received-pieces pieces key content n failure = refl

module _ (env : Env) (pieces : Bytes → List Bytes) where
  pub handle-send_file :
      (s : Store) (key content : Bytes) (n : ℕ) (failure : Option Error) (d : Disk)
      → 0 < length key
      → length key ≤ max_key_length
      → n < 2 ^ 63
      → handle_incoming_stream env pieces s
          (record { bytes = send_file key content (pos n); failure = failure })
          d
        ≡ after_write key (pos n) (write env s key (received pieces key content n failure) d)
  unfolding handle_incoming_stream
  handle-send_file s key content n failure d some_key short small =
      rw (handle_incoming_stream, read_header-send_file key content n some_key short small) refl

  pub after_write_ok :
      (key : Bytes) (size : ℤ) (w : Disk × Result ℕ) (m : ℕ)
      → w.1 ≡ ok m
      → ((after_write key size w).disk ≡ w.0)
        × ((after_write key size w).response ≡ some 1)
        × ((after_write key size w).notified ≡ some (key, none))
  unfolding after_write
  after_write_ok key size (d, ok m) n h = (refl, refl, refl)
  after_write_ok key size (d, err e) n h = absurd (cc h)

  after_write_err :
      (key : Bytes) (size : ℤ) (w : Disk × Result ℕ) (e : Error)
      → w.1 ≡ err e
      → ((after_write key size w).response ≡ some 0)
        × ((after_write key size w).notified ≡ some (key, some e))
  unfolding after_write
  after_write_err key size (d, ok m) e h = absurd (cc h)
  after_write_err key size (d, err x) e h = (refl, ap (λ y. some (key, some y)) (cc h))

module _ (env : Env) (pieces : Bytes → List Bytes) (fits : env.chunk + 2048 < 2 ^ 32)
    (positive : 0 < env.chunk) (has_room : (k : ℕ) → 0 < env.room k)
    (nonce_bytes : (k : ℕ) (nonce : Bytes)
      → env.nonces k ≡ some nonce
      → length nonce ≡ env.gcm.nonce_size)
    (whole : (b : Bytes) → concat (pieces b) ≡ b) where
  -- A sender that is answered 1 has its file at the receiver, whose store reads it back, as far as
  -- it came: the first `n` bytes, for the size `n` it announced. Those who wait for the file are
  -- told of success. The key has 1 to 1024 bytes, the size fits an `int64`, and the receiver's
  -- file system refuses no call for the key.
  pub handle_incoming_stream-acknowledged :
      (s : Store) (key content : Bytes) (n : ℕ) (failure : Option Error) (d : Disk)
      → Accepts env s key d
      → 0 < length key
      → length key ≤ max_key_length
      → n < 2 ^ 63
      → let o =
          handle_incoming_stream env pieces s
            (record { bytes = send_file key content (pos n); failure = failure })
            d in
        o.response ≡ some 1
        → (read env s key o.disk ≡ some (ok (take n content, min n (length content))))
          × (o.notified ≡ some (key, none))
  handle_incoming_stream-acknowledged s key content n failure d a some_key short small h =
      let e = handle-send_file env pieces s key content n failure d some_key short small in
      let w = write env s key (received pieces key content n failure) d in
      elim (Result-cases w.1) [
        | inr (x, f) ↦
            let refused : ◌≡◌ {A = Option ℕ} (some 1) (some 0) =
              sym h
              ∙ ap (λ (o : Outcome). o.response) e
              ∙ (after_write_err env pieces key (pos n) w x f).0 in
            absurd (cc refused)
        | inl (m, f) ↦
            let (disk, _, notified) = after_write_ok env pieces key (pos n) w m f in
            let r =
              read-write env fits positive has_room nonce_bytes s key
                (received pieces key content n failure) d m a f in
            let content_is : concat (received pieces key content n failure).pieces
                ≡ take n content =
              ap concat (received-pieces pieces key content n failure) ∙ whole (take n content) in
            let size : m ≡ min n (length content) =
              r.1 ∙ ap length content_is ∙ length-take n content in
            rw (e, disk, notified, ← content_is, ← size) (r.0, refl)
      ]

  -- A stream that ends in the middle of its content is acknowledged like a whole one, if the write
  -- of what came succeeds: the sender is answered 1, and those who wait for the file are told of
  -- success, while the store has less of it than was announced. The key has 1 to 1024 bytes, the
  -- size fits an `int64`, and the file system refuses no call for the key.
  pub handle_incoming_stream-cut :
      (s : Store) (key content : Bytes) (n m : ℕ) (d : Disk)
      → Accepts env s key d
      → 0 < length key
      → length key ≤ max_key_length
      → n < 2 ^ 63
      → length content < n
      → (write env s key (received pieces key content n none) d).1 ≡ ok m
      → let o =
          handle_incoming_stream env pieces s
            (record { bytes = send_file key content (pos n); failure = none })
            d in
        (o.response ≡ some 1)
        × (o.notified ≡ some (key, none))
        × (read env s key o.disk ≡ some (ok (content, m)))
        × (m < n)
  handle_incoming_stream-cut s key content n m d a some_key short small cut f =
      let e = handle-send_file env pieces s key content n none d some_key short small in
      let w = write env s key (received pieces key content n none) d in
      let (disk, response, notified) = after_write_ok env pieces key (pos n) w m f in
      let r =
        read-write env fits positive has_room nonce_bytes s key (received pieces key content n none)
          d m a f in
      let content_is : concat (received pieces key content n none).pieces ≡ content =
        ap concat (received-pieces pieces key content n none)
        ∙ whole (take n content)
        ∙ take_of_length-le n content (omega arith) in
      let size : m ≡ length content = r.1 ∙ ap length content_is in
      (
        rw e response,
        rw e notified,
        rw (e, disk) (r.0 ∙ ap (λ c. some (ok (c, m))) content_is),
        omega (arith, size),
      )
