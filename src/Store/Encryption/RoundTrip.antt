-- ===== src/Store/Encryption/RoundTrip.antt =====
-- What is encrypted comes back, and what a cut file gives instead.
use p2p_storage.Base.{
  ℕ, ◌+◌, ◌^◌, ◌<◌, ◌≡◌, refl, ap, ◌∙◌, inl, inr, Bool, true, false, Option, none, some, List, [],
  ◌∷◌, ◌++◌, arith, Bool-cases, length, take, length-append, take-append_length, string_key,
  nat_key,
}
use p2p_storage.Base.Forall.{All, All-append}
use p2p_storage.Base.Bytes.{Bytes, put_uint32, length-put_uint32}
use p2p_storage.Store.Encryption.{Gcm, Error, eof, no_cipher, Result, ok, err, Source}
use p2p_storage.Store.Encryption.Writer.{
  EncryptingWriter, new_encrypting_writer, close, copy_in, encrypt_file,
}
use p2p_storage.Store.Encryption.Reader.{new_decrypting_reader, next_chunk, decrypt_file}
use p2p_storage.Store.Encryption.Frames.{
  encode, plain, IsFrame, frame, sealed, length-sealed, encode-append, plain-append, next_chunk-nil,
  next_chunk-header,
}
use p2p_storage.Store.Encryption.Sealing.{Result-cases, Wrote}
use p2p_storage.Store.Encryption.CopyIn.{concat, Closed, copy_in-Wrote, close-Closed}
use p2p_storage.Store.Encryption.CopyOut.{copy_out-frames}
use mathlib.Core.List.{append_assoc, append-nil}

module _ (g : Gcm) (chunk : ℕ) (random : ℕ → Option Bytes) (fails : ℕ → Bool) (key : Bytes) where
  abbrev start : EncryptingWriter
  start = record {
    dst = record { bytes = []; writes = 0 };
    key = key;
    buf = [];
    closed = false;
    nonces = 0;
  }

  abbrev copied : Source → EncryptingWriter × Result ℕ
  copied src = copy_in g chunk random fails src.pieces src.failure start

  new_writer :
      g.is_key key ≡ true
      → new_encrypting_writer g chunk random fails key (record { bytes = []; writes = 0 })
        ≡ ok start
  unfolding new_encrypting_writer
  new_writer k = ground arith

  encrypt_no_key :
      (src : Source)
      → g.is_key key ≡ false
      → (encrypt_file g chunk random fails key src).1 ≡ err no_cipher
  unfolding encrypt_file new_encrypting_writer
  encrypt_no_key src e = ground arith

  encrypt_stopped :
      (src : Source) (x : Error)
      → g.is_key key ≡ true
      → (copied src).1 ≡ err x
      → (encrypt_file g chunk random fails key src).1 ≡ err x
  unfolding encrypt_file
  encrypt_stopped src x k e = rw (encrypt_file, new_writer k, e)

  encrypt_not_closed :
      (src : Source) (n : ℕ) (x : Error)
      → g.is_key key ≡ true
      → (copied src).1 ≡ ok n
      → (close g chunk random fails (copied src).0).1 ≡ err x
      → (encrypt_file g chunk random fails key src).1 ≡ err x
  unfolding encrypt_file
  encrypt_not_closed src n x k e f = rw (encrypt_file, new_writer k, e, f)

  encrypt_done :
      (src : Source) (n : ℕ)
      → g.is_key key ≡ true
      → (copied src).1 ≡ ok n
      → (close g chunk random fails (copied src).0).1 ≡ ok tt
      → encrypt_file g chunk random fails key src
        ≡ ((close g chunk random fails (copied src).0).0.dst.bytes, ok n)
  unfolding encrypt_file
  encrypt_done src n k e f = rw (encrypt_file, new_writer k, e, f)

  -- The file and the size that belong to a source.
  pub record Encrypted (src : Source) (file : Bytes) (n : ℕ) : Type 0 where
    pub is_key : g.is_key key ≡ true
    pub frames : List (Bytes × Bytes)
    pub valid : All (IsFrame g chunk key) frames
    pub bytes : file ≡ encode g chunk key frames
    pub content : plain g chunk key frames ≡ concat src.pieces
    pub size : n ≡ length (concat src.pieces)
    pub whole : src.failure ≡ none

module _ (g : Gcm) (chunk : ℕ) (random : ℕ → Option Bytes) (fails : ℕ → Bool) (positive : 0 < chunk)
    (nonce_bytes : (k : ℕ) (nonce : Bytes) → random k ≡ some nonce → length nonce ≡ g.nonce_size)
    (key : Bytes) where
  together :
      (src : Source) (w w' : EncryptingWriter) (n : ℕ)
      → g.is_key key ≡ true
      → Wrote g chunk key (start g chunk random fails key) w (concat src.pieces)
      → Closed g chunk random fails positive nonce_bytes key w w'
      → n ≡ length (concat src.pieces)
      → src.failure ≡ none
      → Encrypted g chunk random fails key src w'.dst.bytes n
  together src w w' n k a c size whole = record {
    is_key = k;
    frames = a.frames ++ c.frames;
    valid = All-append (IsFrame g chunk key) a.frames c.frames a.valid c.valid;
    bytes =
        rw (encode-append g chunk key a.frames c.frames, c.bytes)
          (ap (λ t. t ++ encode g chunk key c.frames) a.bytes);
    content = rw (plain-append g chunk key a.frames c.frames, c.flushed) a.moved;
    size = size;
    whole = whole;
  }

  encrypt_file-Encrypted :
      (src : Source) (n : ℕ)
      → (encrypt_file g chunk random fails key src).1 ≡ ok n
      → Encrypted g chunk random fails key src (encrypt_file g chunk random fails key src).0 n
  encrypt_file-Encrypted src n h = elim (Bool-cases (g.is_key key)) [
    | inr k ↦ absurd (ground (arith, encrypt_no_key g chunk random fails key src k))
    | inl k ↦ elim (Result-cases (copied g chunk random fails key src).1) [
      | inr (x, e) ↦ absurd (ground (arith, encrypt_stopped g chunk random fails key src x k e))
      | inl (m, e) ↦
          elim (Result-cases
            (close g chunk random fails (copied g chunk random fails key src).0).1) [
              | inr (x, f) ↦
                  absurd (ground (arith, encrypt_not_closed g chunk random fails key src m x k e f))
              | inl (_, f) ↦
                  let (a, short, size, whole) =
                    copy_in-Wrote g chunk random fails positive nonce_bytes key src.pieces
                      src.failure (start g chunk random fails key) m refl refl positive e in
                  let c =
                    close-Closed g chunk random fails positive nonce_bytes key
                      (copied g chunk random fails key src).0 a.same_key a.still_open short f in
                  let d = encrypt_done g chunk random fails key src m k e f in
                  let same : n ≡ m = ground (arith, ap (λ (r : Bytes × Result ℕ). r.1) d) in
                  rw d (together src _ _ n k a c (same ∙ size) whole)
            ]
    ]
  ]

module _ (g : Gcm) (chunk : ℕ) (fits : chunk + 2048 < 2 ^ 32) (key : Bytes) (room : ℕ → ℕ)
    (has_room : (k : ℕ) → 0 < room k) where
  new_reader :
      g.is_key key ≡ true
      → (file : Bytes)
      → new_decrypting_reader g chunk key file
        ≡ ok (record { src = file; key = key; buf = []; read_pos = 0; exhausted = false })
  unfolding new_decrypting_reader
  new_reader k file = ground arith

  -- Whole frames, with an end of file behind them.
  decrypt-frames :
      (fs : List (Bytes × Bytes)) (tail : Bytes)
      → g.is_key key ≡ true
      → All (IsFrame g chunk key) fs
      → next_chunk g chunk key tail ≡ err eof
      → decrypt_file g chunk room key (encode g chunk key fs ++ tail)
        ≡ some (ok (plain g chunk key fs))
  unfolding decrypt_file
  decrypt-frames fs tail k valid ends =
      rw (decrypt_file, new_reader k (encode g chunk key fs ++ tail))
        (copy_out-frames g chunk key fits room has_room tail ends _ 0 _ fs refl refl refl
          (omega arith) valid (omega (arith, length-append (encode g chunk key fs) tail)))

  take-frames :
      (fs : List (Bytes × Bytes)) (f : Bytes × Bytes) (gs : List (Bytes × Bytes))
      → take (length (encode g chunk key fs)) (encode g chunk key (fs ++ f ∷ gs))
        ≡ encode g chunk key fs ++ []
  take-frames fs f gs =
      rw (encode-append g chunk key fs (f ∷ gs), append-nil)
        (take-append_length (encode g chunk key fs) _)

  take-header :
      (fs : List (Bytes × Bytes)) (f : Bytes × Bytes) (gs : List (Bytes × Bytes))
      → take (length (encode g chunk key fs) + 4) (encode g chunk key (fs ++ f ∷ gs))
        ≡ encode g chunk key fs ++ put_uint32 (length (sealed g chunk key f))
  unfolding encode frame
  take-header fs f gs =
      let body = sealed g chunk key f in
      let front = encode g chunk key fs ++ put_uint32 (length body) in
      let split : encode g chunk key (fs ++ f ∷ gs) ≡ front ++ (body ++ encode g chunk key gs) =
        rw (encode-append g chunk key fs (f ∷ gs), append_assoc, append_assoc) refl in
      let size : length (encode g chunk key fs) + 4 ≡ length front = omega (
        arith,
        length-append (encode g chunk key fs) (put_uint32 (length body)),
        length-put_uint32 (length body),
      ) in
      rw (split, size) (take-append_length front _)

  -- A file of whole frames that is cut behind a frame, or behind the four bytes of the length of
  -- the next one, reads without an error as the contents of the frames before the cut. The length
  -- of a chunk fits 32 bits, and the key is one of the cipher.
  pub decrypt-cut :
      (fs : List (Bytes × Bytes)) (f : Bytes × Bytes) (gs : List (Bytes × Bytes))
      → g.is_key key ≡ true
      → All (IsFrame g chunk key) fs
      → IsFrame g chunk key f
      → let whole = encode g chunk key (fs ++ f ∷ gs) in
        let behind = length (encode g chunk key fs) in
        (decrypt_file g chunk room key (take behind whole) ≡ some (ok (plain g chunk key fs)))
        × (decrypt_file g chunk room key (take (behind + 4) whole)
            ≡ some (ok (plain g chunk key fs)))
  decrypt-cut fs f gs k valid h = (
    rw (take-frames fs f gs) (decrypt-frames fs [] k valid (next_chunk-nil g chunk key fits)),
    rw (take-header fs f gs) (
        decrypt-frames fs _ k valid (
          next_chunk-header g chunk key fits _
            (omega (arith, length-sealed g chunk key f, h.0, g.standard_nonce_size))
            (omega (
              arith,
              length-sealed g chunk key f,
              h.0,
              h.1,
              g.standard_nonce_size,
              g.standard_overhead,
            )))),
  )

  -- What `encrypt_file` wrote without an error, `decrypt_file` gives back, however much each round
  -- of the copy asks for. The size that was returned is the size of the content, and the source
  -- ended without an error. A chunk has at least one byte and its length fits 32 bits, and the
  -- random source gives nonces of the right size.
  pub decrypt-encrypt :
      (random : ℕ → Option Bytes) (fails : ℕ → Bool)
      → 0 < chunk
      → ((k : ℕ) (nonce : Bytes) → random k ≡ some nonce → length nonce ≡ g.nonce_size)
      → (src : Source) (n : ℕ) → (encrypt_file g chunk random fails key src).1 ≡ ok n
      → (decrypt_file g chunk room key (encrypt_file g chunk random fails key src).0
          ≡ some (ok (concat src.pieces)))
        × (n ≡ length (concat src.pieces))
        × (src.failure ≡ none)
  decrypt-encrypt random fails positive nonce_bytes src n h =
      let e = encrypt_file-Encrypted g chunk random fails positive nonce_bytes key src n h in
      (
        rw (e.bytes, ← append-nil (encode g chunk key e.frames), ← e.content)
            (decrypt-frames e.frames [] e.is_key e.valid (next_chunk-nil g chunk key fits)),
        e.size,
        e.whole,
      )
