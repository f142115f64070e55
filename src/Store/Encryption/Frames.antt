-- ===== src/Store/Encryption/Frames.antt =====
-- What an encrypted file looks like, and how the reader takes it apart.
use p2p_storage.Base.{
  ℕ, ◌+◌, ◌%◌, ◌^◌, ◌≤◌, ◌<◌, ◌≡◌, refl, false, List, [], ◌∷◌, ◌++◌, arith, ltb, length, take, drop,
  length-append, take-append_length, drop-append_length, string_key, nat_key,
}
use p2p_storage.Base.Bytes.{Bytes, put_uint32, length-put_uint32, uint32-put_uint32}
use p2p_storage.Store.Encryption.{Gcm, eof, ok, err, read_full}
use p2p_storage.Store.Encryption.Reader.{next_chunk, max_chunk_len}
use mathlib.Core.List.{append_assoc, append-nil}

-- A file that starts with the bytes asked for.
pub read_full-append :
    (xs rest : Bytes) (n : ℕ) → length xs ≡ n → read_full n (xs ++ rest) ≡ ok (xs, rest)
unfolding read_full
read_full-append xs rest n e =
    rw (← e) (
      ground (arith, length-append xs rest, take-append_length xs rest, drop-append_length xs rest))

module _ (g : Gcm) (chunk : ℕ) (key : Bytes) where
  -- One chunk under its nonce, as it stands in a file.
  unfoldable pub sealed : Bytes × Bytes → Bytes
  sealed (nonce, p) = nonce ++ g.seal key nonce p

  unfoldable pub frame : Bytes × Bytes → Bytes
  frame f = put_uint32 (length (sealed f)) ++ sealed f

  unfoldable pub encode : List (Bytes × Bytes) → Bytes
  encode [] = []
  encode (f ∷ fs) = frame f ++ encode fs

  unfoldable pub plain : List (Bytes × Bytes) → Bytes
  plain [] = []
  plain ((nonce, p) ∷ fs) = p ++ plain fs

  abbrev pub IsFrame : Bytes × Bytes → Type 0
  IsFrame f = (length f.0 ≡ g.nonce_size) × (length f.1 ≤ chunk)

  pub length-sealed : (f : Bytes × Bytes) → length (sealed f) ≡ length f.0 + length f.1 + g.overhead
  unfolding sealed
  length-sealed (nonce, p) =
      omega (arith, length-append nonce (g.seal key nonce p), g.length-seal key nonce p)

  pub length-frame : (f : Bytes × Bytes) → length (frame f) ≡ 4 + length (sealed f)
  unfolding frame
  length-frame f = omega (
    arith,
    length-append (put_uint32 (length (sealed f))) (sealed f),
    length-put_uint32 (length (sealed f)),
  )

  pub encode-append : (fs gs : List (Bytes × Bytes)) → encode (fs ++ gs) ≡ encode fs ++ encode gs
  unfolding encode
  encode-append [] gs = refl
  encode-append (f ∷ fs) gs = rw (encode-append fs gs, append_assoc)

  pub plain-append : (fs gs : List (Bytes × Bytes)) → plain (fs ++ gs) ≡ plain fs ++ plain gs
  unfolding plain
  plain-append [] gs = refl
  plain-append ((nonce, p) ∷ fs) gs = rw (plain-append fs gs, append_assoc)

  take-sealed :
      (nonce p : Bytes)
      → length nonce ≡ g.nonce_size
      → take g.nonce_size (sealed (nonce, p)) ≡ nonce
  unfolding sealed
  take-sealed nonce p h = rw (← h) (take-append_length nonce _)

  drop-sealed :
      (nonce p : Bytes)
      → length nonce ≡ g.nonce_size
      → drop g.nonce_size (sealed (nonce, p)) ≡ g.seal key nonce p
  unfolding sealed
  drop-sealed nonce p h = rw (← h) (drop-append_length nonce _)

  module _ (fits : chunk + 2048 < 2 ^ 32) where
    -- The reader takes one frame off the file, whatever follows it.
    pub next_chunk-frame :
        (f : Bytes × Bytes) (rest : Bytes)
        → IsFrame f
        → next_chunk g chunk key (frame f ++ rest) ≡ ok (f.1, rest)
    unfolding next_chunk frame max_chunk_len
    next_chunk-frame (nonce, p) rest h =
        let body = sealed (nonce, p) in
        let size = length-sealed (nonce, p) in
        let no_wrap : length body % 2 ^ 32 ≡ length body =
          omega (arith, size, h.0, h.1, g.standard_nonce_size, g.standard_overhead) in
        let in_range : ltb ((chunk + g.nonce_size + g.overhead + 1024) % 2 ^ 32) (length body)
            ≡ false =
          ground (arith, size, h.0, h.1, g.standard_nonce_size, g.standard_overhead) in
        let long : ltb (length body) g.nonce_size ≡ false = ground (arith, size, h.0) in
        rw (
          append_assoc (put_uint32 (length body)) body rest,
          read_full-append (put_uint32 (length body)) (body ++ rest) 4 (length-put_uint32 _),
          uint32-put_uint32 (length body),
          no_wrap,
          in_range,
          read_full-append body rest (length body) refl,
          long,
          take-sealed nonce p h.0,
          drop-sealed nonce p h.0,
          g.open-seal key nonce p,
        )

    pub next_chunk-nil : next_chunk g chunk key [] ≡ err eof
    unfolding next_chunk read_full
    next_chunk-nil = refl

    -- A file that ends behind the length of a chunk ends without an error.
    pub next_chunk-header :
        (n : ℕ) → 0 < n → n ≤ chunk + 1052 → next_chunk g chunk key (put_uint32 n) ≡ err eof
    unfolding next_chunk max_chunk_len
    next_chunk-header n pos h =
        let no_wrap : n % 2 ^ 32 ≡ n = omega arith in
        let in_range : ltb ((chunk + g.nonce_size + g.overhead + 1024) % 2 ^ 32) n ≡ false =
          ground (arith, g.standard_nonce_size, g.standard_overhead) in
        rw
          (
            ← append-nil (put_uint32 n),
            read_full-append (put_uint32 n) [] 4 (length-put_uint32 n),
            uint32-put_uint32 n,
            no_wrap,
            in_range,
          )
          (unfold read_full in ground arith)
